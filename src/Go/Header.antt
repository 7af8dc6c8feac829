-- ===== src/Go/Header.antt =====
-- Header names of net/textproto and `http.Header` with its names in canonical form.
use anti_scrapling.Go.Tests.{◌==◌, leb, if◌then◌else◌}
use anti_scrapling.Go.Text.{Bytes}
use anti_scrapling.Go.Maps.{Assoc, store, delete}
use Prim.Native.Nat.{ℕ, ◌+◌, ◌-◌}
use mathlib.Core.Bool.{Bool, true, ◌&&◌, ◌||◌}
use mathlib.Core.List.{List, [], ◌∷◌}

-- Letters, digits and !#$%&'*+-.^_`|~.
unfoldable pub is_token_byte : ℕ → Bool
is_token_byte c =
    (leb b'a' c && leb c b'z')
    || (leb b'A' c && leb c b'Z')
    || (leb b'0' c && leb c b'9')
    || c == 33
    || (leb 35 c && leb c 39)
    || c == 42
    || c == 43
    || c == 45
    || c == 46
    || c == 94
    || c == 95
    || c == 96
    || c == 124
    || c == 126

unfoldable pub all_token_bytes : Bytes → Bool
unfolding is_token_byte
all_token_bytes [] = true
all_token_bytes (c ∷ s) = is_token_byte c && all_token_bytes s

-- One letter, upper case behind a hyphen and at the start.
abbrev pub cased : Bool → ℕ → ℕ
cased upper c =
    if upper
    then if leb b'a' c && leb c b'z' then c - 32 else c
    else if leb b'A' c && leb c b'Z'
    then c + 32
    else c

unfoldable pub cased_all : Bool → Bytes → Bytes
cased_all upper [] = []
cased_all upper (c ∷ s) = let d = cased upper c in d ∷ cased_all (d == b'-') s

-- `textproto.CanonicalMIMEHeaderKey`: a name with a byte that is not allowed stays as it is.
unfoldable pub canonical_key : Bytes → Bytes
unfolding all_token_bytes cased_all
canonical_key name = if all_token_bytes name then cased_all true name else name

-- `Header.Set` and `Header.Del`.
unfoldable pub header_set : Bytes → Bytes → Assoc (List Bytes) → Assoc (List Bytes)
unfolding canonical_key store
header_set name value header = store (canonical_key name) (value ∷ []) header

unfoldable pub header_del : Bytes → Assoc (List Bytes) → Assoc (List Bytes)
unfolding canonical_key delete
header_del name header = delete (canonical_key name) header
