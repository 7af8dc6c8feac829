-- ===== src/Tls/Parser/Total.antt =====
-- The loops of `ParseClientHello` end.
use anti_scrapling.Go.{
  ◌≢◌, none, take, drop, length-drop, ℕ, zero, suc, ◌%◌, ◌≤◌, ◌≡◌, refl, [], ◌∷◌, Bytes, Result, ok,
  err, ◌>>=◌, ◌>>◌, guard, length, arith, ◌==◌, Bool, true, false,
}
use anti_scrapling.Tls.Extensions.{
  Alpn, listed, malformed, no_fuel, add_protocol, server_name_loop, alpn_standard_loop,
  alpn_two_byte_loop,
}
use anti_scrapling.Tls.Reader.{
  Part, ParseError, out_of_fuel, read_uint8, read_uint16, read_bytes, extension_data, version,
  random, session_id_length, session_id, cipher_length, ciphers, compression_length, compression,
  extensions_length, extensions, be16, odd_ciphers, trailing,
}
use anti_scrapling.Tls.Parser.Shape.{read_extension-shorter}
use anti_scrapling.Tls.Parser.{
  ClientHello, add_extension, read_extension, parse_extensions, handshake_body, client_hello_body,
  parse_fields, parse_rest, parse_client_hello,
}

IsRealError : ParseError → Type 0
IsRealError out_of_fuel = ⊥
IsRealError e = Unit

-- The result, where it is an error, is one of the source's.
unfoldable pub IsReal {ℓ} : {A : Type ℓ} → Result ParseError A → Type 0
unfolding IsRealError
IsReal (ok a) = Unit
IsReal (err e) = IsRealError e

bind-IsReal {ℓ κ} :
    {A : Type ℓ} {B : Type κ} (m : Result ParseError A) (f : A → Result ParseError B)
    → IsReal m
    → ((a : A) → m ≡ ok a → IsReal (f a))
    → IsReal (m >>= f)
unfolding IsReal
bind-IsReal (ok a) f h k = k a refl
bind-IsReal (err e) f h k = h

read_uint8-IsReal : (part : Part) (bs : Bytes) → IsReal (read_uint8 part bs)
unfolding read_uint8 IsReal
read_uint8-IsReal part [] = tt
read_uint8-IsReal part (b ∷ bs) = tt

read_uint16-IsReal : (part : Part) (bs : Bytes) → IsReal (read_uint16 part bs)
unfolding read_uint16 IsReal
read_uint16-IsReal part [] = tt
read_uint16-IsReal part (a ∷ []) = tt
read_uint16-IsReal part (a ∷ b ∷ bs) = tt

read_bytes-IsReal : (part : Part) (n : ℕ) (bs : Bytes) → IsReal (read_bytes part n bs)
unfolding read_bytes IsReal
read_bytes-IsReal part n bs = ground arith

guard-IsReal : (b : Bool) (e : ParseError) → IsRealError e → IsReal (guard b e)
unfolding IsReal
guard-IsReal true e h = tt
guard-IsReal false e h = h

read_extension-IsReal : (data' : Bytes) → IsReal (read_extension data')
unfolding read_extension IsReal
read_extension-IsReal (a ∷ b ∷ c ∷ d ∷ rest) =
    bind-IsReal (read_bytes (extension_data (be16 a b)) (be16 c d) rest) _
      (read_bytes-IsReal (extension_data (be16 a b)) (be16 c d) rest) (λ r e. tt)
read_extension-IsReal (a ∷ b ∷ c ∷ []) = tt
read_extension-IsReal (a ∷ b ∷ []) = tt
read_extension-IsReal (a ∷ []) = tt
read_extension-IsReal [] = tt

parse_extensions-IsReal :
    (fuel : ℕ) (data' : Bytes) (hello : ClientHello)
    → length data' ≤ fuel
    → IsReal (parse_extensions fuel data' hello)
unfolding parse_extensions IsReal
parse_extensions-IsReal fuel [] hello h = tt
parse_extensions-IsReal zero (b ∷ rest) hello h = ground arith
parse_extensions-IsReal (suc fuel) (b ∷ rest) hello h =
    bind-IsReal (read_extension (b ∷ rest)) _ (read_extension-IsReal (b ∷ rest)) (λ r e.
      parse_extensions-IsReal fuel r.1 (add_extension r.0 hello)
        (omega (arith, read_extension-shorter (b ∷ rest) e)))

then-IsReal {ℓ κ} :
    {A : Type ℓ} {B : Type κ} (m : Result ParseError A) (n : Result ParseError B)
    → IsReal m
    → IsReal n
    → IsReal (m >> n)
unfolding IsReal
then-IsReal (ok a) n h k = k
then-IsReal (err e) n h k = h

parse_fields-IsReal : (body : Bytes) → IsReal (parse_fields body)
unfolding parse_fields IsReal
parse_fields-IsReal body =
    bind-IsReal (read_uint16 version body) _ (read_uint16-IsReal version body) λ r1 e1.
      bind-IsReal (read_bytes random 32 r1.1) _ (read_bytes-IsReal random 32 r1.1) λ r2 e2.
        bind-IsReal (read_uint8 session_id_length r2.1) _ (read_uint8-IsReal session_id_length r2.1)
          λ r3 e3.
            bind-IsReal (read_bytes session_id r3.0 r3.1) _ (read_bytes-IsReal session_id r3.0 r3.1)
              λ r4 e4.
                bind-IsReal (read_uint16 cipher_length r4.1) _
                  (read_uint16-IsReal cipher_length r4.1)
                  λ r5 e5.
                    then-IsReal (guard (r5.0 % 2 == 0) (odd_ciphers r5.0)) _
                      (guard-IsReal (r5.0 % 2 == 0) (odd_ciphers r5.0) tt)
                      (bind-IsReal (read_bytes ciphers r5.0 r5.1) _
                        (read_bytes-IsReal ciphers r5.0 r5.1)
                        λ r6 e6.
                          bind-IsReal (read_uint8 compression_length r6.1) _
                            (read_uint8-IsReal compression_length r6.1)
                            λ r7 e7.
                              bind-IsReal (read_bytes compression r7.0 r7.1) _
                                (read_bytes-IsReal compression r7.0 r7.1) λ r8 e8. tt)

parse_rest-IsReal : (hello : ClientHello) (rest : Bytes) → IsReal (parse_rest hello rest)
unfolding parse_rest IsReal
parse_rest-IsReal hello [] = tt
parse_rest-IsReal hello (b ∷ data') =
    bind-IsReal (read_uint16 extensions_length (b ∷ data')) _
      (read_uint16-IsReal extensions_length (b ∷ data'))
      λ r1 e1.
        bind-IsReal (read_bytes extensions r1.0 r1.1) _ (read_bytes-IsReal extensions r1.0 r1.1)
          λ r2 e2.
            then-IsReal (guard (length r2.1 == 0) (trailing (length r2.1))) _
              (guard-IsReal (length r2.1 == 0) (trailing (length r2.1)) tt)
              (parse_extensions-IsReal (length r2.0) r2.0 hello (omega arith))

handshake_body-IsReal : (raw : Bytes) → IsReal (handshake_body raw)
unfolding handshake_body IsReal
handshake_body-IsReal raw = ground arith

client_hello_body-IsReal : (raw : Bytes) → IsReal (client_hello_body raw)
unfolding client_hello_body IsReal
client_hello_body-IsReal raw = ground arith

server_name_loop-ends :
    (fuel : ℕ) (names : Bytes) → length names ≤ fuel → server_name_loop fuel names ≢ none
unfolding server_name_loop
server_name_loop-ends fuel [] h e = ground (arith, e)
server_name_loop-ends zero (b ∷ rest) h e = absurd (omega (arith, h))
server_name_loop-ends (suc fuel) (a ∷ []) h e = ground (arith, e)
server_name_loop-ends (suc fuel) (a ∷ b ∷ []) h e = ground (arith, e)
server_name_loop-ends (suc fuel) (type ∷ hi ∷ lo ∷ rest) h e = ground (
  arith,
  e,
  server_name_loop-ends fuel (drop (be16 hi lo) rest)
      (omega (arith, h, length-drop (be16 hi lo) rest)),
)

add_protocol-ends : (p : Bytes) (a : Alpn) → a ≢ no_fuel → add_protocol p a ≢ no_fuel
add_protocol-ends p (listed ps) h e = cc
add_protocol-ends p malformed h e = cc
add_protocol-ends p no_fuel h e = h refl

alpn_standard_loop-ends :
    (fuel : ℕ) (rest : Bytes) → length rest ≤ fuel → alpn_standard_loop fuel rest ≢ no_fuel
unfolding alpn_standard_loop
alpn_standard_loop-ends fuel [] h e = cc
alpn_standard_loop-ends zero (n ∷ rest) h e = absurd (omega (arith, h))
alpn_standard_loop-ends (suc fuel) (n ∷ rest) h e = ground (
  arith,
  e,
  add_protocol-ends (take n rest) (alpn_standard_loop fuel (drop n rest))
      (alpn_standard_loop-ends fuel (drop n rest) (omega (arith, h, length-drop n rest))),
)

alpn_two_byte_loop-ends :
    (fuel : ℕ) (rest : Bytes) → length rest ≤ fuel → alpn_two_byte_loop fuel rest ≢ no_fuel
unfolding alpn_two_byte_loop
alpn_two_byte_loop-ends fuel [] h e = cc
alpn_two_byte_loop-ends zero (n ∷ rest) h e = absurd (omega (arith, h))
alpn_two_byte_loop-ends (suc fuel) (a ∷ []) h e = cc
alpn_two_byte_loop-ends (suc fuel) (hi ∷ lo ∷ rest) h e = ground (
  arith,
  e,
  add_protocol-ends (take (be16 hi lo) rest) (alpn_two_byte_loop fuel (drop (be16 hi lo) rest)) (
      alpn_two_byte_loop-ends fuel (drop (be16 hi lo) rest)
        (omega (arith, h, length-drop (be16 hi lo) rest))),
)

-- `ParseClientHello` ends on every input: the loop over the extensions has rounds enough, and so
-- have the loops over server names and protocols, on whatever bytes they are run.
pub parse_client_hello-IsReal :
    (raw rest : Bytes)
    → IsReal (parse_client_hello raw)
      × (server_name_loop (length rest) rest ≢ none)
      × (alpn_standard_loop (length rest) rest ≢ no_fuel)
      × (alpn_two_byte_loop (length rest) rest ≢ no_fuel)
unfolding parse_client_hello
parse_client_hello-IsReal raw rest = (
  bind-IsReal (client_hello_body raw) _ (client_hello_body-IsReal raw) λ body e.
      bind-IsReal (parse_fields body) _ (parse_fields-IsReal body) λ r f. parse_rest-IsReal r.0 r.1,
  server_name_loop-ends (length rest) rest (omega arith),
  alpn_standard_loop-ends (length rest) rest (omega arith),
  alpn_two_byte_loop-ends (length rest) rest (omega arith),
)
