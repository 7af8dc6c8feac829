-- ===== src/Tls/Collector/Signals.antt =====
-- Which signals the TLS collector raises, and how often.
use anti_scrapling.Go.{
  ℕ, ◌≡◌, refl, ◌∙◌, Bool, true, false, ◌||◌, if◌then◌else◌, Option, none, some, List, [], ◌∷◌,
  ◌++◌, Bytes, text_eq, ok, arith,
}
use anti_scrapling.Types.{Signal}
use anti_scrapling.Http.{RequestContext}
use anti_scrapling.Tls.Parser.{ClientHello, parse_client_hello}
use anti_scrapling.Tls.Ja3.{ja3_string, ja3_hash}
use anti_scrapling.Tls.Families.{FamilyInfo, lookup_denylisted_ja3, lookup_known_ja4}
use anti_scrapling.Tls.Collector.{
  has_signal, ja3_mismatch_signal, ja3_known_scraper_signal, ja4_unknown_signal,
  ja3_mismatch_signal_detail, known_scraper, unknown_ja4, scraper_signals, ja4_signals,
  Fingerprints, of_hello, fingerprints, signals_of, collect, agent_signals,
}

has_signal-append :
    (name : Bytes) (ss ts : List Signal)
    → has_signal (ss ++ ts) name ≡ (has_signal ss name || has_signal ts name)
unfolding has_signal
has_signal-append name [] ts = refl
has_signal-append name (s ∷ ss) ts = ground (arith, has_signal-append name ss ts)

abbrev pub is_some : Option FamilyInfo → Bool
is_some none = false
is_some (some info) = true

-- Lists of signals of one name, which is not the other.
IsOnly : Bytes → List Signal → Type 0
IsOnly name [] = Unit
IsOnly name (s ∷ ss) = (s.name ≡ name) × IsOnly name ss

has_signal-IsOnly :
    (name other : Bytes) (ss : List Signal)
    → IsOnly name ss
    → text_eq name other ≡ false
    → has_signal ss other ≡ false
unfolding has_signal IsOnly
has_signal-IsOnly name other [] h e = refl
has_signal-IsOnly name other (s ∷ ss) (p, h) e = rw (p, e) (has_signal-IsOnly name other ss h e)

mismatch_not_scraper : text_eq ja3_mismatch_signal ja3_known_scraper_signal ≡ false
unfolding text_eq
mismatch_not_scraper = refl

ja4_not_scraper : text_eq ja4_unknown_signal ja3_known_scraper_signal ≡ false
unfolding text_eq
ja4_not_scraper = refl

ja4_signals-IsOnly :
    (ja4 : Bytes) (known : Option FamilyInfo) (hash : Bytes)
    → IsOnly ja4_unknown_signal (ja4_signals ja4 known hash)
unfolding IsOnly unknown_ja4
ja4_signals-IsOnly [] known hash = tt
ja4_signals-IsOnly (c ∷ cs) none hash = (refl, tt)
ja4_signals-IsOnly (c ∷ cs) (some info) hash = tt

has_signal-scraper :
    (known : Option FamilyInfo) (ja3 hash : Bytes)
    → has_signal (scraper_signals known ja3 hash) ja3_known_scraper_signal ≡ is_some known
unfolding has_signal known_scraper text_eq
has_signal-scraper none ja3 hash = refl
has_signal-scraper (some info) ja3 hash = refl

IsOnly-if :
    (b : Bool) (name : Bytes) (s : Signal) → s.name ≡ name → IsOnly name (if b then s ∷ [] else [])
unfolding IsOnly
IsOnly-if true name s h = (h, tt)
IsOnly-if false name s h = tt

has_signal-parts :
    (ms ss us js : List Signal)
    → IsOnly ja3_mismatch_signal ms
    → IsOnly ja3_mismatch_signal us
    → IsOnly ja4_unknown_signal js
    → has_signal ((ms ++ ss) ++ (us ++ js)) ja3_known_scraper_signal
      ≡ has_signal ss ja3_known_scraper_signal
has_signal-parts ms ss us js h k l = ground (
  arith,
  has_signal-append ja3_known_scraper_signal (ms ++ ss) (us ++ js),
  has_signal-append ja3_known_scraper_signal ms ss,
  has_signal-append ja3_known_scraper_signal us js,
  has_signal-IsOnly ja3_mismatch_signal ja3_known_scraper_signal ms h mismatch_not_scraper,
  has_signal-IsOnly ja3_mismatch_signal ja3_known_scraper_signal us k mismatch_not_scraper,
  has_signal-IsOnly ja4_unknown_signal ja3_known_scraper_signal js l ja4_not_scraper,
)

module _ (md5 sha256 unicode : Bytes → Bytes) where
  of_hello-found :
      (ctx : RequestContext) (hello : ClientHello)
      → IsOnly ja3_mismatch_signal (of_hello md5 sha256 unicode ctx hello).found
  unfolding of_hello ja3_mismatch_signal_detail
  of_hello-found ctx hello = IsOnly-if _ ja3_mismatch_signal _ refl

  agent_signals-IsOnly :
      (ctx : RequestContext) (f : Fingerprints) (so_far : List Signal)
      → IsOnly ja3_mismatch_signal (agent_signals md5 sha256 unicode ctx f so_far)
  unfolding agent_signals ja3_mismatch_signal_detail
  agent_signals-IsOnly ctx f so_far = IsOnly-if _ ja3_mismatch_signal _ refl

  signals_of-scraper :
      (ctx : RequestContext) (f : Fingerprints)
      → IsOnly ja3_mismatch_signal f.found
      → has_signal (signals_of md5 sha256 unicode ctx f) ja3_known_scraper_signal
        ≡ is_some (lookup_denylisted_ja3 unicode f.hash)
  unfolding signals_of
  signals_of-scraper ctx f h =
      let known = lookup_denylisted_ja3 unicode f.hash in
      let so_far = f.found ++ scraper_signals known f.ja3 f.hash in
      has_signal-parts f.found (scraper_signals known f.ja3 f.hash) _ _ h
        (agent_signals-IsOnly ctx f so_far)
        (ja4_signals-IsOnly f.ja4 (lookup_known_ja4 f.ja4) f.hash)
      ∙ has_signal-scraper known f.ja3 f.hash

  -- For a request whose raw ClientHello parses, the collector answers, and it raises
  -- "ja3_known_scraper" exactly if the deny list has the hash of the hello's own JA3: the JA3 and
  -- JA4 that the request context claims, and its User-Agent, have no say.
  pub collect-known_scraper :
      (ctx : RequestContext) (b : ℕ) (bs : Bytes) (hello : ClientHello)
      → ctx.client_hello ≡ b ∷ bs
      → parse_client_hello (b ∷ bs) ≡ ok hello
      → (ss : List Signal) × (collect md5 sha256 unicode ctx ≡ ok ss)
        × (has_signal ss ja3_known_scraper_signal
            ≡ is_some (lookup_denylisted_ja3 unicode (ja3_hash md5 (ja3_string (some hello)))))
  unfolding collect fingerprints
  collect-known_scraper ctx b bs hello e p =
      let f = of_hello md5 sha256 unicode ctx hello in
      (
        signals_of md5 sha256 unicode ctx f,
        rw (e, p) refl,
        signals_of-scraper ctx f (of_hello-found ctx hello),
      )
