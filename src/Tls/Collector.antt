-- ===== src/Tls/Collector.antt =====
-- internal/signal/tls/collector.go.
pub mod Signals
use anti_scrapling.Go.{
  Bool, true, false, not, ◌&&◌, ◌||◌, if◌then◌else◌, Option, none, some, List, [], ◌∷◌, ◌++◌, Bytes,
  codes, Assoc, text_eq, contains, to_lower, trim_space, pos, ℤ, Result, ok, err, ◌>>=◌,
}
use anti_scrapling.Types.{Signal, DetailValue}
use anti_scrapling.Http.{RequestContext, user_agent}
use anti_scrapling.Tls.Reader.{ParseError}
use anti_scrapling.Tls.Parser.{ClientHello, parse_client_hello}
use anti_scrapling.Tls.Ja3.{ja3_string, ja3_hash}
use anti_scrapling.Tls.Ja4.{ja4_string}
use anti_scrapling.Tls.Families.{
  FamilyInfo, lookup_ja3_family, lookup_denylisted_ja3, lookup_known_ja4, user_agent_family,
  is_browser_family,
}

abbrev pub ja3_mismatch_signal : Bytes
ja3_mismatch_signal = codes "ja3_mismatch"

abbrev pub ja3_known_scraper_signal : Bytes
ja3_known_scraper_signal = codes "ja3_known_scraper"

abbrev pub ja4_unknown_signal : Bytes
ja4_unknown_signal = codes "ja4_unknown"

unfoldable pub request_user_agent : RequestContext → Bytes
unfolding user_agent
request_user_agent ctx = elim ctx.request [ none ↦ [] | some r ↦ user_agent r ]

unfoldable pub has_signal : List Signal → Bytes → Bool
has_signal [] name = false
has_signal (s ∷ ss) name = text_eq s.name name || has_signal ss name

unfoldable pub ja3_mismatch_signal_detail : Bytes → Assoc DetailValue → Signal
ja3_mismatch_signal_detail reason detail = record {
  name = ja3_mismatch_signal;
  score = pos 40;
  reason = reason;
  detail = detail;
}

unfoldable pub known_scraper : FamilyInfo → Bytes → Bytes → Signal
known_scraper info ja3 hash = record {
  name = ja3_known_scraper_signal;
  score = pos 100;
  reason = codes "JA3 hash matches a known scraper TLS stack";
  detail =
      (codes "action", DetailValue.text (codes "deny"))
      ∷ (codes "family", DetailValue.text info.family)
      ∷ (codes "library", DetailValue.text info.library)
      ∷ (codes "ja3", DetailValue.text ja3)
      ∷ (codes "hash", DetailValue.text hash)
      ∷ [];
}

unfoldable pub unknown_ja4 : Bytes → Bytes → Signal
unknown_ja4 ja4 hash = record {
  name = ja4_unknown_signal;
  score = pos 30;
  reason = codes "JA4 fingerprint is not in the real-browser allowlist";
  detail = (codes "ja4", DetailValue.text ja4) ∷ (codes "ja3_hash", DetailValue.text hash) ∷ [];
}

-- `append(signals, s)` where the entry is there.
abbrev pub scraper_signals : Option FamilyInfo → Bytes → Bytes → List Signal
scraper_signals none ja3 hash = []
scraper_signals (some info) ja3 hash = known_scraper info ja3 hash ∷ []

abbrev pub ja4_signals : Bytes → Option FamilyInfo → Bytes → List Signal
ja4_signals [] known hash = []
ja4_signals (c ∷ cs) (some info) hash = []
ja4_signals (c ∷ cs) none hash = unknown_ja4 (c ∷ cs) hash ∷ []

-- The fingerprints of a request, and the signal that raw bytes and context disagree.
pub record Fingerprints : Type 0 where
  pub ja3 : Bytes
  pub hash : Bytes
  pub ja4 : Bytes
  pub found : List Signal

-- `md5` and `sha256` are the digests, `unicode` is `strings.ToLower` on texts that are not ASCII.
module _ (md5 sha256 unicode : Bytes → Bytes) where
  unfoldable pub normalize_ja3 : Bytes → Bytes × Bytes
  unfolding trim_space contains to_lower ja3_hash text_eq
  normalize_ja3 value =
      let trimmed = trim_space value in
      if text_eq trimmed []
      then ([], [])
      else if contains trimmed (codes ",")
      then (trimmed, ja3_hash md5 trimmed)
      else ([], to_lower unicode trimmed)

  unfoldable pub ja3_mismatch_by_user_agent : RequestContext → Bytes → Bool
  unfolding text_eq lookup_ja3_family is_browser_family user_agent_family request_user_agent
  ja3_mismatch_by_user_agent ctx hash =
      let ua_family = user_agent_family unicode (request_user_agent ctx) in
      if text_eq hash [] then false else elim (lookup_ja3_family unicode hash) [
        | none ↦ false
        | some info ↦
            is_browser_family info.family
            && is_browser_family ua_family
            && not (text_eq ua_family info.family)
      ]

  -- The context's fingerprints give way to those of the hello.
  unfoldable pub of_hello : RequestContext → ClientHello → Fingerprints
  unfolding normalize_ja3 ja3_string ja3_hash ja4_string text_eq ja3_mismatch_signal_detail
  of_hello ctx hello =
      let given = normalize_ja3 ctx.ja3 in
      let computed = ja3_string (some hello) in
      let computed_hash = ja3_hash md5 computed in
      record {
        ja3 = computed;
        hash = computed_hash;
        ja4 = ja4_string sha256 (some hello);
        found =
            if not (text_eq given.0 [])
              && not (text_eq given.0 computed)
              && not (text_eq given.1 computed_hash)
            then ja3_mismatch_signal_detail
                (codes "raw ClientHello JA3 differs from request context")
                ((codes "context_ja3", DetailValue.text ctx.ja3)
                  ∷ (codes "computed_ja3", DetailValue.text computed)
                  ∷ (codes "ja3_hash", DetailValue.text computed_hash)
                  ∷ [])
              ∷ []
            else [];
      }

  unfoldable pub fingerprints : RequestContext → Result ParseError Fingerprints
  unfolding normalize_ja3 trim_space parse_client_hello of_hello
  fingerprints ctx = elim ctx.client_hello [
    | [] ↦ ok (record {
      ja3 = (normalize_ja3 ctx.ja3).0;
      hash = (normalize_ja3 ctx.ja3).1;
      ja4 = trim_space ctx.ja4;
      found = [];
    })
    | b ∷ bs ↦ (parse_client_hello (b ∷ bs) >>= λ hello. ok (of_hello ctx hello))
  ]

  unfoldable pub agent_signals : RequestContext → Fingerprints → List Signal → List Signal
  unfolding ja3_mismatch_by_user_agent has_signal ja3_mismatch_signal_detail request_user_agent
  agent_signals ctx f so_far =
      if ja3_mismatch_by_user_agent ctx f.hash && not (has_signal so_far ja3_mismatch_signal)
      then ja3_mismatch_signal_detail (codes "JA3 browser family conflicts with User-Agent family")
          ((codes "ja3", DetailValue.text f.ja3)
            ∷ (codes "ja3_hash", DetailValue.text f.hash)
            ∷ (codes "user_agent", DetailValue.text (request_user_agent ctx))
            ∷ [])
        ∷ []
      else []

  -- The signals that a request's fingerprints and its User-Agent raise.
  unfoldable pub signals_of : RequestContext → Fingerprints → List Signal
  unfolding lookup_denylisted_ja3 known_scraper agent_signals lookup_known_ja4 unknown_ja4
  signals_of ctx f =
      let so_far = f.found ++ scraper_signals (lookup_denylisted_ja3 unicode f.hash) f.ja3 f.hash in
      so_far ++ (agent_signals ctx f so_far ++ ja4_signals f.ja4 (lookup_known_ja4 f.ja4) f.hash)

  unfoldable pub collect : RequestContext → Result ParseError (List Signal)
  unfolding fingerprints signals_of
  collect ctx = do f ← fingerprints ctx; ok (signals_of ctx f)
