-- ===== src/Api/Decided.antt =====
-- What the decide handler accepts and answers.
use anti_scrapling.Go.{
  ℕ, ◌≡◌, ap, inl, inr, Bool, Option, List, Bytes, Result, ok, err, Result-cases,
}
use anti_scrapling.Types.{Decision}
use anti_scrapling.Http.{HttpRequest}
use anti_scrapling.Policy.Evaluator.{Cel}
use anti_scrapling.Cache.{Cache}
use anti_scrapling.Pipeline.{Codec, Times}
use anti_scrapling.Token.Issuer.{Jwt}
use anti_scrapling.Api.{DecisionRequest, ApiError, Body, DecideHandler, accept, respond, serve_http}

of_err {ℓ} : {A : Type ℓ} {x : Result ApiError A} {d : A} {e : ApiError} → x ≡ ok d → x ≡ err e → ⊥
of_err h k = cc

module _ (jwt : Jwt) (unicode : Bytes → Bytes → Bool) (cel : Cel) (cache : Cache) (codec : Codec)
    (parse_path : Bytes → Option Bytes) where
  module _ (h : DecideHandler jwt unicode cel cache codec parse_path) (now : ℕ)
      (t : Times cel cache codec) (schedule : List ℕ) (id : Bytes) (stamp : ℕ) (method : Bytes)
      (body : Body) (s : cache.State) where
    abbrev answer :
        Result ApiError (DecisionRequest × HttpRequest) → Result ApiError Decision × cache.State
    answer a = respond jwt unicode cel cache codec parse_path h now t schedule id stamp s a

    -- A call that is refused leaves the cache as it is.
    pub serve_http-err :
        {e : ApiError}
        → (serve_http jwt unicode cel cache codec parse_path h now t schedule id stamp method body
            s).0
          ≡ err e
        → (serve_http jwt unicode cel cache codec parse_path h now t schedule id stamp method body
            s).1
          ≡ s
    unfolding serve_http respond
    serve_http-err e = elim (Result-cases (accept parse_path method body)) [
      | inr (why, refused) ↦ ap (λ a. (answer a).1) refused
      | inl ((req, r), accepted) ↦ absurd (of_err (ap (λ a. (answer a).0) accepted) e)
    ]
