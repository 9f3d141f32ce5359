-- ===== src/Service/HttpRpc/Attempts.antt =====
-- The attempts of `httpJsonRpc` (src/service/http-rpc.ts), against a list of the waits between them.
use exfer_honor.Base.{
  ℕ, zero, suc, ◌+◌, ◌*◌, ◌≡◌, refl, ◌∙◌, ◌⊎◌, inl, inr, true, false, codes, Option, none, some,
  List, [], ◌∷◌, arith, ltb,
}
use exfer_honor.Spec.Errors.{Thrown, Result, ok, throw}
use exfer_honor.Ports.Effect.{Eff, pure, continue, handled}
use exfer_honor.Service.HttpRpc.{
  rpc_max_attempts, rpc_backoff_ms, Response, Pass, read_response, after_pass, call_from, call,
}

-- What an attempt settles: a result, or an `error` member, whose code and message are thrown. Every other
-- answer, and a throw of `fetch`, is a fault.
abbrev pub settles : {R : Type 0} → Result (Response R) → Result R ⊎ Thrown
settles (ok (Response.result r)) = inl (ok r)
settles (ok (Response.error_member code none)) =
    inl (throw (Thrown.plain_error code (codes "JSON-RPC error from")))
settles (ok (Response.error_member code (some message))) =
    inl (throw (Thrown.plain_error code message))
settles (ok (Response.http_status status)) = inr (Thrown.plain_error none (codes "JSON-RPC HTTP"))
settles (ok (Response.unreadable e)) = inr e
settles (throw e) = inr e

module _ {W R : Type 0} (fetch : Eff W (Response R)) (sleep : ℕ → W → W) where
  -- One attempt, and after a fault another for each wait that is left; then the fault is thrown.
  abbrev pub tries : List ℕ → Eff W R
  tries [] w = elim (settles (fetch w).0) [
    | inl r ↦ (r, (fetch w).1)
    | inr e ↦ (throw e, (fetch w).1)
  ]
  tries (ms ∷ waits) w =
      let rest = tries waits (sleep ms (fetch w).1) in
      elim (settles (fetch w).0) [ inl r ↦ (r, (fetch w).1) | inr e ↦ rest ]

  abbrev answered : (Thrown → Eff W R) → ℕ → Result (Response R) → Eff W R
  answered next attempt r w = continue (after_pass fetch sleep next attempt) (
      handled (λ e. pure (Pass.failed e))
        (continue (λ response. pure (read_response attempt response)) (r, w)))

  last_answer :
      (next : Thrown → Eff W R) (attempt : ℕ) (r : Result (Response R)) (w : W)
      → ltb attempt rpc_max_attempts ≡ false
      → answered next attempt r w ≡ elim (settles r) [ inl a ↦ (a, w) | inr e ↦ next e w ]
  unfolding after_pass read_response
  last_answer next attempt (ok (Response.result r)) w h = refl
  last_answer next attempt (ok (Response.error_member code none)) w h = refl
  last_answer next attempt (ok (Response.error_member code (some message))) w h = refl
  last_answer next attempt (ok (Response.http_status status)) w h = ground arith
  last_answer next attempt (ok (Response.unreadable e)) w h = ground arith
  last_answer next attempt (throw e) w h = ground arith

  early_answer :
      (next : Thrown → Eff W R) (attempt : ℕ) (r : Result (Response R)) (w : W)
      → ltb attempt rpc_max_attempts ≡ true
      → answered next attempt r w
        ≡ elim (settles r) [ inl a ↦ (a, w) | inr e ↦ next e (sleep (rpc_backoff_ms * attempt) w) ]
  unfolding after_pass read_response
  early_answer next attempt (ok (Response.result r)) w h = refl
  early_answer next attempt (ok (Response.error_member code none)) w h = refl
  early_answer next attempt (ok (Response.error_member code (some message))) w h = refl
  early_answer next attempt (ok (Response.http_status status)) w h = ground arith
  early_answer next attempt (ok (Response.unreadable e)) w h = ground arith
  early_answer next attempt (throw e) w h = ground arith

  abbrev waits_from : ℕ → ℕ → List ℕ
  waits_from zero attempt = []
  waits_from (suc left) attempt = rpc_backoff_ms * attempt ∷ waits_from left (suc attempt)

  settled_rest :
      (s : Result R ⊎ Thrown) (w : W) (next : Thrown → Result R × W) (rest : Result R × W)
      → ((e : Thrown) → next e ≡ rest)
      → ◌≡◌ {A = Result R × W}
          (elim s [ inl a ↦ (a, w) | inr e ↦ next e ])
          (elim s [ inl a ↦ (a, w) | inr e ↦ rest ])
  settled_rest (inl a) w next rest h = refl
  settled_rest (inr e) w next rest h = h e

  call_from-tries :
      (left attempt : ℕ) (last : Option Thrown) (w : W)
      → attempt + left ≡ rpc_max_attempts
      → call_from fetch sleep (suc left) attempt last w ≡ tries (waits_from left attempt) w
  unfolding call_from
  call_from-tries zero attempt last w h =
      last_answer (λ e. call_from fetch sleep zero (suc attempt) (some e)) attempt (fetch w).0
        (fetch w).1 (ground arith)
  call_from-tries (suc left) attempt last w h =
      early_answer (λ e. call_from fetch sleep (suc left) (suc attempt) (some e)) attempt
        (fetch w).0 (fetch w).1 (ground arith)
      ∙ settled_rest (settles (fetch w).0) (fetch w).1 _ _
          (λ e. call_from-tries left (suc attempt) (some e) _ (omega (arith, h)))

  -- A remote call makes its attempts until one brings a result or an `error` member, and answers that; any
  -- other answer, of whatever status, and a throw of `fetch` lead to the next attempt, after 400, 800, 1200
  -- and 1600 ms, and the fault of the fifth attempt is thrown with no wait after it.
  pub call-tries : (w : W) → call fetch sleep w ≡ tries (400 ∷ 800 ∷ 1200 ∷ 1600 ∷ []) w
  unfolding call
  call-tries w = call_from-tries 4 1 none w refl
