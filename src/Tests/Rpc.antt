-- ===== src/Tests/Rpc.antt =====
-- The retries of a remote call at concrete inputs.
use exfer_honor.Base.{ℕ, suc, ◌+◌, ◌≡◌, refl, [], ◌∷◌}
use exfer_honor.Spec.Errors.{ok}
use exfer_honor.Ports.Effect.{Eff}
use exfer_honor.Service.HttpRpc.{Response, read_response, after_pass, call_from, call}
use exfer_honor.Service.HttpRpc.Attempts.{tries, call-tries}

-- A server that answers every request with the status 404. The state is the number of requests and the
-- time waited.
abbrev not_found : Eff (ℕ × ℕ) (Response ℕ)
not_found (n, waited) = (ok (Response.http_status 404), (suc n, waited))

abbrev wait_for : ℕ → ℕ × ℕ → ℕ × ℕ
wait_for ms (n, waited) = (n, waited + ms)

call-tries_example :
    call not_found wait_for (0, 0) ≡ tries not_found wait_for (400 ∷ 800 ∷ 1200 ∷ 1600 ∷ []) (0, 0)
call-tries_example = call-tries not_found wait_for (0, 0)

-- All five requests are made, with 4000 ms of waiting, against the comment on a status 4xx.
not_found_spins : (call not_found wait_for (0, 0)).1 ≡ (5, 4000)
unfolding call call_from read_response after_pass
not_found_spins = refl
