-- ===== src/Service/HttpRpc.antt =====
-- `httpJsonRpc` (src/service/http-rpc.ts): one remote call, with its retries. `fetch` and the wait between
-- two attempts are parameters; the request's body is left out, it is the same at each attempt.
pub mod Attempts
use exfer_honor.Base.{
  ℕ, zero, suc, ◌+◌, ◌*◌, ◌≤◌, ◌≡◌, Text, codes, Bool, ◌&&◌, Option, none, some, arith, ltb, leb,
  if◌then◌else◌, refl, sym, ap, ◌∙◌, subst,
}
use exfer_honor.Spec.Errors.{Thrown, Result, ok, throw}
use exfer_honor.Ports.Effect.{Eff, pure, raise, ◌>>=◌, try_catch, continue, handled}

abbrev pub rpc_max_attempts : ℕ
rpc_max_attempts = 5

abbrev pub rpc_backoff_ms : ℕ
rpc_backoff_ms = 400

-- What a request that gets an answer brings: a status outside 200 to 299, a body that is no JSON, an
-- envelope with an `error` member, or a result.
pub data Response (R : Type 0) : Type 0 where
  http_status : ℕ → Response R
  unreadable : Thrown → Response R
  error_member : Option ℕ → Option Text → Response R
  result : R → Response R

-- How one pass through the `try` ends: with the result, with a `continue` or another throw, after both
-- of which `lastErr` is set, or with a `JsonRpcError`.
pub data Pass (R : Type 0) : Type 0 where
  returned : R → Pass R
  continued : Thrown → Pass R
  failed : Thrown → Pass R
  rpc_error : Thrown → Pass R

-- The number and the names in the messages are left out.
abbrev pub http_error : Thrown
http_error = Thrown.plain_error none (codes "JSON-RPC HTTP")

abbrev message_or_default : Option Text → Text
message_or_default none = codes "JSON-RPC error from"
message_or_default (some message) = message

unfoldable pub read_response : {R : Type 0} → ℕ → Response R → Pass R
read_response attempt (Response.http_status status) =
    if leb 500 status && ltb attempt rpc_max_attempts
    then Pass.continued http_error
    else Pass.failed http_error
read_response attempt (Response.unreadable e) = Pass.failed e
read_response attempt (Response.error_member code message) =
    Pass.rpc_error (Thrown.plain_error code (message_or_default message))
read_response attempt (Response.result r) = Pass.returned r

abbrev pub last_error : Option Thrown → Thrown
last_error none = Thrown.plain_error none (codes "JSON-RPC call failed")
last_error (some e) = e

module _ {W R : Type 0} (fetch : Eff W (Response R)) (sleep : ℕ → W → W) where
  -- The body of the `try`; a throw of `fetch` is no `JsonRpcError`.
  abbrev pub pass : ℕ → Eff W (Pass R)
  pass attempt =
      try_catch (do response ← fetch; pure (read_response attempt response))
        (λ e. pure (Pass.failed e))

  abbrev pub backed_off : ℕ → W → W
  backed_off attempt w = sleep (rpc_backoff_ms * attempt) w

  -- What follows a pass: the end of the call, or the next attempt.
  unfoldable pub after_pass : (Thrown → Eff W R) → ℕ → Pass R → Eff W R
  after_pass next attempt (Pass.returned r) w = pure r w
  after_pass next attempt (Pass.rpc_error e) w = raise e w
  after_pass next attempt (Pass.continued e) w = next e (backed_off attempt w)
  after_pass next attempt (Pass.failed e) w =
      next e (if ltb attempt rpc_max_attempts then backed_off attempt w else w)

  -- The loop, with the number of attempts that are left, the number of this one and `lastErr`.
  unfoldable pub call_from : ℕ → ℕ → Option Thrown → Eff W R
  unfolding read_response after_pass
  call_from zero attempt last = raise (last_error last)
  call_from (suc left) attempt last =
      let next : Thrown → Eff W R = λ e. call_from left (suc attempt) (some e) in
      pass attempt >>= after_pass next attempt

  unfoldable pub call : Eff W R
  unfolding call_from
  call = call_from rpc_max_attempts 1 none
