-- ===== src/HttpClient.antt =====
-- internal/httpclient/client.go: a client that signs every attempt and tries again.
pub mod Attempts
use it_portal_agent.Prelude.{
  ℕ, not, zero, suc, ◌*◌, ◌^◌, Bool, true, Option, none, some, [], ◌∷◌, ◌++◌, ◌==◌, if◌then◌else◌,
}
use it_portal_agent.Security.{sign_request}
use it_portal_agent.Text.{Text, is_empty}
use it_portal_agent.World.{
  result, Err, wrap_number, Result, ok, err, Env, Request, Response, exchanged, slept, World,
  Action, ◌>>=◌, ◌>>◌, pure, raise, next, observe,
}

-- Durations are in nanoseconds; none of the client's is negative.
pub record Options : Type 0 where
  pub timeout : ℕ
  pub retry_delay : ℕ
  pub token : Text
  pub tls_validation : Bool
  pub proxy : Text

-- The client, with the settings of its `http.Client` and `http.Transport`.
pub record Client : Type 0 where
  pub token : Text
  pub retries : ℕ
  pub retry_delay : ℕ
  pub timeout : ℕ
  pub skip_verify : Bool
  pub proxy : Option Text

abbrev pub second : ℕ
second = 10 ^ 9

module _ (env : Env) where
  -- `NewWithOptions`; a proxy that does not parse is left out.
  unfoldable pub new_with_options : Options → Client
  new_with_options o = record {
    token = o.token;
    retries = 3;
    retry_delay = if o.retry_delay == 0 then second else o.retry_delay;
    timeout = if o.timeout == 0 then 30 * second else o.timeout;
    skip_verify = not o.tls_validation;
    proxy =
        if is_empty o.proxy
        then none
        else elim (env.url_error o.proxy) [ none ↦ some o.proxy | some e ↦ none ];
  }

  -- `New`
  unfoldable pub new : ℕ → ℕ → Text → Client
  new timeout retry_delay token = new_with_options (record {
    timeout = timeout;
    retry_delay = retry_delay;
    token = token;
    tls_validation = true;
    proxy = [];
  })

  -- `c.HTTP.Do(request)`: one exchange, which others see.
  unfoldable pub exchange : Request → Action (Result Response)
  exchange r w =
      let answer = result (env.exchange w.tick r) in
      (ok answer, record (next w) { events = w.events ++ (exchanged r answer ∷ []) })

  -- `time.Sleep`
  unfoldable pub sleep : ℕ → Action (Unit {0})
  sleep d w = (ok tt, record w { events = w.events ++ (slept d ∷ []) })

  -- The signature of an attempt, where the client has a token.
  unfoldable pub sign_attempt : Client → Request → Action Request
  sign_attempt c r =
      if is_empty c.token then pure r else do now ← observe env.now; sign_request env r c.token now

  -- One round of the loop up to the answer.
  unfoldable pub attempt : Client → Request → Action (Result Response)
  attempt c r = do signed ← sign_attempt c r; exchange signed

  -- The rounds of the loop from one that as many as `left` may follow.
  unfoldable pub attempts : Client → Request → ℕ → Action Response
  attempts c r zero = do
    answer ← attempt c r
    elim answer [
      | ok response ↦ pure response
      | err e ↦ raise (wrap_number "request failed after " c.retries " retries" e)
    ]
  attempts c r (suc left) =
      let again = attempts c r left in
      do
        answer ← attempt c r
        elim answer [ ok response ↦ pure response | err e ↦ (do sleep c.retry_delay; again) ]

  -- `Do`: the body is read once, and every attempt sends it anew.
  unfoldable pub do_request : Client → Request → Action Response
  do_request c r = attempts c r c.retries
