-- ===== src/App.antt =====
-- internal/app/app.go: the loop that registers the agent when the service starts.
pub mod Retry
pub mod Commands
use it_portal_agent.Prelude.{
  ℕ, Option, none, some, zero, suc, ◌*◌, ltb, if◌then◌else◌, ◌++◌, [], ◌∷◌,
}
use it_portal_agent.HttpClient.{second, sleep}
use it_portal_agent.Text.{text}
use it_portal_agent.World.{
  Result, ok, err, external, Env, Context, World, Action, ◌>>=◌, ◌>>◌, raise, is_done, catch, pure,
}
use it_portal_agent.Bootstrap.{Service, Codec, ensure_registered}

-- The step of the delay, in nanoseconds: twice as long, up to five minutes.
unfoldable pub next_delay : ℕ → ℕ
next_delay delay =
    if ltb delay (300 * second)
    then (let twice = delay * 2 in if ltb (300 * second) twice then 300 * second else twice)
    else delay

-- Where the loop stands: it has returned, or it goes on with the delay.
pub data Outcome : Type 0 where
  returned : Result Service → Outcome
  waiting : ℕ → Outcome

module _ (env : Env) (codec : Codec) (ctx : Context) where
  -- The `select`: the end of the context, or else the delay.
  unfoldable pub wait : ℕ → Action (Unit {0})
  wait delay = do
    done ← is_done ctx
    if done then raise (external (text "context canceled")) else sleep env delay

  -- What the loop does with the answer of `EnsureRegistered`.
  abbrev pub judged : ℕ → Result Service → Action (Option Service)
  judged delay (ok t) = pure (some t)
  judged delay (err e) = do wait delay; pure none

  -- One round of the loop up to the next delay: registered, or `none` behind the pause.
  unfoldable pub round : ℕ → Service → Action (Option Service)
  round delay s = do answer ← catch (ensure_registered env codec s); judged delay answer

  abbrev pub settle : Result (Option Service) → World → (World → Outcome × World) → Outcome × World
  settle (ok (some t)) w again = (returned (ok t), w)
  settle (ok none) w again = again w
  settle (err x) w again = (returned (err x), w)

  -- `bootstrapWithRetry`, as many as `rounds` rounds of it.
  unfoldable pub bootstrap_with_retry : ℕ → ℕ → Service → World → Outcome × World
  bootstrap_with_retry zero delay s w = (waiting delay, w)
  bootstrap_with_retry (suc rounds) delay s w =
      let (r, v) = round delay s w in settle r v (bootstrap_with_retry rounds (next_delay delay) s)
