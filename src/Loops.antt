-- ===== src/Loops.antt =====
-- The endless loops of the engines: `Run` of internal/heartbeat/heartbeat.go,
-- internal/inventory/engine.go and internal/software/engine.go, as many rounds of them as are counted.
pub mod Endless
use it_portal_agent.Prelude.{
  ℕ, zero, suc, ◌*◌, Bool, true, false, Option, none, some, if◌then◌else◌,
}
use it_portal_agent.FloatingPoint.{Floats}
use it_portal_agent.Heartbeat.{Outside, configured_interval, pause, send_heartbeat}
use it_portal_agent.HttpClient.{second, sleep}
use it_portal_agent.Inventory.Engine as HardwareEngine
use it_portal_agent.Inventory.Identity
use it_portal_agent.Software.Engine as SoftwareEngine
use it_portal_agent.Sync.{Engine, Delivery}
use it_portal_agent.Text.{Text}
use it_portal_agent.World.{
  Err, Result, ok, err, Env, Context, World, Action, ◌>>=◌, ◌>>◌, pure, catch, is_done,
}

-- Where a loop stands.
pub data Loop : Type 0 where
  returned : Loop
  going : Loop

abbrev pub go_on : Result Bool × World → (World → Loop × World) → Loop × World
go_on (ok true, w) again = (returned, w)
go_on (ok false, w) again = again w
go_on (err x, w) again = (returned, w)

-- As many as `rounds` rounds of a loop whose body says whether it returns.
unfoldable pub repeat : ℕ → Action Bool → World → Loop × World
repeat zero body w = (going, w)
repeat (suc rounds) body w = go_on (body w) (repeat rounds body)

module _ (env : Env) (ctx : Context) where
  -- The `select` between the end of the context, which makes the loop return, and the timer.
  unfoldable pub wait_for : ℕ → Action Bool
  wait_for delay = do
    done ← is_done ctx
    if done then pure true else (do sleep env delay; pure false)

  -- `err != nil && ctx.Err() != nil`
  unfoldable pub failed_at_end : Option Err → Action Bool
  failed_at_end none = pure false
  failed_at_end (some x) = is_done ctx

  abbrev error_of {ℓ} : {A : Type ℓ} → Result A → Option Err
  error_of (ok a) = none
  error_of (err x) = some x

  module _ {F : Type 0} (fl : Floats F) (out : Outside F) (e : Engine) (version : Text) where
    -- A heartbeat, and whether it ends the loop.
    unfoldable pub beat : Action Bool
    beat = do
      answer ← catch (send_heartbeat fl out env e ctx version)
      failed_at_end (error_of answer)

    -- The body of the heartbeat's loop once it has started.
    unfoldable pub next_beat : Action Bool
    next_beat = do
      interval ← configured_interval fl out env
      stop ← wait_for (pause interval)
      if stop then pure true else beat

    -- `Run` of the heartbeat: the first heartbeat waits for nothing.
    unfoldable pub run_heartbeat : ℕ → World → Loop × World
    run_heartbeat rounds w = go_on (beat w) (repeat rounds next_beat)

    module _ (tools : Identity.Tools F) (same : Discrete F) where
      -- The body of `Run` of the hardware inventory.
      unfoldable pub hardware_round : Action Bool
      hardware_round = do
        answer ← HardwareEngine.run_once fl tools out env same version e ctx
        stop ← failed_at_end answer.1
        if stop then pure true else wait_for (24 * 3600 * second)

      -- `Run` of the hardware inventory.
      unfoldable pub run_hardware : ℕ → World → Loop × World
      run_hardware rounds = repeat rounds hardware_round

  module _ {F : Type 0} (fl : Floats F) (e : Engine) (tools : SoftwareEngine.Tools F) where
    -- The body of `Run` of the software inventory; its timer is set before each round.
    unfoldable pub software_round : Action Bool
    software_round = do
      interval ← SoftwareEngine.interval fl tools env
      stop ← wait_for interval
      if stop
          then pure true
          else (do catch (SoftwareEngine.run_once fl tools env e ctx); pure false)

    -- `Run` of the software inventory.
    unfoldable pub run_software : ℕ → World → Loop × World
    run_software rounds = repeat rounds software_round
