-- ===== src/Loops/Endless.antt =====
-- The engines of the agent run until their context is done.
use it_portal_agent.Prelude.{
  ℕ, zero, suc, ◌≡◌, refl, Bool, true, false, Option, none, some, inl, inr, Option-cases,
}
use it_portal_agent.FloatingPoint.{Floats}
use it_portal_agent.Heartbeat.{Outside, configured_interval}
use it_portal_agent.HttpClient.{sleep}
use it_portal_agent.Inventory.Engine as HardwareEngine
use it_portal_agent.Inventory.Engine.Outcome as HardwareOutcome
use it_portal_agent.Inventory.Engine.Reported as HardwareReported
use it_portal_agent.Inventory.Identity
use it_portal_agent.Software.Engine as SoftwareEngine
use it_portal_agent.Loops.{
  Loop, going, go_on, repeat, wait_for, failed_at_end, beat, next_beat, run_heartbeat,
  hardware_round, run_hardware, software_round, run_software,
}
use it_portal_agent.Storage.{get, value_of}
use it_portal_agent.Storage.Settings.{get_lem}
use it_portal_agent.Sync.{Engine}
use it_portal_agent.Text.{Text}
use it_portal_agent.World.{
  Err, Result, ok, err, err≢ok, Env, Context, World, Action, is_done, observe, catch,
}

go_on-going :
    (out : Result Bool × World) (again : World → Loop × World)
    → out.0 ≡ ok false
    → ((w : World) → (again w).0 ≡ going)
    → (go_on out again).0 ≡ going
go_on-going (ok true, w) again h k = absurd (cc)
go_on-going (ok false, w) again h k = k w
go_on-going (err x, w) again h k = absurd (err≢ok h)

repeat-going :
    (rounds : ℕ) (body : Action Bool)
    → ((w : World) → (body w).0 ≡ ok false)
    → (w : World) → (repeat rounds body w).0 ≡ going
unfolding repeat
repeat-going zero body h w = refl
repeat-going (suc rounds) body h w = go_on-going (body w) _ (h w) (repeat-going rounds body h)

-- A run that was concluded has returned.
run_of :
    {F : Type 0} (fl : Floats F) (tools : Identity.Tools F) (env : Env) (e : Engine) (ctx : Context)
    (old : Option Text) (done : Bool) (out : Result HardwareEngine.Run × World)
    → HardwareReported.IsConcluded fl tools env e ctx old done out
    → (r : HardwareEngine.Run) × (out.0 ≡ ok r)
run_of fl tools env e ctx old done (ok r, w) h = (r, refl)
run_of fl tools env e ctx old done (err x, w) h = absurd h

module _ (env : Env) (ctx : Context) (alive : (n : ℕ) → ctx n ≡ false) where
  wait_for-goes_on : (delay : ℕ) (w : World) → (wait_for env ctx delay w).0 ≡ ok false
  unfolding wait_for sleep
  wait_for-goes_on delay w = rw (alive w.tick, is_done, observe) refl

  failed_at_end-goes_on : (o : Option Err) (w : World) → (failed_at_end env ctx o w).0 ≡ ok false
  unfolding failed_at_end
  failed_at_end-goes_on none w = refl
  failed_at_end-goes_on (some x) w = rw (alive w.tick, is_done, observe) refl

  module _ {F : Type 0} (fl : Floats F) (out : Outside F) (e : Engine) (version : Text) where
    beat-goes_on : (w : World) → (beat env ctx fl out e version w).0 ≡ ok false
    unfolding beat
    beat-goes_on w = failed_at_end-goes_on _ _

    next_beat-goes_on : (w : World) → (next_beat env ctx fl out e version w).0 ≡ ok false
    unfolding next_beat configured_interval
    next_beat-goes_on w =
        rw (wait_for-goes_on _ (get env "portal_configuration" w).1) (beat-goes_on _)

    -- As long as the context is not done, the loop of the heartbeat goes on after any number of rounds,
    -- whatever fails in them.
    pub run_heartbeat-going :
        (rounds : ℕ) (w : World) → (run_heartbeat env ctx fl out e version rounds w).0 ≡ going
    unfolding run_heartbeat
    run_heartbeat-going rounds w =
        go_on-going _ _ (beat-goes_on w)
          (repeat-going rounds (next_beat env ctx fl out e version) next_beat-goes_on)

    module _ (tools : Identity.Tools F) (same : Discrete F)
        (sound : (n : ℕ) → env.statement_error n ≡ none) where
      hardware_round-goes_on :
          (w : World) → (hardware_round env ctx fl out e version tools same w).0 ≡ ok false
      unfolding hardware_round
      hardware_round-goes_on w =
          rw
            ((run_of fl tools env e ctx _ _ _
              (HardwareOutcome.run_once-IsReport fl tools out env sound same version e ctx w)).1)
            (rw (failed_at_end-goes_on _ _) (wait_for-goes_on _ _))

      -- As long as the context is not done, and with a database that works, the loop of the hardware
      -- inventory goes on after any number of rounds, whatever the network and the collector do.
      pub run_hardware-going :
          (rounds : ℕ) (w : World)
          → (run_hardware env ctx fl out e version tools same rounds w).0 ≡ going
      unfolding run_hardware
      run_hardware-going rounds w = repeat-going rounds _ hardware_round-goes_on w

  module _ {F : Type 0} (fl : Floats F) (e : Engine) (tools : SoftwareEngine.Tools F) where
    interval-ok : (w : World) → (n : ℕ) × ((SoftwareEngine.interval fl tools env w).0 ≡ ok n)
    unfolding SoftwareEngine.interval
    interval-ok w = elim (Option-cases (env.statement_error w.tick)) [
      | inl e ↦ elim (Option-cases (value_of w "portal_configuration")) [
        | inl m ↦ rw (get_lem env "portal_configuration" w, catch, e, m) (_, refl)
        | inr (t, m) ↦ rw (get_lem env "portal_configuration" w, catch, e, m) (_, refl)
      ]
      | inr (t, e) ↦ rw (get_lem env "portal_configuration" w, catch, e) (_, refl)
    ]

    software_round-goes_on : (w : World) → (software_round env ctx fl e tools w).0 ≡ ok false
    unfolding software_round
    software_round-goes_on w = rw ((interval-ok w).1) (rw (wait_for-goes_on _ _) refl)

    -- As long as the context is not done, the loop of the software inventory goes on after any number
    -- of rounds, whatever fails in them.
    pub run_software-going :
        (rounds : ℕ) (w : World) → (run_software env ctx fl e tools rounds w).0 ≡ going
    unfolding run_software
    run_software-going rounds w = repeat-going rounds _ software_round-goes_on w
