-- ===== src/Inventory/Engine/Unchanged.antt =====
-- A machine that has not changed is not sent again: the reason for the fingerprint of
-- internal/inventory/engine.go.
use it_portal_agent.Prelude.{ℕ, ◌+◌, String, ◌≡◌, ◌≢◌, refl, sym, ◌∙◌, false, none, some, [], ◌∷◌}
use it_portal_agent.FloatingPoint.{Floats}
use it_portal_agent.Heartbeat.{Outside}
use it_portal_agent.Inventory.Engine.{
  Run, named, compare_snapshot, process_snapshot, collect_snapshot, run_registered, run_once,
}
use it_portal_agent.Inventory.Identity.{Tools, fingerprint}
use it_portal_agent.Inventory.Identity.Stability.{SameMachine, IsDistinct, fingerprint-SameMachine}
use it_portal_agent.Inventory.Types.{Hardware, Report}
use it_portal_agent.Storage.{put, statement, value_of}
use it_portal_agent.Storage.Settings.{get_lem}
use it_portal_agent.Sync
use it_portal_agent.Sync.{flush}
use it_portal_agent.Sync.Fifo.{flush-IsPass, IsRouted}
use it_portal_agent.Storage.Queue.{IsQueue}
use it_portal_agent.Text.{Text, text_eq_iff}
use it_portal_agent.World.{answer, Result, ok, Env, Context, World, is_done, observe, catch, next}

-- The run skipped the machine, and since `v` it has sent and queued nothing.
pub record IsSkipped (v : World) (out : Result Run × World) : Type 0 where
  pub report : Report
  pub returns : out.0 ≡ ok (report, none)
  pub result : report.result ≡ "SKIPPED"
  pub queue : out.1.queue ≡ v.queue
  pub events : out.1.events ≡ v.events
  pub history : out.1.history ≡ v.history

repack :
    (v w : World) (out : Result Run × World)
    → w.queue ≡ v.queue
    → w.events ≡ v.events
    → w.history ≡ v.history
    → IsSkipped w out
    → IsSkipped v out
repack v w out q e h s = record {
  report = s.report;
  returns = s.returns;
  result = s.result;
  queue = s.queue ∙ q;
  events = s.events ∙ e;
  history = s.history ∙ h;
}

module _ {F : Type 0} (fl : Floats F) (tools : Tools F) (out : Outside F) (env : Env)
    (same : Discrete F) (version : Text) (sound : (n : ℕ) → env.statement_error n ≡ none) where
  -- `Put` writes the table `config` alone.
  put_keeps_others :
      (key : String) (value : Text) (w : World)
      → ((put env key value w).1.queue ≡ w.queue)
        × ((put env key value w).1.events ≡ w.events)
        × ((put env key value w).1.history ≡ w.history)
  unfolding put
  put_keeps_others key value w = rw (sound w.tick, statement) (refl, refl, refl)

  compare_snapshot-IsSkipped :
      (e : Sync.Engine) (ctx : Context) (started collecting : ℕ) (uuid hostname : Text)
      (h : Hardware F) (fp : Text) (w : World)
      → value_of w "inventory_last_fingerprint" ≡ some fp
      → IsSkipped w (
          compare_snapshot fl tools out env same version e ctx started collecting uuid hostname h
            (ok fp)
            w)
  unfolding compare_snapshot
  compare_snapshot-IsSkipped e ctx started collecting uuid hostname h fp w last =
      let others = put_keeps_others "inventory_last_checked" _ (next (next (next w))) in
      rw
        (
          get_lem env "inventory_last_fingerprint" w,
          catch,
          sound w.tick,
          last,
          (text_eq_iff fp fp).1 refl,
        )
        (record {
          report = _;
          returns = refl;
          result = refl;
          queue = others.0;
          events = others.1;
          history = others.2;
        })

  collect_snapshot-IsSkipped :
      (e : Sync.Engine) (ctx : Context) (started : ℕ) (uuid hostname : Text) (found : Hardware F)
      (fp : Text) (w : World)
      → ((n : ℕ) → tools.collect ctx n ≡ answer found)
      → value_of w "inventory_last_fingerprint" ≡ some fp
      → fingerprint fl tools env (named hostname found) ≡ ok fp
      → IsSkipped w
          (collect_snapshot fl tools out env same version e ctx started uuid (ok hostname) w)
  unfolding collect_snapshot process_snapshot
  collect_snapshot-IsSkipped e ctx started uuid hostname found fp w collected last hashed =
      let v : World = next (next (next w)) in
      rw (collected (w.tick + 1), observe, hashed)
        (repack w v _ refl refl refl (
          compare_snapshot-IsSkipped e ctx started _ uuid hostname (named hostname found) fp v
            last))

  -- A registered agent with a database that works and a queue in order, whose last snapshot was stored
  -- with its fingerprint, skips every later snapshot of the same machine: behind the pass of `Flush`
  -- with which a run starts, it sends nothing, queues nothing and adds nothing to the history.
  pub run_once-IsSkipped :
      (e : Sync.Engine) (ctx : Context) (w : World) (last found : Hardware F)
      (uuid hostname fp : Text)
      → ctx (w.tick + 1) ≡ false
      → IsQueue w.queue
      → IsRouted w.queue
      → value_of w "agent_uuid" ≡ some uuid
      → uuid ≢ []
      → ((n : ℕ) → env.hostname n ≡ answer hostname)
      → ((n : ℕ) → tools.collect ctx n ≡ answer found)
      → value_of w "inventory_last_fingerprint" ≡ some fp
      → fingerprint fl tools env last ≡ ok fp
      → SameMachine last (named hostname found)
      → IsDistinct fl tools last
      → IsSkipped
          (flush env e ctx (next (next w))).1
          (run_once fl tools out env same version e ctx w)
  unfolding run_once run_registered
  run_once-IsSkipped e ctx w last found [] hostname fp alive queue routed registered present host
        collected stored hashed machine distinct =
      absurd (present refl)
  run_once-IsSkipped e ctx w last found (b ∷ uuid) hostname fp alive queue routed registered present
        host collected stored hashed machine distinct =
      let v : World = (flush env e ctx (next (next w))).1 in
      let config : v.config ≡ w.config =
        (flush-IsPass env e ctx (next (next w)) queue routed).config in
      let here : value_of v "agent_uuid" ≡ some (b ∷ uuid) = rw config registered in
      rw
        (
          alive,
          is_done,
          observe,
          get_lem env "agent_uuid" v,
          catch,
          sound v.tick,
          here,
          host (v.tick + 1),
        )
        (repack v (next (next v)) _ refl refl refl (
          collect_snapshot-IsSkipped e ctx _ (b ∷ uuid) hostname found fp (next (next v)) collected
            (rw config stored)
            (sym (fingerprint-SameMachine fl tools env last (named hostname found) machine distinct)
              ∙ hashed)))
