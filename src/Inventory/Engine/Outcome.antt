-- ===== src/Inventory/Engine/Outcome.antt =====
-- The report of a run of internal/inventory/engine.go.
use it_portal_agent.Prelude.{
  ℕ, ◌≡◌, refl, ◌∙◌, true, false, Option, none, some, List, [], ◌∷◌, ◌+◌, ap, inl, inr, Bool-cases,
  Bool, ◌-◌, sym,
}
use it_portal_agent.Bootstrap.Saving.{put_keeps}
use it_portal_agent.FloatingPoint.{Floats}
use it_portal_agent.Heartbeat.{Outside}
use it_portal_agent.Inventory.Engine.{
  Run, fail, conclude_run, upload_snapshot, submit_snapshot, compare_snapshot, named,
  process_snapshot, collect_snapshot, run_registered, run_once, health,
}
use it_portal_agent.Inventory.Engine.Stored.{
  persist_success_keeps, persist_failure_keeps, persist_changes_keeps, persist_snapshot-stored,
  persist_failure-stored, persist_success-stored, persist_snapshot-IsSilent,
  persist_failure-IsSilent, persist_sent-IsSilent,
}
use it_portal_agent.Inventory.Identity.{Tools, fingerprint-IsPlain}
use it_portal_agent.Inventory.Types.{Hardware, HardwareChange, Payload, Report}
use it_portal_agent.Storage.{get, text_or_empty, value_of}
use it_portal_agent.Storage.Effects.{get-IsPlain, get-IsQuiet}
use it_portal_agent.Storage.Settings.{get_lem}
use it_portal_agent.Sync
use it_portal_agent.Sync.{Delivery, flush, send_json}
use it_portal_agent.Sync.Accepted.{accepted_bodies}
use it_portal_agent.Sync.Fate.{Fate, delivered, kept, refused, send_json-Fate}
use it_portal_agent.Sync.Handed.{
  IsSilent-trans, IsWaiting-silent, IsEnqueued-IsWaiting, Fate-config, Fate-after, value_kept,
  flush-config,
}
use it_portal_agent.Text.{Text, text_eq, text_eq_iff}
use it_portal_agent.World.{
  answer_of_result, result, Err, is_queued, result-IsPlain, Result, ok, err, IsPlain,
  annotate-IsPlain, observe_result, Env, Context, World, is_done, observe, catch, next,
}
use it_portal_agent.Inventory.Engine.Readings.{health-ok, health-config}
use it_portal_agent.Inventory.Engine.Reported.{
  last_fingerprint, IsTaken, IsMarshalled, sent, skipped, queued, failed, stopped, IsConcluded,
  fingerprint-IsTaken,
}

module _ {F : Type 0} (fl : Floats F) (tools : Tools F) (out : Outside F) (env : Env)
    (sound : (n : ℕ) → env.statement_error n ≡ none) where
  module _ (e : Sync.Engine) (ctx : Context) (old : Option Text) (done : Bool) where
    abbrev IsFine : Result Run × World → Type 0
    IsFine = IsConcluded fl tools env e ctx old done

    fail-IsConcluded :
        (started : ℕ) (x : Err) (w : World)
        → is_queued x ≡ false
        → last_fingerprint w ≡ old
        → IsFine (fail fl tools out env started x w)
    unfolding fail
    fail-IsConcluded started x w h k =
        failed refl h (persist_failure-stored fl tools out env sound x _ _)
          (persist_failure_keeps fl tools out env x _ _ ∙ k)

    conclude_run-IsConcluded :
        (started : ℕ) (h : Hardware F) (changes : List HardwareChange) (r : Report) (payload : Text)
        (outcome : Result Delivery) (v w : World)
        → IsMarshalled fl tools env e ctx payload r.fingerprint
        → Fate env e "inventory" payload true v outcome w
        → last_fingerprint w ≡ old
        → IsFine (conclude_run fl tools out env started h changes r outcome w)
    unfolding conclude_run
    conclude_run-IsConcluded started h changes r payload (err x) v w m (kept on q bodies n) k =
        rw q (
          queued payload m
            (IsWaiting-silent
              (IsSilent-trans (persist_snapshot-IsSilent fl tools out env h r.fingerprint w)
                (persist_failure-IsSilent fl tools out env x _ _))
              (IsEnqueued-IsWaiting env n))
            refl refl q
            (persist_failure_keeps fl tools out env x _ _
              ∙ persist_snapshot-stored fl tools out env sound h r.fingerprint w)
            (persist_failure-stored fl tools out env sound x _ _))
    conclude_run-IsConcluded started h changes r payload (err x) v w m (refused q bodies same) k =
        rw q (
          failed refl q (persist_failure-stored fl tools out env sound x _ _)
            (persist_failure_keeps fl tools out env x _ _ ∙ k))
    conclude_run-IsConcluded started h changes r payload (ok d) v w m (delivered bodies same) k =
        let final : Report = record r { result = "SENT"; duration = env.now w.tick - started } in
        sent payload m
          (record {
            before = accepted_bodies env v.events;
            accepted =
                ap (accepted_bodies env)
                  (persist_sent-IsSilent fl tools out env h changes final (next w)).events
                ∙ bodies;
          })
          refl
          (persist_success_keeps fl tools out env _ _
            ∙ persist_changes_keeps fl tools out env h changes r.fingerprint _
            ∙ persist_snapshot-stored fl tools out env sound h r.fingerprint (next w))
          (persist_success-stored fl tools out env sound _ _)

    upload_snapshot-IsConcluded :
        (started collecting : ℕ) (p : Payload F) (encoded : Result Text) (w : World)
        → IsPlain encoded
        → encoded ≡ result (tools.marshal_payload p)
        → IsTaken fl tools env e ctx p.hardware p.fingerprint
        → last_fingerprint w ≡ old
        → IsFine (upload_snapshot fl tools out env e ctx started collecting p encoded w)
    unfolding upload_snapshot
    upload_snapshot-IsConcluded started collecting p (err x) w h q t k =
        fail-IsConcluded started _ w h k
    upload_snapshot-IsConcluded started collecting p (ok encoded) w h q t k =
        let fate = send_json-Fate env e ctx "/api/agent/inventory" "inventory" encoded (next w) in
        let sent_world : World =
          (send_json env e ctx "/api/agent/inventory" "inventory" (ok encoded) (next w)).1 in
        rw (sym q) (
          conclude_run-IsConcluded started p.hardware p.changes _ encoded _ (next w) _
            (record { p = p; encoded = q; fingerprint = refl; taken = t })
            (Fate-after env (Fate-after env fate))
            (value_kept (next w) sent_world "inventory_last_fingerprint" (Fate-config env fate) k))

    module _ (same : Discrete F) (version : Text) where
      submit_snapshot-IsConcluded :
          (started collecting : ℕ) (uuid hostname : Text) (h : Hardware F) (fp : Text) (w : World)
          → IsTaken fl tools env e ctx h fp
          → last_fingerprint w ≡ old
          → IsFine (
              submit_snapshot fl tools out env same version e ctx started collecting uuid hostname h
                fp w)
      unfolding submit_snapshot
      submit_snapshot-IsConcluded started collecting uuid hostname h fp w t k =
          let v : World = (get env "inventory_last_hardware" w).1 in
          rw (health-ok fl tools out env h v).1 (
            upload_snapshot-IsConcluded started collecting _ _ _ (result-IsPlain _) refl t (
              value_kept w (health fl tools out env h v).1 "inventory_last_fingerprint"
                (health-config fl tools out env h v
                  ∙ (get-IsQuiet env "inventory_last_hardware" w).same.config)
                k))

      compare_snapshot-IsConcluded :
          (started collecting : ℕ) (uuid hostname : Text) (h : Hardware F) (fp : Result Text)
          (w : World)
          → IsPlain fp
          → ((t : Text) → fp ≡ ok t → IsTaken fl tools env e ctx h t)
          → last_fingerprint w ≡ old
          → IsFine (
              compare_snapshot fl tools out env same version e ctx started collecting uuid hostname
                h fp w)
      unfolding compare_snapshot
      compare_snapshot-IsConcluded started collecting uuid hostname h (err x) w p t k =
          fail-IsConcluded started x w p k
      compare_snapshot-IsConcluded started collecting uuid hostname h (ok fp) w p t k =
          let last : Text = text_or_empty (ok (value_of w "inventory_last_fingerprint")) in
          elim (Bool-cases (text_eq last fp)) [
            | inl q ↦
                rw (get_lem env "inventory_last_fingerprint" w, catch, sound w.tick, q)
                  (skipped h (t fp refl) refl
                    (ap (λ v. text_or_empty (ok v))
                        (put_keeps env "inventory_last_checked" "inventory_last_fingerprint" _ _
                          refl)
                      ∙ (text_eq_iff last fp).0 q)
                    refl
                    (put_keeps env "inventory_last_checked" "inventory_last_fingerprint" _ _ refl
                      ∙ k))
            | inr q ↦
                rw (get_lem env "inventory_last_fingerprint" w, catch, sound w.tick, q)
                  (submit_snapshot-IsConcluded started collecting uuid hostname h fp (next w)
                    (t fp refl) k)
          ]

      process_snapshot-IsConcluded :
          (started collect_started moment : ℕ) (uuid hostname : Text) (found : Result (Hardware F))
          (w : World)
          → IsPlain found
          → found ≡ result (tools.collect ctx moment)
          → last_fingerprint w ≡ old
          → IsFine (
              process_snapshot fl tools out env same version e ctx started collect_started uuid
                hostname found w)
      unfolding process_snapshot
      process_snapshot-IsConcluded started collect_started moment uuid hostname (err x) w h q k =
          fail-IsConcluded started x w h k
      process_snapshot-IsConcluded started collect_started moment uuid hostname (ok found) w h q k =
          compare_snapshot-IsConcluded started _ uuid hostname (named hostname found) _ _
            (fingerprint-IsPlain fl tools env (named hostname found))
            (λ t.
              fingerprint-IsTaken fl tools env e ctx (named hostname found) t found hostname moment
                (answer_of_result (tools.collect ctx moment) found (sym q)) refl)
            k

      collect_snapshot-IsConcluded :
          (started : ℕ) (uuid : Text) (hostname : Result Text) (w : World)
          → IsPlain hostname
          → last_fingerprint w ≡ old
          → IsFine (collect_snapshot fl tools out env same version e ctx started uuid hostname w)
      unfolding collect_snapshot
      collect_snapshot-IsConcluded started uuid (err x) w h k = fail-IsConcluded started x w h k
      collect_snapshot-IsConcluded started uuid (ok hostname) w h k =
          process_snapshot-IsConcluded started _ (w.tick + 1) uuid hostname _ _
            (result-IsPlain (tools.collect ctx (w.tick + 1))) refl k

      run_registered-IsConcluded :
          (started : ℕ) (uuid : Result (Option Text)) (w : World)
          → IsPlain uuid
          → last_fingerprint w ≡ old
          → IsFine (run_registered fl tools out env same version e ctx started uuid w)
      unfolding run_registered
      run_registered-IsConcluded started (err x) w h k = fail-IsConcluded started x w h k
      run_registered-IsConcluded started (ok none) w h k = fail-IsConcluded started _ w refl k
      run_registered-IsConcluded started (ok (some [])) w h k = fail-IsConcluded started _ w refl k
      run_registered-IsConcluded started (ok (some (b ∷ t))) w h k =
          collect_snapshot-IsConcluded started (b ∷ t) _ _
            (annotate-IsPlain "read hostname" (observe_result env.hostname) w
              (result-IsPlain (env.hostname w.tick)))
            k

  -- With a database that works, `RunOnce` returns a report that is as it says, whatever the network
  -- and the collector do. Behind SENT the last body that the Portal accepted is that of a payload with a
  -- snapshot that was collected and with its fingerprint, the hash of its normal form; behind QUEUED
  -- this payload is the last row of the queue; behind both the fingerprint is then the stored one.
  -- Behind SKIPPED it was stored before. Behind FAILED the stored fingerprint stays as it was. The
  -- stored error is empty behind SENT and the message of the returned error behind QUEUED, where that is
  -- `ErrQueued`, and FAILED, where it is another. Without a result is only the report of a run whose
  -- context was done at its start.
  pub run_once-IsReport :
      (same : Discrete F) (version : Text) (e : Sync.Engine) (ctx : Context) (w : World)
      → IsConcluded fl tools env e ctx
          (last_fingerprint w)
          (ctx (w.tick + 1))
          (run_once fl tools out env same version e ctx w)
  unfolding run_once
  run_once-IsReport same version e ctx w = elim (Bool-cases (ctx (w.tick + 1))) [
    | inl d ↦ rw (d, is_done, observe) (stopped refl refl refl refl)
    | inr d ↦
        let u : World = next (next w) in
        let v : World = (flush env e ctx u).1 in
        rw (d, is_done, observe)
          (run_registered-IsConcluded e ctx (last_fingerprint w) false same version _
            (get env "agent_uuid" v).0 (get env "agent_uuid" v).1 (get-IsPlain env "agent_uuid" v)
            (value_kept u (get env "agent_uuid" v).1 "inventory_last_fingerprint"
              ((get-IsQuiet env "agent_uuid" v).same.config ∙ flush-config env e ctx u) refl))
  ]
