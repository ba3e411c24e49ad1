-- ===== src/Inventory/Engine/Stored.antt =====
-- What the persist functions of internal/inventory/engine.go leave in the table `config`.
use it_portal_agent.Prelude.{
  ℕ, ◌+◌, String, ◌≡◌, refl, ◌∙◌, false, none, some, List, [], str_eq, inl, inr, Option-cases,
}
use it_portal_agent.Bootstrap.Saving.{put_keeps}
use it_portal_agent.Inventory.Persistence.{
  put_encoded, persist_success, persist_failure, persist_snapshot, persist_history, record_history,
  persist_timeline,
}
use it_portal_agent.Inventory.Identity.{Tools}
use it_portal_agent.FloatingPoint.{Floats}
use it_portal_agent.Heartbeat.{Outside}
use it_portal_agent.Inventory.Types.{Hardware, HardwareChange, Report}
use it_portal_agent.Storage.{put, record_inventory_history, statement, value_of}
use it_portal_agent.Storage.Settings.{get_lem, value_of-put_self}
use it_portal_agent.Storage.Effects.{get-IsQuiet}
use it_portal_agent.Sync.Handed.{IsSilent, IsSilent-refl, IsSilent-trans, put-IsSilent}
use it_portal_agent.Text.{Text}
use it_portal_agent.World.{Err, message, Reply, answer, failure, Env, World, next}

module _ {F : Type 0} (fl : Floats F) (tools : Tools F) (out : Outside F) (env : Env) where
  pub put_encoded_keeps :
      (key j : String) (r : Reply Text) (w : World)
      → str_eq j key ≡ false
      → value_of (put_encoded fl tools out env key r w).1 j ≡ value_of w j
  unfolding put_encoded
  put_encoded_keeps key j (failure t) w h = refl
  put_encoded_keeps key j (answer value) w h = put_keeps env key j value w h

  record_inventory_history_keeps :
      (fp payload changes : Text) (w : World)
      → (record_inventory_history env fp payload changes w).1.config ≡ w.config
  unfolding record_inventory_history
  record_inventory_history_keeps fp payload changes w =
      elim (Option-cases (env.statement_error (w.tick + 1))) [
        | inl e ↦ rw (e, statement) refl
        | inr (t, e) ↦ rw (e, statement) refl
      ]

  record_history_keeps :
      (j : String) (fp : Text) (p c : Reply Text) (w : World)
      → value_of (record_history fl tools out env fp p c w).1 j ≡ value_of w j
  unfolding record_history
  record_history_keeps j fp (failure t) c w = refl
  record_history_keeps j fp (answer p) (failure t) w = refl
  record_history_keeps j fp (answer p) (answer c) w =
      rw (record_inventory_history_keeps fp p c w) refl

  persist_timeline_keeps :
      (j : String) (changes : List HardwareChange) (fp : Text) (w : World)
      → str_eq j "inventory_change_timeline" ≡ false
      → str_eq j "inventory_last_changes" ≡ false
      → value_of (persist_timeline fl tools out env changes fp w).1 j ≡ value_of w j
  unfolding persist_timeline
  persist_timeline_keeps j changes fp w h k =
      put_encoded_keeps "inventory_last_changes" j (tools.marshal_changes changes) _ k
      ∙ put_encoded_keeps "inventory_change_timeline" j _ _ h
      ∙ rw (get_lem env "inventory_change_timeline" (next w)) refl

  pub persist_success_keeps :
      (r : Report) (w : World)
      → value_of (persist_success fl tools out env r w).1 "inventory_last_fingerprint"
        ≡ value_of w "inventory_last_fingerprint"
  unfolding persist_success
  persist_success_keeps r w =
      put_keeps env "inventory_last_error" "inventory_last_fingerprint" _ _ refl
      ∙ put_keeps env "inventory_last_payload_size" "inventory_last_fingerprint" _ _ refl
      ∙ put_keeps env "inventory_last_duration_ms" "inventory_last_fingerprint" _ _ refl
      ∙ put_keeps env "inventory_last_success" "inventory_last_fingerprint" _ _ refl

  pub persist_failure_keeps :
      (e : Err) (r : Report) (w : World)
      → value_of (persist_failure fl tools out env e r w).1 "inventory_last_fingerprint"
        ≡ value_of w "inventory_last_fingerprint"
  unfolding persist_failure
  persist_failure_keeps e r w =
      put_keeps env "inventory_last_error" "inventory_last_fingerprint" _ _ refl
      ∙ put_keeps env "inventory_last_payload_size" "inventory_last_fingerprint" _ _ refl
      ∙ put_keeps env "inventory_last_duration_ms" "inventory_last_fingerprint" _ _ refl

  -- The history and the timeline keep the fingerprint.
  pub persist_changes_keeps :
      (h : Hardware F) (changes : List HardwareChange) (fp : Text) (w : World)
      → value_of
          (persist_timeline fl tools out env changes fp
            (persist_history fl tools out env h fp changes w).1).1
          "inventory_last_fingerprint"
        ≡ value_of w "inventory_last_fingerprint"
  unfolding persist_history
  persist_changes_keeps h changes fp w =
      persist_timeline_keeps "inventory_last_fingerprint" changes fp _ refl refl
      ∙ record_history_keeps "inventory_last_fingerprint" fp (tools.marshal_hardware h)
          (tools.marshal_changes changes) w

  put_encoded-IsSilent :
      (key : String) (r : Reply Text) (w : World)
      → IsSilent w (put_encoded fl tools out env key r w).1
  unfolding put_encoded
  put_encoded-IsSilent key (failure t) w = IsSilent-refl w
  put_encoded-IsSilent key (answer value) w = put-IsSilent env key value w

  record_history-IsSilent :
      (fp : Text) (p c : Reply Text) (w : World)
      → IsSilent w (record_history fl tools out env fp p c w).1
  unfolding record_history record_inventory_history
  record_history-IsSilent fp (failure t) c w = IsSilent-refl w
  record_history-IsSilent fp (answer p) (failure t) w = IsSilent-refl w
  record_history-IsSilent fp (answer p) (answer c) w =
      elim (Option-cases (env.statement_error (w.tick + 1))) [
        | inl e ↦ rw (e, statement) (record { queue = refl; events = refl })
        | inr (t, e) ↦ rw (e, statement) (record { queue = refl; events = refl })
      ]

  pub persist_snapshot-IsSilent :
      (h : Hardware F) (fp : Text) (w : World)
      → IsSilent w (persist_snapshot fl tools out env h fp w).1
  unfolding persist_snapshot
  persist_snapshot-IsSilent h fp w =
      IsSilent-trans (put_encoded-IsSilent "inventory_last_hardware" (tools.marshal_hardware h) w)
        (put-IsSilent env "inventory_last_fingerprint" fp _)

  pub persist_failure-IsSilent :
      (e : Err) (r : Report) (w : World) → IsSilent w (persist_failure fl tools out env e r w).1
  unfolding persist_failure
  persist_failure-IsSilent e r w =
      IsSilent-trans (put-IsSilent env "inventory_last_duration_ms" _ w) (
        IsSilent-trans (put-IsSilent env "inventory_last_payload_size" _ _)
          (put-IsSilent env "inventory_last_error" _ _))

  persist_success-IsSilent :
      (r : Report) (w : World) → IsSilent w (persist_success fl tools out env r w).1
  unfolding persist_success
  persist_success-IsSilent r w =
      IsSilent-trans (record { queue = refl; events = refl })
        (IsSilent-trans (put-IsSilent env "inventory_last_success" _ (next w)) (
          IsSilent-trans (put-IsSilent env "inventory_last_duration_ms" _ _) (
            IsSilent-trans (put-IsSilent env "inventory_last_payload_size" _ _)
              (put-IsSilent env "inventory_last_error" _ _))))

  persist_timeline-IsSilent :
      (changes : List HardwareChange) (fp : Text) (w : World)
      → IsSilent w (persist_timeline fl tools out env changes fp w).1
  unfolding persist_timeline
  persist_timeline-IsSilent changes fp w =
      let read = get-IsQuiet env "inventory_change_timeline" (next w) in
      IsSilent-trans (record { queue = read.same.queue; events = read.events })
        (IsSilent-trans (put_encoded-IsSilent "inventory_change_timeline" _ _)
          (put_encoded-IsSilent "inventory_last_changes" (tools.marshal_changes changes) _))

  -- What is stored behind a snapshot that was sent.
  pub persist_sent-IsSilent :
      (h : Hardware F) (changes : List HardwareChange) (r : Report) (w : World)
      → IsSilent w
          (persist_success fl tools out env r
            (persist_timeline fl tools out env changes r.fingerprint
              (persist_history fl tools out env h r.fingerprint changes
                (persist_snapshot fl tools out env h r.fingerprint w).1).1).1).1
  unfolding persist_history
  persist_sent-IsSilent h changes r w =
      IsSilent-trans (persist_snapshot-IsSilent h r.fingerprint w) (
        IsSilent-trans
          (record_history-IsSilent r.fingerprint (tools.marshal_hardware h)
            (tools.marshal_changes changes) _)
          (IsSilent-trans (persist_timeline-IsSilent changes r.fingerprint _)
            (persist_success-IsSilent r _)))

  module _ (sound : (n : ℕ) → env.statement_error n ≡ none) where
    pub stored :
        (key : String) (value : Text) (w : World)
        → value_of (put env key value w).1 key ≡ some value
    stored key value w =
        value_of-put_self env key value w (unfold put in rw (sound w.tick, statement) refl)

    pub persist_snapshot-stored :
        (h : Hardware F) (fp : Text) (w : World)
        → value_of (persist_snapshot fl tools out env h fp w).1 "inventory_last_fingerprint"
          ≡ some fp
    unfolding persist_snapshot
    persist_snapshot-stored h fp w = stored "inventory_last_fingerprint" fp _

    pub persist_failure-stored :
        (e : Err) (r : Report) (w : World)
        → value_of (persist_failure fl tools out env e r w).1 "inventory_last_error"
          ≡ some (message e)
    unfolding persist_failure
    persist_failure-stored e r w = stored "inventory_last_error" (message e) _

    pub persist_success-stored :
        (r : Report) (w : World)
        → value_of (persist_success fl tools out env r w).1 "inventory_last_error" ≡ some []
    unfolding persist_success
    persist_success-stored r w = stored "inventory_last_error" [] _
