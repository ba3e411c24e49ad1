-- ===== src/Inventory/Persistence.antt =====
-- internal/inventory/engine.go: what a run of the hardware inventory stores.
use it_portal_agent.Prelude.{
  ◌-◌, ◌/◌, ◌^◌, String, Option, none, some, List, [], ◌∷◌, ◌++◌, drop, ltb, length, if◌then◌else◌,
}
use it_portal_agent.FloatingPoint.{Floats}
use it_portal_agent.Heartbeat.{Outside}
use it_portal_agent.Inventory.Identity.{Tools}
use it_portal_agent.Inventory.Types.{Hardware, HardwareChange, HistoryEvent, Report}
use it_portal_agent.Storage.{get, put, record_inventory_history}
use it_portal_agent.Text.{Text, is_empty}
use it_portal_agent.Text.Numbers.{print_decimal}
use it_portal_agent.World.{
  Err, message, Reply, answer, failure, Result, ok, err, Env, Action, ◌>>=◌, ◌>>◌, pure, catch,
  ignore, observe,
}

module _ {F : Type 0} (fl : Floats F) (tools : Tools F) where
  -- The snapshot that was stored, where it is there and can be decoded.
  unfoldable pub previous_hardware : Text → Option (Hardware F)
  previous_hardware value = if is_empty value then none else tools.unmarshal_hardware value

  -- The timeline that was stored.
  unfoldable pub stored_timeline : Result (Option Text) → List HistoryEvent
  stored_timeline (err e) = []
  stored_timeline (ok none) = []
  stored_timeline (ok (some value)) = tools.unmarshal_timeline value

  -- The event goes behind the timeline; the last fifty are kept.
  unfoldable pub extend_timeline : List HistoryEvent → HistoryEvent → List HistoryEvent
  extend_timeline timeline event =
      let longer = timeline ++ (event ∷ []) in
      if ltb 50 (length longer) then drop (length longer - 50) longer else longer

  module _ (out : Outside F) (env : Env) where
    -- Stores a text, where its encoding succeeds.
    unfoldable pub put_encoded : String → Reply Text → Action (Unit {0})
    put_encoded key (failure t) = pure tt
    put_encoded key (answer value) = put env key value

    -- `persistSuccess`
    unfoldable pub persist_success : Report → Action (Unit {0})
    persist_success r = do
      now ← observe (λ n. env.format_nano (env.now n))
      ignore (put env "inventory_last_success" now)
      ignore (put env "inventory_last_duration_ms" (print_decimal (r.duration / 10 ^ 6)))
      ignore (put env "inventory_last_payload_size" (print_decimal r.payload_size))
      ignore (put env "inventory_last_error" [])

    -- `persistFailure`
    unfoldable pub persist_failure : Err → Report → Action (Unit {0})
    persist_failure e r = do
      ignore (put env "inventory_last_duration_ms" (print_decimal (r.duration / 10 ^ 6)))
      ignore (put env "inventory_last_payload_size" (print_decimal r.payload_size))
      ignore (put env "inventory_last_error" (message e))

    -- `persistSnapshot`
    unfoldable pub persist_snapshot : Hardware F → Text → Action (Unit {0})
    persist_snapshot h fp = do
      ignore (put_encoded "inventory_last_hardware" (tools.marshal_hardware h))
      ignore (put env "inventory_last_fingerprint" fp)

    -- `persistHistory` behind the encodings.
    unfoldable pub record_history : Text → Reply Text → Reply Text → Action (Unit {0})
    record_history fp (failure t) changes = pure tt
    record_history fp (answer payload) (failure t) = pure tt
    record_history fp (answer payload) (answer changes) =
        record_inventory_history env fp payload changes

    -- `persistHistory`
    unfoldable pub persist_history : Hardware F → Text → List HardwareChange → Action (Unit {0})
    persist_history h fp changes =
        ignore (record_history fp (tools.marshal_hardware h) (tools.marshal_changes changes))

    -- `persistTimeline`
    unfoldable pub persist_timeline : List HardwareChange → Text → Action (Unit {0})
    persist_timeline changes fp = do
      now ← observe env.now
      let event : HistoryEvent = record { timestamp = now; fingerprint = fp; changes = changes }
      value ← catch (get env "inventory_change_timeline")
      ignore (
          put_encoded "inventory_change_timeline"
            (tools.marshal_timeline (extend_timeline (stored_timeline value) event)))
      ignore (put_encoded "inventory_last_changes" (tools.marshal_changes changes))
