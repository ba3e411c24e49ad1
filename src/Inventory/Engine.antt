-- ===== src/Inventory/Engine.antt =====
-- internal/inventory/engine.go: one run of the hardware inventory. What it stores is in Persistence.
--
-- Log lines are left out; the loop `Run` is in Loops. The persist functions return nothing, so
-- `ignore` stands where they are called.
pub mod Stored
pub mod Readings
pub mod Reported
pub mod Outcome
pub mod Timeline
pub mod Unchanged
use it_portal_agent.Prelude.{
  ℕ, ◌+◌, ◌-◌, ◌*◌, ◌/◌, ◌^◌, String, Bool, true, false, ◌&&◌, Option, none, some, List, [], ◌∷◌,
  ◌++◌, drop, ltb, leb, length, if◌then◌else◌,
}
use it_portal_agent.FloatingPoint.{Floats}
use it_portal_agent.Heartbeat.{Outside, configured_interval, outlasts}
use it_portal_agent.Inventory.Changes.{diff_hardware, hardware_count, build_asset_link_hints}
use it_portal_agent.Inventory.Health.{calculate_health_v2}
use it_portal_agent.Inventory.Identity.{Tools, fingerprint}
use it_portal_agent.Inventory.Persistence.{
  previous_hardware, persist_success, persist_failure, persist_snapshot, persist_history,
  persist_timeline,
}
use it_portal_agent.Inventory.Types.{
  Hardware, HardwareChange, HealthAssessment, HistoryEvent, Payload, Report,
}
use it_portal_agent.Storage.{get, put, text_or_empty, record_inventory_history}
use it_portal_agent.Sync
use it_portal_agent.Sync.{Delivery, flush, send_json}
use it_portal_agent.Text.{Text, text, text_eq, is_empty}
use it_portal_agent.Text.Numbers.{print_decimal}
use it_portal_agent.World.{
  Err, external, not_registered, is_queued, message, wrap, Reply, answer, failure, result, Result,
  ok, err, Env, Context, Action, ◌>>=◌, ◌>>◌, pure, catch, ignore, observe, observe_result,
  annotate, is_done,
}

-- `Report{}`
abbrev pub no_report : Report
no_report = record {
  collect_duration = 0;
  upload_duration = 0;
  duration = 0;
  payload_size = 0;
  hardware_count = 0;
  changed_items = 0;
  skipped_items = 0;
  fingerprint = [];
  queued = false;
  result = "";
}

-- A report beside the error that is returned with it.
abbrev pub Run : Type 0
Run = Report × Option Err

-- A snapshot without a name takes the one of the host.
abbrev pub named : {F : Type 0} → Text → Hardware F → Hardware F
named hostname h =
    if is_empty h.general.computer_name
    then record h { general = record h.general { computer_name = hostname } }
    else h

module _ {F : Type 0} (fl : Floats F) (tools : Tools F) where
  -- The percentage of the disks that is used, or -1.
  unfoldable pub disk_usage : Hardware F → F
  disk_usage h =
      if ltb 0 h.disk.total_bytes && leb h.disk.free_bytes h.disk.total_bytes
      then fl.times
          (fl.divided (fl.of_nat (h.disk.total_bytes - h.disk.free_bytes))
            (fl.of_nat h.disk.total_bytes))
          (fl.of_nat 100)
      else fl.minus (fl.of_nat 0) (fl.of_nat 1)

  -- The percentage of the memory that is used, or -1.
  unfoldable pub memory_usage : Hardware F → F
  memory_usage h =
      if ltb 0 h.ram.total_bytes then h.ram.usage_percent else fl.minus (fl.of_nat 0) (fl.of_nat 1)

  -- `storedFloat` behind the reading.
  unfoldable pub float_of : Result (Option Text) → F
  float_of (err e) = fl.minus (fl.of_nat 0) (fl.of_nat 1)
  float_of (ok none) = fl.minus (fl.of_nat 0) (fl.of_nat 1)
  float_of (ok (some value)) = elim (tools.scan_float value) [
    | none ↦ fl.minus (fl.of_nat 0) (fl.of_nat 1)
    | some parsed ↦ parsed
  ]

  module _ (out : Outside F) (env : Env) where
    -- `storedFloat`
    unfoldable pub stored_float : String → Action F
    stored_float key = do value ← catch (get env key); pure (float_of value)

    -- `storedHeartbeatStatus` behind the parsing of the time.
    unfoldable pub status_since : Option ℕ → Action Text
    status_since none = pure (text "OFFLINE")
    status_since (some parsed) = do
      now ← observe env.now
      interval ← configured_interval fl out env
      pure (if outlasts (now - parsed) interval then text "OFFLINE" else text "ONLINE")

    -- `storedHeartbeatStatus`
    unfoldable pub stored_heartbeat_status : Action Text
    stored_heartbeat_status = do
      value ← catch (get env "heartbeat_last_success")
      let time : Text = text_or_empty value
      if is_empty time then pure (text "PENDING") else status_since (env.parse_time time)

    -- `health`
    unfoldable pub health : Hardware F → Action (HealthAssessment F)
    health h = do
      cpu ← stored_float "heartbeat_last_cpu"
      status ← stored_heartbeat_status
      latency ← stored_float "heartbeat_last_latency_ms"
      pure (
          calculate_health_v2 fl tools.upper_unicode cpu (memory_usage h) (disk_usage h) status
            latency h.security)

    -- `failure`
    unfoldable pub fail : ℕ → Err → Action Run
    fail started e = do
      ended ← observe env.now
      let r : Report = record no_report { duration = ended - started; result = "FAILED" }
      ignore (persist_failure fl tools out env e r)
      pure (r, some e)

    -- `RunOnce` behind `SendJSON`.
    unfoldable pub conclude_run :
        ℕ → Hardware F → List HardwareChange → Report → Result Delivery → Action Run
    conclude_run started h changes r (err e) =
        if is_queued e
        then (do
          let queued : Report = record r { queued = true; result = "QUEUED" }
          ignore (persist_snapshot fl tools out env h r.fingerprint)
          ignore (persist_failure fl tools out env e queued)
          pure (queued, some e))
        else (do
          let failed : Report = record r { result = "FAILED" }
          ignore (persist_failure fl tools out env e failed)
          pure (failed, some e))
    conclude_run started h changes r (ok d) = do
      ended ← observe env.now
      let sent : Report = record r { result = "SENT"; duration = ended - started }
      ignore (persist_snapshot fl tools out env h r.fingerprint)
      ignore (persist_history fl tools out env h r.fingerprint changes)
      ignore (persist_timeline fl tools out env changes r.fingerprint)
      ignore (persist_success fl tools out env sent)
      pure (sent, none)

    -- `RunOnce` from the encoded payload on.
    unfoldable pub upload_snapshot :
        Sync.Engine → Context → ℕ → ℕ → Payload F → Result Text → Action Run
    upload_snapshot e ctx started collecting p (err x) =
        fail started (wrap "marshal inventory payload" x)
    upload_snapshot e ctx started collecting p (ok encoded) = do
      upload_started ← observe env.now
      delivery ← catch (
          send_json env e ctx "/api/agent/inventory" "inventory" (result (tools.marshal_payload p)))
      uploaded ← observe env.now
      ended ← observe env.now
      conclude_run started p.hardware p.changes
          (record no_report {
            collect_duration = collecting;
            upload_duration = uploaded - upload_started;
            duration = ended - started;
            payload_size = length encoded;
            hardware_count = hardware_count p.hardware;
            changed_items = length p.changes;
            fingerprint = p.fingerprint;
          })
          delivery

    module _ (same : Discrete F) (version : Text) where
      -- `RunOnce` for a snapshot that is new.
      unfoldable pub submit_snapshot :
          Sync.Engine → Context → ℕ → ℕ → Text → Text → Hardware F → Text → Action Run
      submit_snapshot e ctx started collecting uuid hostname h fp = do
        value ← catch (get env "inventory_last_hardware")
        let changes : List HardwareChange =
            diff_hardware same fl tools.lower_unicode
              (previous_hardware fl tools (text_or_empty value)) h
        assessment ← health h
        now ← observe env.now
        let p : Payload F = record {
          timestamp = now;
          agent_uuid = uuid;
          agent_version = version;
          hostname = hostname;
          fingerprint = fp;
          changed_items = length changes;
          changes = changes;
          asset_link = build_asset_link_hints h uuid hostname;
          health = assessment;
          hardware = h;
        }
        upload_snapshot e ctx started collecting p (result (tools.marshal_payload p))

      -- `RunOnce` from the fingerprint on: an unchanged machine is skipped.
      unfoldable pub compare_snapshot :
          Sync.Engine → Context → ℕ → ℕ → Text → Text → Hardware F → Result Text → Action Run
      compare_snapshot e ctx started collecting uuid hostname h (err x) = fail started x
      compare_snapshot e ctx started collecting uuid hostname h (ok fp) = do
        previous ← catch (get env "inventory_last_fingerprint")
        if text_eq (text_or_empty previous) fp
            then (do
              ended ← observe env.now
              now ← observe (λ n. env.format_nano (env.now n))
              ignore (put env "inventory_last_checked" now)
              pure (
                record no_report {
                  collect_duration = collecting;
                  duration = ended - started;
                  hardware_count = hardware_count h;
                  skipped_items = hardware_count h;
                  fingerprint = fp;
                  result = "SKIPPED";
                },
                none,
              ))
            else submit_snapshot e ctx started collecting uuid hostname h fp

      -- `RunOnce` from the collected snapshot on.
      unfoldable pub process_snapshot :
          Sync.Engine → Context → ℕ → ℕ → Text → Text → Result (Hardware F) → Action Run
      process_snapshot e ctx started collect_started uuid hostname (err x) = fail started x
      process_snapshot e ctx started collect_started uuid hostname (ok found) = do
        ended ← observe env.now
        let h : Hardware F = named hostname found
        compare_snapshot e ctx started (ended - collect_started) uuid hostname h
            (fingerprint fl tools env h)

      -- `RunOnce` from the host's name on.
      unfoldable pub collect_snapshot : Sync.Engine → Context → ℕ → Text → Result Text → Action Run
      collect_snapshot e ctx started uuid (err x) = fail started x
      collect_snapshot e ctx started uuid (ok hostname) = do
        collect_started ← observe env.now
        found ← observe (λ n. result (tools.collect ctx n))
        process_snapshot e ctx started collect_started uuid hostname found

      -- `RunOnce` from the UUID on.
      unfoldable pub run_registered : Sync.Engine → Context → ℕ → Result (Option Text) → Action Run
      run_registered e ctx started (err x) = fail started x
      run_registered e ctx started (ok none) = fail started not_registered
      run_registered e ctx started (ok (some uuid)) =
          if is_empty uuid then fail started not_registered else do
            hostname ← catch (annotate "read hostname" (observe_result env.hostname))
            collect_snapshot e ctx started uuid hostname

      -- `RunOnce`
      unfoldable pub run_once : Sync.Engine → Context → Action Run
      run_once e ctx = do
        started ← observe env.now
        done ← is_done ctx
        if done then pure (no_report, some (external (text "context canceled"))) else do
          ignore (flush env e ctx)
          uuid ← catch (get env "agent_uuid")
          run_registered e ctx started uuid
