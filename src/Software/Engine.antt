-- ===== src/Software/Engine.antt =====
-- internal/software/engine.go: one run of the software inventory.
--
-- Log lines are left out; the loop `Run` is in Loops.
pub mod Outcome
use it_portal_agent.Prelude.{
  ℕ, ◌-◌, ◌*◌, String, Bool, true, false, not, ◌&&◌, Option, none, some, List, [], ◌∷◌, ltb, length,
  if◌then◌else◌,
}
use it_portal_agent.FloatingPoint.{Floats}
use it_portal_agent.HttpClient.{second}
use it_portal_agent.Heartbeat.{is_negative, seconds, JsonValue, number, string, other}
use it_portal_agent.Software.{Installation, normalize_and_deduplicate}
use it_portal_agent.Storage.{get, put, text_or_empty}
use it_portal_agent.Sync
use it_portal_agent.Sync.{Delivery, flush, send_json}
use it_portal_agent.Text.{Text, text, text_eq, is_empty}
use it_portal_agent.Text.Numbers.{hex}
use it_portal_agent.World.{
  Err, external, not_registered, is_queued, Reply, result, Result, ok, err, Env, Context, Action,
  ◌>>=◌, ◌>>◌, pure, catch, ignore, observe, is_done,
}

pub record Payload : Type 0 where
  pub agent_uuid : Text
  pub collected_at : ℕ
  pub items : List Installation

pub record Report : Type 0 where
  pub collect_duration : ℕ
  pub upload_duration : ℕ
  pub payload_size : ℕ
  pub software_count : ℕ
  pub changed_items : ℕ
  pub skipped_items : ℕ
  pub fingerprint : Text
  pub result : String

-- The report of a run that failed before it had a payload.
abbrev pub failed_report : ℕ → Report
failed_report duration = record {
  collect_duration = duration;
  upload_duration = 0;
  payload_size = 0;
  software_count = 0;
  changed_items = 0;
  skipped_items = 0;
  fingerprint = [];
  result = "FAILED";
}

-- A report beside the error that is returned with it.
abbrev pub Run : Type 0
Run = Report × Option Err

-- The collector of the platform, and the codecs.
pub record Tools (F : Type 0) : Type 0 where
  pub collect : ℕ → Reply (List Installation)
  pub marshal : Payload → Reply Text
  -- the JSON of the UUID and the items, or nothing where `json.Marshal` fails
  pub marshal_identity : Text → List Installation → Text
  pub parse_object : Text → Option (String → JsonValue F)
  pub parse_duration : Text → Option ℕ
  pub lower_unicode : Text → Text

module _ {F : Type 0} (fl : Floats F) (tools : Tools F) where
  -- `parseInterval`; JSON gives no `int`.
  unfoldable pub parse_interval : JsonValue F → ℕ
  parse_interval (string value) = elim (tools.parse_duration value) [ none ↦ 0 | some d ↦ d ]
  parse_interval (number value) =
      if fl.less (fl.of_nat 0) value then seconds (fl.truncated value) else 0
  parse_interval other = 0

  unfoldable pub find_interval : (String → JsonValue F) → List String → ℕ
  find_interval raw [] = 24 * 3600 * second
  find_interval raw (key ∷ keys) =
      let later = find_interval raw keys in
      let duration = parse_interval (raw key) in
      if ltb 0 duration && not (is_negative duration) then duration else later

  unfoldable pub interval_in : Text → ℕ
  interval_in value = elim (tools.parse_object value) [
    | none ↦ 24 * 3600 * second
    | some raw ↦ find_interval raw (
        "softwareInventoryInterval" ∷ "software_inventory_interval" ∷ "softwareInterval"
        ∷ "software_interval" ∷ [])
  ]

  module _ (env : Env) where
    -- `payloadFingerprint`
    unfoldable pub payload_fingerprint : Payload → Text
    payload_fingerprint p = hex (env.sha256 (tools.marshal_identity p.agent_uuid p.items))

    -- `RunOnce` behind `SendJSON`.
    unfoldable pub conclude_run : Report → Result Delivery → Action Run
    conclude_run report (err e) =
        if is_queued e
        then (do
          ignore (put env "software_last_fingerprint" report.fingerprint)
          pure (record report { result = "QUEUED" }, some e))
        else pure (record report { result = "FAILED" }, some e)
    conclude_run report (ok delivery) = do
      ignore (put env "software_last_fingerprint" report.fingerprint)
      now ← observe (λ n. env.format_nano (env.now n))
      ignore (put env "software_last_success" now)
      pure (record report { result = "SENT" }, none)

    -- `RunOnce` from the upload on.
    unfoldable pub upload_items : Sync.Engine → Context → ℕ → Payload → Text → Action Run
    upload_items e ctx duration p encoded = do
      started ← observe env.now
      answer ←
          catch (send_json env e ctx "/api/agent/software" "software" (result (tools.marshal p)))
      ended ← observe env.now
      conclude_run
          (record {
            collect_duration = duration;
            upload_duration = ended - started;
            payload_size = length encoded;
            software_count = length p.items;
            changed_items = length p.items;
            skipped_items = 0;
            fingerprint = payload_fingerprint p;
            result = "";
          })
          answer

    -- `RunOnce` from the encoded payload on: an inventory that was handed over before is skipped.
    unfoldable pub submit : Sync.Engine → Context → ℕ → Payload → Result Text → Action Run
    submit e ctx duration p (err x) = pure (failed_report duration, some x)
    submit e ctx duration p (ok encoded) = do
      previous ← catch (get env "software_last_fingerprint")
      if text_eq (text_or_empty previous) (payload_fingerprint p)
          then pure (
            record {
              collect_duration = duration;
              upload_duration = 0;
              payload_size = 0;
              software_count = length p.items;
              changed_items = 0;
              skipped_items = length p.items;
              fingerprint = payload_fingerprint p;
              result = "SKIPPED";
            },
            none,
          )
          else upload_items e ctx duration p encoded

    -- `RunOnce` from the collected items on.
    unfoldable pub process :
        Sync.Engine → Context → ℕ → Text → Result (List Installation) → Action Run
    process e ctx started uuid (err x) = do
      ended ← observe env.now
      pure (failed_report (ended - started), some x)
    process e ctx started uuid (ok found) = do
      ended ← observe env.now
      now ← observe env.now
      let p : Payload = record {
        agent_uuid = uuid;
        collected_at = now;
        items = normalize_and_deduplicate env.sha256 tools.lower_unicode found;
      }
      submit e ctx (ended - started) p (result (tools.marshal p))

    -- `RunOnce` from the UUID on.
    unfoldable pub run_as : Sync.Engine → Context → Result (Option Text) → Action Run
    run_as e ctx (err x) = pure (failed_report 0, some x)
    run_as e ctx (ok none) = pure (failed_report 0, some not_registered)
    run_as e ctx (ok (some uuid)) =
        if is_empty uuid then pure (failed_report 0, some not_registered) else do
          started ← observe env.now
          found ← observe (λ n. result (tools.collect n))
          process e ctx started uuid found

    -- `RunOnce`
    unfoldable pub run_once : Sync.Engine → Context → Action Run
    run_once e ctx = do
      done ← is_done ctx
      if done
          then pure (failed_report 0, some (external (text "context canceled")))
          else do ignore (flush env e ctx); uuid ← catch (get env "agent_uuid"); run_as e ctx uuid

    -- `interval`
    unfoldable pub interval : Action ℕ
    interval = do
      value ← catch (get env "portal_configuration")
      elim value [
        | err e ↦ pure (24 * 3600 * second)
        | ok none ↦ pure (24 * 3600 * second)
        | ok (some t) ↦ pure (interval_in t)
      ]
