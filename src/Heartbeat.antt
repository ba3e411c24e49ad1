-- ===== src/Heartbeat.antt =====
-- internal/heartbeat/heartbeat.go: the payload that shows that the agent lives, and what is stored of
-- each attempt to send it.
--
-- Floating-point numbers are a type `F` with the operations that the program uses. Log lines are
-- left out.
pub mod Report
use it_portal_agent.Prelude.{
  ℕ, zero, suc, ◌+◌, ◌*◌, ◌/◌, ◌%◌, ◌^◌, String, Bool, true, false, not, ◌&&◌, ◌||◌, Option, none,
  some, List, [], ◌∷◌, ◌==◌, ltb, leb, if◌then◌else◌,
}
use it_portal_agent.FloatingPoint.{Floats}
use it_portal_agent.HttpClient.{second}
use it_portal_agent.Storage.{get, put}
use it_portal_agent.Sync.{Delivery, Engine, flush, send_json}
use it_portal_agent.Text.{Text, text, is_empty}
use it_portal_agent.Text.Numbers.{print_decimal, parse_digits}
use it_portal_agent.Text.Space.{trim_space}
use it_portal_agent.World.{
  Err, not_registered, message, Reply, result, Result, ok, err, Env, Context, Action, ◌>>=◌, ◌>>◌,
  pure, raise, catch, annotate, ignore, observe, observe_result,
}

-- `Health`
pub record Health (F : Type 0) : Type 0 where
  pub cpu : F
  pub memory : F
  pub disk : F
  pub overall : F
  pub status : Text

-- `metrics`
pub record Metrics (F : Type 0) : Type 0 where
  pub os_version : Text
  pub logged_user : Text
  pub ip_address : Text
  pub mac_address : Text
  pub cpu : F
  pub memory : F
  pub disk : F
  pub uptime : ℕ

-- `Payload`
pub record Payload (F : Type 0) : Type 0 where
  pub agent_uuid : Text
  pub current_timestamp : Text
  pub hostname : Text
  pub computer_name : Text
  pub agent_version : Text
  pub os_name : Text
  pub os_version : Text
  pub architecture : Text
  pub current_logged_user : Text
  pub ip_address : Text
  pub mac_address : Text
  pub cpu_usage : F
  pub memory_usage : F
  pub disk_usage : F
  pub system_uptime : ℕ
  pub portal_latency : ℕ
  pub health : Health F

-- A value of a JSON object.
pub data JsonValue (F : Type 0) : Type 0 where
  number : F → JsonValue F
  string : Text → JsonValue F
  other : JsonValue F

-- What the heartbeat takes from outside: the output of the PowerShell command, decoded, where the
-- command and the decoding succeed; the codecs; and the build's `runtime.GOOS` and `runtime.GOARCH`.
pub record Outside (F : Type 0) : Type 0 where
  pub metrics_output : ℕ → Option (Metrics F)
  pub marshal : Payload F → Reply Text
  -- `strconv.FormatFloat` with two decimals
  pub format_float : F → Text
  -- `json.Unmarshal` into a map, by its keys
  pub parse_object : Text → Option (String → JsonValue F)
  -- `time.ParseDuration`, for durations that are not negative
  pub parse_duration : Text → Option ℕ
  pub goos : Text
  pub goarch : Text

-- The sums of the loop of `CalculateHealth`.
pub record Totals (F : Type 0) : Type 0 where
  pub total : F
  pub maximum : F
  pub count : ℕ

module _ {F : Type 0} (fl : Floats F) where
  -- The loop: a value outside 0 to 100 is passed over.
  unfoldable pub add_values : List F → Totals F → Totals F
  add_values [] t = t
  add_values (value ∷ values) t = add_values values (
      if fl.less value (fl.of_nat 0) || fl.less (fl.of_nat 100) value then t else record {
        total = fl.plus t.total value;
        maximum = if fl.less t.maximum value then value else t.maximum;
        count = t.count + 1;
      })

  -- `CalculateHealth`
  unfoldable pub calculate_health : F → F → F → Health F
  calculate_health cpu memory disk =
      let t =
        add_values (cpu ∷ memory ∷ disk ∷ [])
          (record { total = fl.of_nat 0; maximum = fl.of_nat 0; count = 0 }) in
      let overall = if t.count == 0 then fl.of_nat 0 else fl.divided t.total (fl.of_nat t.count) in
      record {
        cpu = cpu;
        memory = memory;
        disk = disk;
        overall = overall;
        status =
            if fl.at_least t.maximum (fl.of_nat 90) || fl.at_least overall (fl.of_nat 85)
            then text "Critical"
            else if fl.at_least t.maximum (fl.of_nat 75) || fl.at_least overall (fl.of_nat 65)
            then text "Warning"
            else text "Healthy";
      }

-- `readMetrics`: without an output, the zero values.
unfoldable pub read_metrics : {F : Type 0} → Floats F → Option (Metrics F) → Metrics F
read_metrics fl none = record {
  os_version = text "unknown";
  logged_user = [];
  ip_address = [];
  mac_address = [];
  cpu = fl.of_nat 0;
  memory = fl.of_nat 0;
  disk = fl.of_nat 0;
  uptime = 0;
}
read_metrics fl (some value) = record value {
  os_version = trim_space value.os_version;
  logged_user = trim_space value.logged_user;
  ip_address = trim_space value.ip_address;
  mac_address = trim_space value.mac_address;
}

-- `latency, _ = strconv.ParseInt(value, 10, 64)` on what `persistSuccess` wrote, or 0.
unfoldable pub stored_latency : Result (Option Text) → ℕ
stored_latency (err e) = 0
stored_latency (ok none) = 0
stored_latency (ok (some value)) = elim (parse_digits 0 value) [ none ↦ 0 | some n ↦ n ]

-- A `time.Duration`, as its 64 bits: from 2 ^ 63 on it is negative.
unfoldable pub is_negative : ℕ → Bool
is_negative duration = leb (2 ^ 63) duration

-- `time.Duration(value) * time.Second` in 64 bits. What a value that 64 bits do not hold is converted to,
-- Go leaves open; here it wraps.
unfoldable pub seconds : ℕ → ℕ
seconds value = (value * second) % 2 ^ 64

-- How long a timer runs: with a negative duration it fires at once.
unfoldable pub pause : ℕ → ℕ
pause duration = if is_negative duration then 0 else duration

-- `elapsed > 2*interval`
unfoldable pub outlasts : ℕ → ℕ → Bool
unfolding is_negative
outlasts elapsed interval =
    let twice = (2 * interval) % 2 ^ 64 in is_negative twice || ltb twice elapsed

module _ {F : Type 0} (fl : Floats F) (out : Outside F) where
  -- The interval that one key of the configuration gives.
  unfoldable pub interval_of : JsonValue F → Option ℕ
  interval_of (number value) =
      if fl.less (fl.of_nat 0) value then some (seconds (fl.truncated value)) else none
  interval_of (string value) = elim (out.parse_duration value) [
    | none ↦ none
    | some duration ↦ if ltb 0 duration then some duration else none
  ]
  interval_of other = none

  -- The loop over the two keys, and the default of thirty seconds.
  unfoldable pub first_interval : (String → JsonValue F) → List String → ℕ
  first_interval raw [] = 30 * second
  first_interval raw (key ∷ keys) = elim (interval_of (raw key)) [
    | none ↦ first_interval raw keys
    | some duration ↦ duration
  ]

  unfoldable pub interval_from : Result (Option Text) → ℕ
  interval_from (err e) = 30 * second
  interval_from (ok none) = 30 * second
  interval_from (ok (some value)) = elim (out.parse_object value) [
    | none ↦ 30 * second
    | some raw ↦ first_interval raw ("heartbeatInterval" ∷ "heartbeat_interval" ∷ [])
  ]

  module _ (env : Env) where
    -- `ConfiguredInterval`
    unfoldable pub configured_interval : Action ℕ
    configured_interval = do
      value ← catch (get env "portal_configuration")
      pure (interval_from value)

    -- The UUID of `collect`.
    unfoldable pub require_uuid : Option Text → Action Text
    require_uuid none = raise not_registered
    require_uuid (some uuid) = if is_empty uuid then raise not_registered else pure uuid

    -- `collect`
    unfoldable pub collect : Text → Action (Payload F)
    collect version = do
      found ← get env "agent_uuid"
      uuid ← require_uuid found
      hostname ← annotate "read hostname" (observe_result env.hostname)
      output ← observe out.metrics_output
      latency ← catch (get env "heartbeat_last_latency_ms")
      timestamp ← observe (λ n. env.format_seconds (env.now n))
      let m = read_metrics fl output
      pure (record {
        agent_uuid = uuid;
        current_timestamp = timestamp;
        hostname = hostname;
        computer_name = hostname;
        agent_version = version;
        os_name = out.goos;
        os_version = m.os_version;
        architecture = out.goarch;
        current_logged_user = m.logged_user;
        ip_address = m.ip_address;
        mac_address = m.mac_address;
        cpu_usage = m.cpu;
        memory_usage = m.memory;
        disk_usage = m.disk;
        system_uptime = m.uptime;
        portal_latency = stored_latency latency;
        health = calculate_health fl m.cpu m.memory m.disk;
      })

    -- `persistSuccess`; the latency is in milliseconds.
    unfoldable pub persist_success : Delivery → Health F → Action (Unit {0})
    persist_success d health = do
      time ← observe (λ n. env.format_seconds (env.now n))
      ignore (put env "heartbeat_last_success" time)
      ignore (put env "heartbeat_last_latency_ms" (print_decimal (d.latency / 10 ^ 6)))
      ignore (put env "heartbeat_last_health" health.status)
      ignore (put env "heartbeat_last_cpu" (out.format_float health.cpu))
      ignore (put env "heartbeat_last_memory" (out.format_float health.memory))
      ignore (put env "heartbeat_last_disk" (out.format_float health.disk))
      ignore (put env "heartbeat_last_error" [])

    -- `persistFailure`
    unfoldable pub persist_failure : Err → Action (Unit {0})
    persist_failure e = ignore (put env "heartbeat_last_error" (message e))

    -- `send` behind `SendJSON`.
    unfoldable pub report : Health F → Result Delivery → Action Delivery
    report health (err e) = do persist_failure e; raise e
    report health (ok d) = do persist_success d health; pure d

    -- `send` behind `collect`.
    unfoldable pub upload : Engine → Context → Result (Payload F) → Action Delivery
    upload e ctx (err x) = do persist_failure x; raise x
    upload e ctx (ok payload) = do
      answer ←
          catch
            (send_json env e ctx "/api/agent/heartbeat" "heartbeat" (result (out.marshal payload)))
      report payload.health answer

    -- `send`. What it reads and flushes first changes its log lines only.
    unfoldable pub send_heartbeat : Engine → Context → Text → Action Delivery
    send_heartbeat e ctx version = do
      ignore (get env "heartbeat_last_error")
      ignore (flush env e ctx)
      payload ← catch (collect version)
      upload e ctx payload
