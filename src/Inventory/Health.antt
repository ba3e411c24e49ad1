-- ===== src/Inventory/Health.antt =====
-- internal/inventory/intelligence.go: the health of a machine.
pub mod Bounds
use it_portal_agent.Prelude.{Bool, not, ◌&&◌, ◌||◌, List, [], ◌∷◌, ◌++◌, if◌then◌else◌}
use it_portal_agent.FloatingPoint.{Floats}
use it_portal_agent.Inventory.Types.{Security, SecurityState, HealthAssessment}
use it_portal_agent.Text.{Text, text, text_eq}
use it_portal_agent.Text.Case.{to_upper, equal_fold}

-- An explanation that holds.
abbrev pub explain : Bool → Text → List Text
explain holds explanation = if holds then explanation ∷ [] else []

module _ {F : Type 0} (fl : Floats F) where
  -- `usageScore`
  unfoldable pub usage_score : F → F
  usage_score value =
      if fl.less value (fl.of_nat 0) || fl.less (fl.of_nat 100) value
      then fl.of_nat 50
      else fl.minus (fl.of_nat 100) value

  -- `heartbeatScore`
  unfoldable pub heartbeat_score : (Text → Text) → Text → F
  heartbeat_score upper_unicode status =
      let upper = to_upper upper_unicode status in
      if text_eq upper (text "ONLINE")
      then fl.of_nat 100
      else if text_eq upper (text "PENDING")
      then fl.of_nat 50
      else fl.of_nat 0

  -- `latencyScore`
  unfoldable pub latency_score : F → F
  latency_score value =
      if fl.less value (fl.of_nat 0)
      then fl.of_nat 50
      else if fl.at_least (fl.of_nat 200) value
      then fl.of_nat 100
      else if fl.at_least (fl.of_nat 500) value
      then fl.of_nat 70
      else if fl.at_least (fl.of_nat 1000) value
      then fl.of_nat 40
      else fl.of_nat 10

  -- `securityScore`
  unfoldable pub security_score : SecurityState → F
  security_score value =
      if not value.available
      then fl.of_nat 50
      else if value.enabled
      then fl.of_nat 100
      else fl.of_nat 0

  -- The mean of the four scores of security.
  abbrev pub security_mean : F → F → F → F → F
  security_mean tpm bit_locker defender firewall =
      fl.divided (fl.plus (fl.plus (fl.plus tpm bit_locker) defender) firewall) (fl.of_nat 4)

  -- The weighted sum of the scores.
  abbrev pub weighted : F → F → F → F → F → F → F
  weighted cpu memory disk heartbeat latency security =
      fl.plus
        (fl.plus
          (fl.plus
            (fl.plus
              (fl.plus (fl.times cpu (fl.hundredths 20)) (fl.times memory (fl.hundredths 20)))
              (fl.times disk (fl.hundredths 20)))
            (fl.times heartbeat (fl.hundredths 15)))
          (fl.times latency (fl.hundredths 10)))
        (fl.times security (fl.hundredths 15))

  -- The status of an overall score.
  unfoldable pub status_of : F → Text
  status_of overall =
      if fl.at_least overall (fl.of_nat 80)
      then text "Healthy"
      else if fl.at_least overall (fl.of_nat 60)
      then text "Warning"
      else text "Critical"

  -- A part of the security that is there and off.
  abbrev pub is_off : SecurityState → Bool
  is_off s = s.available && not s.enabled

  -- The explanations, in order.
  unfoldable pub explanations_of : F → F → F → Text → F → Security → List Text
  explanations_of cpu memory disk heartbeat_status latency s =
      explain (fl.at_least cpu (fl.of_nat 85)) (text "High CPU usage")
      ++ (explain (fl.at_least memory (fl.of_nat 85)) (text "High RAM usage")
          ++ (explain (fl.at_least disk (fl.of_nat 85)) (text "Disk almost full")
              ++ (explain (equal_fold heartbeat_status (text "OFFLINE"))
                    (text "Heartbeat is offline")
                  ++ (explain (fl.less (fl.of_nat 500) latency) (text "High Portal latency")
                      ++ (explain (is_off s.firewall) (text "Firewall disabled")
                          ++ (explain (is_off s.defender) (text "Windows Defender disabled")
                              ++ explain (is_off s.bit_locker) (text "BitLocker disabled")))))))

  -- `CalculateHealthV2`
  unfoldable pub calculate_health_v2 :
      (Text → Text) → F → F → F → Text → F → Security → HealthAssessment F
  calculate_health_v2 upper_unicode cpu memory disk heartbeat_status latency s =
      let security =
        security_mean (security_score s.tpm) (security_score s.bit_locker)
          (security_score s.defender) (security_score s.firewall) in
      let overall =
        weighted (usage_score cpu) (usage_score memory) (usage_score disk)
          (heartbeat_score upper_unicode heartbeat_status) (latency_score latency) security in
      record {
        cpu = usage_score cpu;
        memory = usage_score memory;
        disk = usage_score disk;
        heartbeat = heartbeat_score upper_unicode heartbeat_status;
        portal_latency = latency_score latency;
        security = security;
        tpm = security_score s.tpm;
        bit_locker = security_score s.bit_locker;
        defender = security_score s.defender;
        firewall = security_score s.firewall;
        overall = overall;
        status = status_of overall;
        explanations = explanations_of cpu memory disk heartbeat_status latency s;
      }
