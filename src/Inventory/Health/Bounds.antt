-- ===== src/Inventory/Health/Bounds.antt =====
-- The scores of `CalculateHealthV2` in internal/inventory/intelligence.go lie between 0 and 100.
use it_portal_agent.Prelude.{
  ℕ, ◌+◌, ◌-◌, ◌≤◌, ◌≡◌, refl, Bool, true, false, ◌||◌, inl, inr, arith, ◌==◌, Bool-cases,
  if◌then◌else◌,
}
use it_portal_agent.FloatingPoint.{Floats}
use it_portal_agent.Inventory.Health.{
  usage_score, heartbeat_score, latency_score, security_score, security_mean, weighted,
  calculate_health_v2,
}
use it_portal_agent.Inventory.Types.{Security, SecurityState, HealthAssessment}
use it_portal_agent.Text.{Text}

module _ {F : Type 0} (fl : Floats F) where
  -- The value lies between two integers.
  abbrev pub Between : ℕ → ℕ → F → Type 0
  Between lo hi v = (fl.at_least v (fl.of_nat lo) ≡ true) × (fl.at_least (fl.of_nat hi) v ≡ true)

  -- Not NaN, the only value that is not at least itself.
  abbrev pub IsNumber : F → Type 0
  IsNumber v = fl.at_least v v ≡ true

  -- The weights 0.10, 0.15 and 0.20.
  abbrev pub is_weight : ℕ → Bool
  is_weight n = n == 10 || n == 15 || n == 20

  -- Facts of `float64`: small integers are exact, rounding keeps the order, and the products of 100 with
  -- the weights round to 10, 15 and 20.
  pub record IsRounding : Type 0 where
    pub number :
        (m n : ℕ) (v : F)
        → IsNumber v
        → fl.less v (fl.of_nat m) ≡ false
        → fl.less (fl.of_nat n) v ≡ false
        → Between m n v
    pub of_nat : (m k n : ℕ) → m ≤ k → k ≤ n → n ≤ 1000 → Between m n (fl.of_nat k)
    pub plus :
        (a b c d : ℕ) (x y : F)
        → b + d ≤ 1000
        → Between a b x
        → Between c d y
        → Between (a + c) (b + d) (fl.plus x y)
    pub minus :
        (a b c : ℕ) (v : F)
        → b ≤ c
        → c ≤ 1000
        → Between a b v
        → Between (c - b) (c - a) (fl.minus (fl.of_nat c) v)
    pub times :
        (n : ℕ) (v : F)
        → is_weight n ≡ true
        → Between 0 100 v
        → Between 0 n (fl.times v (fl.hundredths n))
    pub divided : (v : F) → Between 0 400 v → Between 0 100 (fl.divided v (fl.of_nat 4))

  module _ (laws : IsRounding) where
    usage_score-Between : (v : F) → IsNumber v → Between 0 100 (usage_score fl v)
    unfolding usage_score
    usage_score-Between v n = elim (Bool-cases (fl.less v (fl.of_nat 0))) [
      | inl e ↦ rw e (laws.of_nat 0 50 100 (omega arith) (omega arith) (omega arith))
      | inr e ↦ elim (Bool-cases (fl.less (fl.of_nat 100) v)) [
        | inl q ↦ rw (e, q) (laws.of_nat 0 50 100 (omega arith) (omega arith) (omega arith))
        | inr q ↦
            rw (e, q)
              (laws.minus 0 100 100 v (omega arith) (omega arith) (laws.number 0 100 v n e q))
      ]
    ]

    -- One of two constants.
    choice :
        (b : Bool) (x y : F)
        → Between 0 100 x
        → Between 0 100 y
        → Between 0 100 (if b then x else y)
    choice true x y h k = h
    choice false x y h k = k

    constant : (k : ℕ) → k ≤ 100 → Between 0 100 (fl.of_nat k)
    constant k h = laws.of_nat 0 k 100 (omega arith) h (omega arith)

    heartbeat_score-Between :
        (upper_unicode : Text → Text) (status : Text)
        → Between 0 100 (heartbeat_score fl upper_unicode status)
    unfolding heartbeat_score
    heartbeat_score-Between upper_unicode status =
        choice _ _ _ (constant 100 (omega arith))
          (choice _ _ _ (constant 50 (omega arith)) (constant 0 (omega arith)))

    latency_score-Between : (v : F) → Between 0 100 (latency_score fl v)
    unfolding latency_score
    latency_score-Between v = choice _ _ _ (constant 50 (omega arith)) (
        choice _ _ _ (constant 100 (omega arith)) (
          choice _ _ _ (constant 70 (omega arith))
            (choice _ _ _ (constant 40 (omega arith)) (constant 10 (omega arith)))))

    security_score-Between : (s : SecurityState) → Between 0 100 (security_score fl s)
    unfolding security_score
    security_score-Between s =
        choice _ _ _ (constant 50 (omega arith))
          (choice _ _ _ (constant 100 (omega arith)) (constant 0 (omega arith)))

    security_mean-Between :
        (a b c d : F)
        → Between 0 100 a
        → Between 0 100 b
        → Between 0 100 c
        → Between 0 100 d
        → Between 0 100 (security_mean fl a b c d)
    security_mean-Between a b c d ha hb hc hd = laws.divided _ (
        laws.plus 0 300 0 100 _ d (omega arith)
          (laws.plus 0 200 0 100 _ c (omega arith) (laws.plus 0 100 0 100 a b (omega arith) ha hb)
            hc)
          hd)

    weighted-Between :
        (a b c d e f : F)
        → Between 0 100 a
        → Between 0 100 b
        → Between 0 100 c
        → Between 0 100 d
        → Between 0 100 e
        → Between 0 100 f
        → Between 0 100 (weighted fl a b c d e f)
    weighted-Between a b c d e f ha hb hc hd he hf =
        laws.plus 0 85 0 15 _ _ (omega arith)
          (laws.plus 0 75 0 10 _ _ (omega arith)
            (laws.plus 0 60 0 15 _ _ (omega arith)
              (laws.plus 0 40 0 20 _ _ (omega arith)
                (laws.plus 0 20 0 20 _ _ (omega arith) (laws.times 20 a refl ha)
                  (laws.times 20 b refl hb))
                (laws.times 20 c refl hc))
              (laws.times 15 d refl hd))
            (laws.times 10 e refl he))
          (laws.times 15 f refl hf)

    -- Every score of an assessment is a percentage.
    pub record IsScored (a : HealthAssessment F) : Type 0 where
      cpu : Between 0 100 a.cpu
      memory : Between 0 100 a.memory
      disk : Between 0 100 a.disk
      heartbeat : Between 0 100 a.heartbeat
      portal_latency : Between 0 100 a.portal_latency
      tpm : Between 0 100 a.tpm
      bit_locker : Between 0 100 a.bit_locker
      defender : Between 0 100 a.defender
      firewall : Between 0 100 a.firewall
      security : Between 0 100 a.security
      overall : Between 0 100 a.overall

    -- Where the usages are numbers, every score of the assessment and the overall score lie between 0
    -- and 100, whatever the usages, the status, the latency and the security are.
    pub calculate_health_v2-IsScored :
        (upper_unicode : Text → Text) (cpu memory disk : F) (status : Text) (latency : F)
        (s : Security)
        → IsNumber cpu
        → IsNumber memory
        → IsNumber disk
        → IsScored (calculate_health_v2 fl upper_unicode cpu memory disk status latency s)
    unfolding calculate_health_v2
    calculate_health_v2-IsScored upper_unicode cpu memory disk status latency s nc nm nd =
        let security =
          security_mean-Between _ _ _ _ (security_score-Between s.tpm)
            (security_score-Between s.bit_locker) (security_score-Between s.defender)
            (security_score-Between s.firewall) in
        record {
          cpu = usage_score-Between cpu nc;
          memory = usage_score-Between memory nm;
          disk = usage_score-Between disk nd;
          heartbeat = heartbeat_score-Between upper_unicode status;
          portal_latency = latency_score-Between latency;
          tpm = security_score-Between s.tpm;
          bit_locker = security_score-Between s.bit_locker;
          defender = security_score-Between s.defender;
          firewall = security_score-Between s.firewall;
          security = security;
          overall =
              weighted-Between _ _ _ _ _ _ (usage_score-Between cpu nc)
                (usage_score-Between memory nm) (usage_score-Between disk nd)
                (heartbeat_score-Between upper_unicode status) (latency_score-Between latency)
                security;
        }
