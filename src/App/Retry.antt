-- ===== src/App/Retry.antt =====
-- How the registration loop of internal/app/app.go ends, and how long it waits.
use it_portal_agent.Prelude.{
  ℕ, zero, suc, ◌+◌, ◌*◌, ◌^◌, ◌≡◌, ◌⊎◌, refl, ap, Bool, true, false, Option, none, some, arith,
  inl, inr, Option-cases, Bool-cases, if◌then◌else◌,
}
use Prim.Native.Nat.{min}
use it_portal_agent.HttpClient.{second, sleep}
use it_portal_agent.Text.{Text, text}
use it_portal_agent.Storage.{get, value_of}
use it_portal_agent.Storage.Settings.{get_lem}
use it_portal_agent.World.{
  Result, Err, external, ok, err, err≢ok, Env, Context, World, Action, ◌>>◌, continue, pure,
  bind-eq-ok, next,
}
use it_portal_agent.Bootstrap.{Service, Codec, ensure_registered, registered, register}
use it_portal_agent.Bootstrap.Registration.{register-IsRegistered}
use it_portal_agent.App.{
  next_delay, Outcome, returned, waiting, round, judged, settle, wait, bootstrap_with_retry,
}

Result-cases {ℓ} : {A : Type ℓ} (r : Result A) → ((a : A) × (r ≡ ok a)) ⊎ ((x : Err) × (r ≡ err x))
Result-cases (ok a) = inl (a, refl)
Result-cases (err x) = inr (x, refl)

-- One second, doubled with every round, and five minutes at most.
abbrev pub delay_at : ℕ → ℕ
delay_at n = min (2 ^ n * second) (300 * second)

next_delay_at : (n : ℕ) → next_delay (delay_at n) ≡ delay_at (suc n)
unfolding next_delay
next_delay_at n = ground arith

module _ (env : Env) (codec : Codec) where
  -- The agent has a UUID.
  abbrev pub HasUuid : World → Type 0
  HasUuid w = (uuid : Text) × (value_of w "agent_uuid" ≡ some uuid)

  registered_true :
      (w : World) (d : Bool)
      → (registered env codec w).0 ≡ ok d
      → d ≡ true
      → HasUuid (registered env codec w).1
  unfolding registered
  registered_true w d h t = elim (Option-cases (env.statement_error w.tick)) [
    | inl e ↦ elim (Option-cases (value_of w "agent_uuid")) [
      | inl m ↦ absurd (cc (rw (get_lem env "agent_uuid" w, e, m) at h, t))
      | inr (u, m) ↦ rw (get_lem env "agent_uuid" w, e) (u, m)
    ]
    | inr (x, e) ↦ absurd (err≢ok (rw (get_lem env "agent_uuid" w, e) at h))
  ]

  ensure_registered-HasUuid :
      (s t : Service) (w : World)
      → (ensure_registered env codec s w).0 ≡ ok t
      → HasUuid (ensure_registered env codec s w).1
  unfolding ensure_registered
  ensure_registered-HasUuid s t w h =
      let tail : Bool → Action Service =
        λ d. if d then (get env "portal_configuration" >> pure s) else register env codec s in
      let (d, e1, h1) = bind-eq-ok (registered env codec) tail w t h in
      let w1 : World = (registered env codec w).1 in
      elim (Bool-cases d) [
        | inl y ↦
            let found : HasUuid w1 = registered_true w d e1 y in
            rw (e1, continue, y, get_lem env "portal_configuration" w1)
              (elim (Option-cases (env.statement_error w1.tick)) [
                | inl q ↦ rw q found
                | inr (x, q) ↦ rw q found
              ])
        | inr y ↦
            let r = register-IsRegistered env codec s t w1 (rw y at h1) in
            rw (e1, continue, y) (r.uuid, r.stored)
      ]

  module _ (ctx : Context) where
    -- How the loop stands after as many as `rounds` rounds, and the world then.
    abbrev pub IsOutcome : ℕ → Outcome → World → Type 0
    IsOutcome rounds (waiting d) w = d ≡ delay_at rounds
    IsOutcome rounds (returned (ok t)) w = HasUuid w
    IsOutcome rounds (returned (err x)) w = (m : ℕ) × (ctx m ≡ true)

    wait_done :
        (v : World)
        → ctx v.tick ≡ true
        → (delay : ℕ)
        → wait env codec ctx delay v ≡ (err (external (text "context canceled")), next v)
    unfolding wait
    wait_done v d delay = rw d refl

    wait_on :
        (v : World)
        → ctx v.tick ≡ false
        → (delay : ℕ) → wait env codec ctx delay v ≡ sleep env delay (next v)
    unfolding wait
    wait_on v d delay = rw d refl

    -- How a round ends.
    abbrev IsRound : Result (Option Service) → World → Type 0
    IsRound (ok (some t)) w = HasUuid w
    IsRound (ok none) w = Unit
    IsRound (err x) w = (m : ℕ) × (ctx m ≡ true)

    round-IsRound :
        (delay : ℕ) (s : Service) (w : World)
        → IsRound (round env codec ctx delay s w).0 (round env codec ctx delay s w).1
    unfolding round sleep
    round-IsRound delay s w =
        let e = ensure_registered env codec s w in
        go e.0 e.1 (λ t h. ensure_registered-HasUuid s t w h)
      where
        paused :
            (v : World) → let out = (wait env codec ctx delay >> pure none) v in IsRound out.0 out.1
        paused v = elim (Bool-cases (ctx v.tick)) [
          | inl d ↦ rw (wait_done v d delay) (v.tick, d)
          | inr d ↦ rw (wait_on v d delay) tt
        ]

        go :
            (r : Result Service) (v : World)
            → ((t : Service) → r ≡ ok t → HasUuid v)
            → let out : Result (Option Service) × World = judged env codec ctx delay r v in
              IsRound out.0 out.1
        go (ok t) v h = h t refl
        go (err x) v h = paused v

    retry_from :
        (n k m : ℕ) (s : Service) (w : World)
        → m ≡ n + k
        → let out = bootstrap_with_retry env codec ctx n (delay_at k) s w in IsOutcome m out.0 out.1
    unfolding bootstrap_with_retry
    retry_from zero k m s w h = ap delay_at (omega arith)
    retry_from (suc n) k m s w h =
        let r = round env codec ctx (delay_at k) s w in
        rw (next_delay_at k) (
          go r.0 r.1 (λ v. retry_from n (suc k) m s v (omega arith))
            (round-IsRound (delay_at k) s w))
      where
        again : World → Outcome × World
        again = bootstrap_with_retry env codec ctx n (delay_at (suc k)) s

        go :
            (r : Result (Option Service)) (v : World)
            → ((u : World) → IsOutcome m (again u).0 (again u).1)
            → IsRound r v
            → let out = settle env codec ctx r v again in IsOutcome m out.0 out.1
        go (ok (some t)) v f q = q
        go (ok none) v f q = f v
        go (err x) v f q = q

    -- The registration loop from its first delay, after any number of rounds: it has returned
    -- without an error, and the agent has a UUID, or it has returned an error, and the context was
    -- done, or it goes on, and its next delay is one second doubled with every round, five minutes at
    -- most.
    pub bootstrap_with_retry-IsOutcome :
        (rounds : ℕ) (s : Service) (w : World)
        → let out = bootstrap_with_retry env codec ctx rounds second s w in
          IsOutcome rounds out.0 out.1
    bootstrap_with_retry-IsOutcome rounds s w = retry_from rounds 0 rounds s w (omega arith)
