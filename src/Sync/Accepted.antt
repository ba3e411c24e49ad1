-- ===== src/Sync/Accepted.antt =====
-- What the Portal has accepted: the bodies of the exchanges that it answered with a success.
use mathlib.Core.List.{append-nil, append_assoc}
use it_portal_agent.Prelude.{
  ℕ, ◌≡◌, refl, ◌∙◌, ap, Bool, true, false, List, [], ◌∷◌, ◌++◌, arith, inl, inr, leb, ◌&&◌, ◌||◌,
}
use it_portal_agent.HttpClient.{Client, do_request}
use it_portal_agent.HttpClient.Attempts.{
  Series, answered, gave_up, again, unsigned, do_request-IsSeries,
}
use it_portal_agent.Text.{Text, is_empty}
use it_portal_agent.Text.Space.{trim_space}
use it_portal_agent.World.{
  Reply-cases, answer, failure, IsPlain, Err, Result, ok, err, Env, Request, Response, Event,
  exchanged, slept, World, SameStore,
}
use it_portal_agent.Sync.{judge}

abbrev pub is_ok {ℓ} : {A : Type ℓ} → Result A → Bool
is_ok (ok a) = true
is_ok (err e) = false

abbrev pub when {ℓ} : {A : Type ℓ} → Bool → A → List A
when true a = a ∷ []
when false a = []

module _ (env : Env) where
  -- The Portal answered with a status of 200 to 299, and with a body that could be read and is blank or
  -- JSON.
  pub is_accepted : Result Response → Bool
  is_accepted (err e) = false
  is_accepted (ok response) = elim response.body [
    | failure t ↦ false
    | answer body ↦
        leb 200 response.status_code
        && leb response.status_code 299
        && (is_empty (trim_space body) || env.json_valid body)
  ]

  pub accepted_bodies : List Event → List Text
  accepted_bodies [] = []
  accepted_bodies (exchanged q response ∷ l) =
      when (is_accepted response) q.body ++ accepted_bodies l
  accepted_bodies (slept d ∷ l) = accepted_bodies l

  pub accepted_bodies-append :
      (l m : List Event) → accepted_bodies (l ++ m) ≡ accepted_bodies l ++ accepted_bodies m
  unfolding accepted_bodies
  accepted_bodies-append [] m = refl
  accepted_bodies-append (exchanged q response ∷ l) m =
      simp (accepted_bodies-append l m, append_assoc)
  accepted_bodies-append (slept d ∷ l) m = accepted_bodies-append l m

  -- Whether an answer is a success does not hang on the latency.
  pub judge-is_ok :
      (response : Result Response) (n : ℕ) → is_ok (judge env response n) ≡ is_accepted response
  unfolding judge is_accepted
  judge-is_ok (err e) n = refl
  judge-is_ok (ok r) n = elim (Reply-cases r.body) [
    | inl (t, e) ↦ rw e refl
    | inr (body, e) ↦ rw e (ground arith)
  ]

  -- The causes that `send` gives are never `ErrQueued`.
  pub judge-IsPlain :
      (response : Result Response) (n : ℕ) → IsPlain response → IsPlain (judge env response n)
  unfolding judge
  judge-IsPlain (err e) n h = h
  judge-IsPlain (ok r) n h = ground arith

  not_accepted_of_err : (e : Err) → is_accepted (err e) ≡ false
  unfolding is_accepted judge
  not_accepted_of_err e = refl

  Series-accepted :
      (c : Client) (r : Request) (left : ℕ) (trace : List Event) (response : Result Response)
      → Series env c r left trace response
      → (accepted_bodies trace ≡ when (is_accepted response) r.body) × IsPlain response
  unfolding accepted_bodies
  Series-accepted c r left trace response (answered p) =
      (append-nil _ ∙ ap (when (is_accepted response)) p.body, tt)
  Series-accepted c r left trace response (gave_up p pl) = (simp not_accepted_of_err, pl)
  Series-accepted c r left trace response (again {left = k} {trace = l} p s) =
      let (body, plain) = Series-accepted c r k l response s in
      (simp not_accepted_of_err body, plain)
  Series-accepted c r left trace response (unsigned pl) = (simp not_accepted_of_err, pl)

  -- What a call of `Do` adds to the accepted bodies: its own, if its answer is a success.
  pub do_request-accepted :
      (c : Client) (r : Request) (w : World)
      → let out = do_request env c r w in
        (accepted_bodies out.1.events ≡ accepted_bodies w.events ++ when (is_accepted out.0) r.body)
        × IsPlain out.0
        × SameStore w out.1
  do_request-accepted c r w =
      let s = do_request-IsSeries env c r w in
      let (body, plain) = Series-accepted c r c.retries s.trace _ s.series in
      (
        ap accepted_bodies s.events
            ∙ accepted_bodies-append w.events s.trace
            ∙ ap (λ l. accepted_bodies w.events ++ l) body,
        plain,
        s.same,
      )
