-- ===== src/HttpClient/Attempts.antt =====
-- What a call of `Do` shows to others, over all patterns of answers.
use mathlib.Core.Bool.{false≢true}
use it_portal_agent.Prelude.{
  arith, ◌+◌, ◌≤◌, ℕ, zero, suc, ◌≡◌, false, refl, ap, inl, inr, Bool-cases, ◌∙◌, sym, List, [],
  ◌∷◌, ◌++◌,
}
use mathlib.Core.List.{append-nil, append_assoc}
use it_portal_agent.Text.{is_empty}
use it_portal_agent.World.{
  is_queued, IsPlain, result-IsPlain, result, ok-injective, pure, raise, observe, ◌>>◌,
  SameStore-trans, SameStore-refl, Err, wrap_number, Result, ok, err, Env, Request, Response, Event,
  exchanged, slept, World, SameStore, continue, next,
}
use it_portal_agent.Security.Verify.{
  IsSignedBy, sign_request-IsSignedBy, sign_request-next, sign_request-IsPlain,
}
use it_portal_agent.HttpClient.{
  do_request, Client, exchange, sleep, sign_attempt, attempt, attempts,
}

-- A series of attempts at `r` with a client, of which `left` more may follow the first: the first
-- answer ends it, a failed exchange is followed by one pause and the next attempt, and the last
-- failure or a failed signature is the result. Every request that is sent is signed where the
-- client has a token.
pub record IsSent (env : Env) (c : Client) (r q : Request) : Type 0 where
  pub body : q.body ≡ r.body
  pub signed : is_empty c.token ≡ false → IsSignedBy env c.token r q

pub data Series (env : Env) (c : Client) (r : Request)
    : ℕ → List Event → Result Response → Type 0 where
  answered :
      {left : ℕ} {q : Request} {response : Response}
      → IsSent env c r q
      → Series env c r left (exchanged q (ok response) ∷ []) (ok response)
  gave_up :
      {q : Request} {e : Err}
      → IsSent env c r q
      → is_queued e ≡ false
      → Series env c r zero
          (exchanged q (err e) ∷ [])
          (err (wrap_number "request failed after " c.retries " retries" e))
  again :
      {left : ℕ} {q : Request} {e : Err} {trace : List Event} {result : Result Response}
      → IsSent env c r q
      → Series env c r left trace result
      → Series env c r (suc left) (exchanged q (err e) ∷ slept c.retry_delay ∷ trace) result
  unsigned : {left : ℕ} {e : Err} → is_queued e ≡ false → Series env c r left [] (err e)

-- A call with such a series, which leaves the tables alone.
pub record IsSeries (env : Env) (c : Client) (r : Request) (left : ℕ) (w : World)
    (out : Result Response × World) : Type 0 where
  pub trace : List Event
  pub events : out.1.events ≡ w.events ++ trace
  pub series : Series env c r left trace out.0
  pub same : SameStore w out.1

module _ (env : Env) (c : Client) (r : Request) where
  -- One attempt: its signature fails, or the request goes out once.
  data IsAttempt (w : World) : Result (Result Response) → World → Type 0 where
    failed :
        {e : Err} {v : World}
        → is_queued e ≡ false
        → v.events ≡ w.events
        → SameStore w v
        → IsAttempt w (err e) v
    sent :
        {q : Request} {answer : Result Response} {v : World}
        → IsSent env c r q
        → IsPlain answer
        → v.events ≡ w.events ++ (exchanged q answer ∷ [])
        → SameStore w v
        → IsAttempt w (ok answer) v

  sign_attempt-IsSent :
      (w : World) (q : Request) → (sign_attempt env c r w).0 ≡ ok q → IsSent env c r q
  unfolding sign_attempt
  sign_attempt-IsSent w q h = elim (Bool-cases (is_empty c.token)) [
    | inl t ↦ record {
      body = ap (λ x. x.body) (sym (ok-injective (rw t at h)));
      signed = λ f. absurd (false≢true (sym f ∙ t));
    }
    | inr t ↦
        let s : IsSignedBy env c.token r q =
          sign_request-IsSignedBy env c.token (env.now w.tick) r q (next w)
            (rw (t, observe) at h) in
        record { body = s.body; signed = λ _. s }
  ]

  sign_attempt-same :
      (w : World)
      → ((sign_attempt env c r w).1.events ≡ w.events) × SameStore w (sign_attempt env c r w).1
  unfolding sign_attempt
  sign_attempt-same w = elim (Bool-cases (is_empty c.token)) [
    | inl e ↦ rw e (refl, SameStore-refl w)
    | inr e ↦ rw e (
        rw (sign_request-next env c.token (env.now w.tick) r (next w), observe)
          (refl, record { config = refl; queue = refl; history = refl; config_file = refl }))
  ]

  sign_attempt-IsPlain : (w : World) → IsPlain (sign_attempt env c r w).0
  unfolding sign_attempt
  sign_attempt-IsPlain w = elim (Bool-cases (is_empty c.token)) [
    | inl t ↦ rw t tt
    | inr t ↦ rw (t, observe) (sign_request-IsPlain env c.token (env.now w.tick) r (next w))
  ]

  attempt-cases : (w : World) → IsAttempt w (attempt env c r w).0 (attempt env c r w).1
  unfolding attempt exchange
  attempt-cases w =
      let (ev, same) = sign_attempt-same w in
      go (sign_attempt env c r w).0 (sign_attempt env c r w).1 (sign_attempt-IsPlain w)
        (sign_attempt-IsSent w) ev same
    where
      go :
          (a : Result Request) (v : World)
          → IsPlain a
          → ((q : Request) → a ≡ ok q → IsSent env c r q)
          → v.events ≡ w.events
          → SameStore w v
          → IsAttempt w (continue a (exchange env) v).0 (continue a (exchange env) v).1
      go (ok q) v pl p ev same =
          sent (p q refl) (result-IsPlain (env.exchange v.tick q))
            (ap (λ l. l ++ (exchanged q (result (env.exchange v.tick q)) ∷ [])) ev)
            (SameStore-trans same
              (record { config = refl; queue = refl; history = refl; config_file = refl }))
      go (err e) v pl p ev same = failed pl ev same

  last_attempt :
      (w v : World) (a : Result (Result Response))
      → IsAttempt w a v
      → IsSeries env c r zero w (
          continue a
            (λ answer. elim answer [
              | ok response ↦ pure response
              | err e ↦
                  raise {A = Response} (wrap_number "request failed after " c.retries " retries" e)
            ])
            v)
  last_attempt w v (err e) (failed pl ev same) = record {
    trace = [];
    events = ev ∙ sym (append-nil _);
    series = unsigned pl;
    same = same;
  }
  last_attempt w v (ok (ok response)) (sent p pl ev same) = record {
    trace = _;
    events = ev;
    series = answered p;
    same = same;
  }
  last_attempt w v (ok (err e)) (sent p pl ev same) = record {
    trace = _;
    events = ev;
    series = gave_up p pl;
    same = same;
  }

  more_attempts :
      (left : ℕ) (w v : World) (a : Result (Result Response))
      (rest : World → Result Response × World)
      → ((u : World) → IsSeries env c r left u (rest u))
      → IsAttempt w a v
      → IsSeries env c r (suc left) w (
          continue a
            (λ answer. elim answer [
              | ok response ↦ pure response
              | err e ↦ (sleep env c.retry_delay >> rest)
            ])
            v)
  unfolding sleep
  more_attempts left w v (err e) rest ih (failed pl ev same) = record {
    trace = [];
    events = ev ∙ sym (append-nil _);
    series = unsigned pl;
    same = same;
  }
  more_attempts left w v (ok (ok response)) rest ih (sent p pl ev same) = record {
    trace = _;
    events = ev;
    series = answered p;
    same = same;
  }
  more_attempts left w v (ok (err e)) rest ih (sent {q = q} p pl ev same) =
      let u : World = record v { events = v.events ++ (slept c.retry_delay ∷ []) } in
      let later : IsSeries env c r left u (rest u) = ih u in
      record {
        trace = exchanged q (err e) ∷ slept c.retry_delay ∷ later.trace;
        events = later.events ∙ simp (ev, append_assoc);
        series = again p later.series;
        same = SameStore-trans same (
            SameStore-trans {v = u}
              (record { config = refl; queue = refl; history = refl; config_file = refl })
              later.same);
      }

  attempts-IsSeries : (left : ℕ) (w : World) → IsSeries env c r left w (attempts env c r left w)
  unfolding attempts
  attempts-IsSeries zero w = last_attempt w _ _ (attempt-cases w)
  attempts-IsSeries (suc left) w =
      more_attempts left w _ _ (attempts env c r left) (attempts-IsSeries left) (attempt-cases w)

  -- Every call of `Do` is one series, with as many further attempts as the client retries: its events
  -- are exchanges of the same body, signed where the client has a token; each failed one but the last
  -- is followed by the pause, the first answer ends it, and the tables stay as they are.
  pub do_request-IsSeries : (w : World) → IsSeries env c r c.retries w (do_request env c r w)
  unfolding do_request
  do_request-IsSeries w = attempts-IsSeries c.retries w

-- The exchanges among some events.
pub exchanges : List Event → ℕ
exchanges [] = 0
exchanges (exchanged q answer ∷ l) = exchanges l + 1
exchanges (slept d ∷ l) = exchanges l

exchanges-append : (l m : List Event) → exchanges (l ++ m) ≡ exchanges l + exchanges m
unfolding exchanges
exchanges-append [] m = omega arith
exchanges-append (exchanged q answer ∷ l) m = omega (arith, exchanges-append l m)
exchanges-append (slept d ∷ l) m = exchanges-append l m

module _ (env : Env) (c : Client) (r : Request) where
  Series-exchanges :
      (left : ℕ) (trace : List Event) (result : Result Response)
      → Series env c r left trace result
      → exchanges trace ≤ left + 1
  unfolding exchanges
  Series-exchanges left trace result (answered p) = omega arith
  Series-exchanges left trace result (gave_up p pl) = omega arith
  Series-exchanges left trace result (again {left = k} {trace = l} p s) =
      omega (arith, Series-exchanges k l result s)
  Series-exchanges left trace result (unsigned pl) = omega arith

  -- `Do` makes at most one exchange more than it has retries, and changes no table.
  pub do_request_bound :
      (w : World)
      → (exchanges (do_request env c r w).1.events ≤ exchanges w.events + c.retries + 1)
        × SameStore w (do_request env c r w).1
  do_request_bound w =
      let s = do_request-IsSeries env c r w in
      (
        rw s.events (
            omega (
              arith,
              exchanges-append w.events s.trace,
              Series-exchanges c.retries s.trace _ s.series,
            )),
        s.same,
      )
