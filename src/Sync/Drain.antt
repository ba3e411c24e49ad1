-- ===== src/Sync/Drain.antt =====
-- `Flush` of internal/sync/engine.go when nothing is in its way.
use mathlib.Core.List.{tail-eq_of_cons-eq}
use it_portal_agent.Prelude.{
  ℕ, zero, suc, ◌+◌, ◌-◌, ◌≤◌, ◌≡◌, refl, sym, ap, ◌∙◌, String, Option, none, some, List, [], ◌∷◌,
  ◌++◌, map, take, take_all, drop, length, arith, inl, inr, Option-cases, false,
}
use it_portal_agent.Prelude.Assoc.{Assoc}
use it_portal_agent.HttpClient.{Client, do_request, attempts, attempt, sign_attempt, exchange}
use it_portal_agent.Security.{sign_request, signed, unix}
use it_portal_agent.Text.Numbers.{print_decimal, hex}
use it_portal_agent.Storage.{
  get_secret, QueueItem, scanned, pending, scan_rows, statement, sort_by_id, pending_rows,
}
use it_portal_agent.Storage.Effects.{delete_queue_item_lem, pending-eq-ok, pending-IsQuiet}
use it_portal_agent.Storage.Queue.{IsQueue, pending_rows_of_IsQueue, sort_by_id_of_IsQueue}
use it_portal_agent.Text.{Text, text, is_empty}
use it_portal_agent.World.{
  Err, answer, Result, ok, err, err≢ok, Env, Context, Request, Response, QueueRow, World, ConfigRow,
  next, catch, pure,
}
use it_portal_agent.Sync.{
  Delivery, Engine, judge, new_request, build_request, require_token, timed_request, conclude,
  deliver, send, route_for_type, flush_items, flush, after_send, after_delete,
}
use it_portal_agent.Sync.Accepted.{accepted_bodies}
use it_portal_agent.Sync.Fate.{Fate, delivered, send-Fate}
use it_portal_agent.Sync.Fifo.{IsRouted, body_of, flush-IsPass}

-- What is not left by a take is empty.
drop-eq-nil {ℓ} : {A : Type ℓ} (n : ℕ) (l : List A) → take n l ≡ l → drop n l ≡ []
drop-eq-nil zero l h = sym h
drop-eq-nil (suc n) [] h = refl
drop-eq-nil (suc n) (a ∷ l) h = drop-eq-nil n l (tail-eq_of_cons-eq h)

module _ (env : Env) (e : Engine) (token : Text) where
  -- The answer is an acceptance.
  abbrev IsAcceptance : Response → Type 0
  IsAcceptance response = (latency : ℕ) → (d : Delivery) × (judge env (ok response) latency ≡ ok d)

  -- Signed with the token, at whatever time and with whatever nonce, the request is answered by an
  -- acceptance.
  abbrev IsWelcome : Request → Type 0
  IsWelcome r =
      (n now : ℕ) (nonce : Text)
      → (response : Response) × (env.exchange n
            (signed env token (print_decimal (unix now)) (hex nonce) r)
          ≡ answer response)
        × IsAcceptance response

  -- There is a token, and random numbers can be had; the URLs of the endpoints are well formed, and a
  -- payload for one of them, in a request with the token and its signature, is answered by an acceptance.
  pub record IsOpen : Type 0 where
    pub given : is_empty token ≡ false
    pub random : (n : ℕ) → (t : Text) × (env.random n ≡ answer t)
    pub url :
        (type endpoint : String)
        → route_for_type type ≡ some endpoint
        → env.url_error (e.portal_url ++ text endpoint) ≡ none
    pub accepts :
        (type endpoint : String) (payload : Text)
        → route_for_type type ≡ some endpoint
        → IsWelcome (build_request env e endpoint token payload)

  abbrev client : Client
  client = record e.client { token = token }

  module _ (portal : IsOpen) where
    sign_attempt-ok :
        (r : Request) (w : World)
        → (now : ℕ) × (nonce : Text) × ((sign_attempt env client r w).0
            ≡ ok (signed env token (print_decimal (unix now)) (hex nonce) r))
    unfolding sign_attempt sign_request
    sign_attempt-ok r w = rw (portal.given, (portal.random (w.tick + 1)).1) (_, _, refl)

    attempt-ok :
        (r : Request) (w : World)
        → IsWelcome r
        → (response : Response) × ((attempt env client r w).0 ≡ ok (ok response))
          × IsAcceptance response
    unfolding attempt exchange
    attempt-ok r w h =
        let (now, nonce, p) = sign_attempt-ok r w in
        let (response, a, k) = h (sign_attempt env client r w).1.tick now nonce in
        (response, rw p (rw a refl), k)

    attempts-ok :
        (left : ℕ) (r : Request) (w : World)
        → IsWelcome r
        → (response : Response) × ((attempts env client r left w).0 ≡ ok response)
          × IsAcceptance response
    unfolding attempts
    attempts-ok zero r w h = let (response, a, k) = attempt-ok r w h in (response, rw a refl, k)
    attempts-ok (suc left) r w h =
        let (response, a, k) = attempt-ok r w h in (response, rw a refl, k)

    do_request-ok :
        (r : Request) (w : World)
        → IsWelcome r
        → (response : Response) × ((do_request env client r w).0 ≡ ok response)
          × IsAcceptance response
    unfolding do_request
    do_request-ok r w h = attempts-ok client.retries r w h

    timed_request-ok :
        (r : Request) (w : World)
        → IsWelcome r
        → (d : Delivery) × ((timed_request env client r w).0 ≡ ok (ok d))
    unfolding timed_request
    timed_request-ok r w h =
        let (response, a, k) = do_request-ok r (next w) h in
        let (d, j) = k (env.now (do_request env client r (next w)).1.tick - env.now w.tick) in
        (d, rw a (ap ok j))

    module _ (ctx : Context) where
      deliver-ok :
          (endpoint type : String) (payload : Text) (w : World)
          → route_for_type type ≡ some endpoint
          → (d : Delivery) × ((deliver env e ctx endpoint type payload false token w).0 ≡ ok d)
      unfolding deliver new_request conclude
      deliver-ok endpoint type payload w m =
          let r : Request = build_request env e endpoint token payload in
          let (d, t) = timed_request-ok r w (portal.accepts type endpoint payload m) in
          (d, rw (portal.url type endpoint m, new_request) (rw t refl))

      -- Wherever the tables have this configuration, the token can be read.
      abbrev pub IsReadable : Assoc ConfigRow → Type 0
      IsReadable config =
          (w : World) → w.config ≡ config → (get_secret env "agent_token" w).0 ≡ ok (some token)

      module _ (config : Assoc ConfigRow) (readable : IsReadable config) where
        -- The token that was read is there.
        require_token-ok : (t : Text) → is_empty t ≡ false → require_token env (some t) ≡ pure t
        unfolding require_token
        require_token-ok t h = rw h refl

        send-ok :
            (endpoint type : String) (payload : Text) (w : World)
            → w.config ≡ config
            → route_for_type type ≡ some endpoint
            → (d : Delivery) × ((send env e ctx endpoint type payload false w).0 ≡ ok d)
        unfolding send
        send-ok endpoint type payload w h m =
            let (d, s) = deliver-ok endpoint type payload (get_secret env "agent_token" w).1 m in
            (d, rw (readable w h, require_token-ok token portal.given) s)

        module _ (sound : (n : ℕ) → env.statement_error n ≡ none) where
          -- A pass that ends without an error.
          abbrev IsFree : Result (ℕ × Option Err) → Type 0
          IsFree r = (k : ℕ) × (r ≡ ok (k, none))

          after_send-IsFree :
              (sent : ℕ) (r : QueueRow) (more : ℕ → World → Result (ℕ × Option Err) × World)
              (w v : World) (outcome : Result Delivery) (d : Delivery)
              → outcome ≡ ok d
              → w.config ≡ config
              → ((u : World) → u.config ≡ config → IsFree (more (sent + 1) u).0)
              → Fate env e r.type r.payload false w outcome v
              → IsFree (after_send env more r.id sent outcome v).0
          unfolding after_send after_delete
          after_send-IsFree sent r more w v (err x) d o c ih f = absurd (err≢ok o)
          after_send-IsFree sent r more w v (ok d') d o c ih (delivered bodies same) =
              rw (delete_queue_item_lem env r.id v, catch)
                (rw (sound v.tick) (ih _ (same.config ∙ c)))

          flush_items-IsFree :
              (n sent : ℕ) (rows : List QueueRow) (w : World)
              → IsRouted rows
              → w.config ≡ config
              → IsFree (flush_items env e ctx (map (scanned env) (take n rows)) sent w).0
          unfolding flush_items
          flush_items-IsFree zero sent rows w routed c = (sent, refl)
          flush_items-IsFree (suc n) sent [] w routed c = (sent, refl)
          flush_items-IsFree (suc n) sent (r ∷ rows) w routed c =
              elim (Option-cases (route_for_type r.type)) [
                | inl m ↦ absurd (routed.0 m)
                | inr (endpoint, m) ↦
                    let (d, s) = send-ok endpoint r.type r.payload w c m in
                    rw (m, flush_items)
                      (after_send-IsFree sent r
                        (flush_items env e ctx (map (scanned env) (take n rows))) w _ _ d s c
                        (λ u cu. flush_items-IsFree n (sent + 1) rows u routed.1 cu)
                        (send-Fate env e ctx endpoint r.type r.payload false w))
              ]

          scan_rows-ok :
              (rows : List QueueRow) (w : World)
              → (items : List QueueItem) × ((scan_rows env rows w).0 ≡ ok items)
          unfolding scan_rows
          scan_rows-ok [] w = rw (sound w.tick, statement) (_, refl)
          scan_rows-ok (r ∷ rows) w =
              let (items, p) = scan_rows-ok rows (next w) in
              rw (sound w.tick, statement) (rw p (_, refl))

          pending-ok : (w : World) → (items : List QueueItem) × ((pending env 100 w).0 ≡ ok items)
          unfolding pending
          pending-ok w =
              rw (sound w.tick, statement)
                (scan_rows-ok (take 100 (sort_by_id (pending_rows w.queue))) (next w))

          flush-IsFree :
              (w : World)
              → IsQueue w.queue
              → IsRouted w.queue
              → w.config ≡ config
              → IsFree (flush env e ctx w).0
          unfolding flush
          flush-IsFree w h routed c =
              let (items, p) = pending-ok w in
              rw p (
                rw
                  (pending-eq-ok env 100 w items p
                    ∙ ap (λ l. map (scanned env) (take 100 l))
                        (ap sort_by_id (pending_rows_of_IsQueue w.queue h)
                          ∙ sort_by_id_of_IsQueue w.queue h))
                  (flush_items-IsFree 100 0 w.queue (pending env 100 w).1 routed
                    ((pending-IsQuiet env 100 w).same.config ∙ c)))

          -- The queue is empty, and the Portal has accepted the body of each of its rows, in order.
          pub record IsDrained (w : World) (out : Result (ℕ × Option Err) × World) : Type 0 where
            pub returns : (sent : ℕ) × (out.0 ≡ ok (sent, none))
            pub queue : out.1.queue ≡ []
            pub accepted :
                accepted_bodies env out.1.events
                ≡ accepted_bodies env w.events ++ map (body_of env e) w.queue

          -- Where the token can be read, the URLs of the endpoints are well formed, random numbers can be
          -- had, the database works and the Portal accepts every payload that is sent to an endpoint in a
          -- request with the token and its signature, a call of `Flush` on a queue in order of at most a hundred rows, whose
          -- payloads all have an endpoint, empties the queue without an error, and the Portal has
          -- accepted the body of every row, in the order of the queue.
          pub flush-IsDrained :
              (w : World)
              → IsQueue w.queue
              → IsRouted w.queue
              → length w.queue ≤ 100
              → w.config ≡ config
              → IsDrained w (flush env e ctx w)
          flush-IsDrained w h routed few c =
              let p = flush-IsPass env e ctx w h routed in
              let free = flush-IsFree w h routed c in
              let clean : p.error ≡ none = cc (p.returns, free.1) in
              let all : take p.count w.queue ≡ w.queue =
                p.complete clean ∙ take_all 100 w.queue few in
              let late : p.count + p.late ≡ p.count = omega (arith, p.late_error clean) in
              record {
                returns = free;
                queue = p.queue ∙ drop-eq-nil p.count w.queue all;
                accepted =
                    p.accepted
                    ∙ ap (λ k. accepted_bodies env w.events ++ map (body_of env e) (take k w.queue))
                        late
                    ∙ ap (λ l. accepted_bodies env w.events ++ map (body_of env e) l) all;
              }
