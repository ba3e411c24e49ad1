-- ===== src/Sync/Fifo.antt =====
-- One pass of `Flush` in internal/sync/engine.go over the queue.
use mathlib.Core.Bool.{false≢true}
use mathlib.Core.List.{append-nil, append_assoc}
use it_portal_agent.Prelude.{
  ℕ, zero, suc, ◌+◌, ◌≤◌, ◌≡◌, ◌≢◌, refl, ◌∙◌, sym, ap, false, Option, none, some, List, [], ◌∷◌,
  ◌++◌, map, arith, inl, inr, Option-cases, All, take, drop,
}
use it_portal_agent.Storage.{QueueItem, scanned, delete_id, pending, sort_by_id, pending_rows}
use it_portal_agent.Storage.Queue.{
  IsQueue, delete_id_head, sort_by_id_of_IsQueue, pending_rows_of_IsQueue,
}
use it_portal_agent.Storage.Effects.{delete_queue_item_lem, pending-IsQuiet, pending-eq-ok}
use it_portal_agent.Text.{Text}
use it_portal_agent.World.{
  Action, Err, Result, ok, err, Env, Context, QueueRow, World, SameStore, IsQuiet, continue, catch,
  pure,
}
use it_portal_agent.Sync.{
  Delivery, Engine, encode_payload, route_for_type, after_delete, after_send, flush_items, flush,
}
use it_portal_agent.Sync.Accepted.{accepted_bodies}
use it_portal_agent.Sync.Fate.{Fate, delivered, kept, refused, send-Fate}

-- Every waiting payload has an endpoint.
abbrev pub IsRouted : List QueueRow → Type 0
IsRouted = All (λ r. route_for_type r.type ≢ none)

module _ (env : Env) (e : Engine) where
  -- The body under which a row's payload travels.
  abbrev pub body_of : QueueRow → Text
  body_of r = (encode_payload env r.payload e.compression).0

  -- A pass over at most `n` rows of a queue `rows`. The first `count` rows are gone and the others
  -- stand as they stood; the Portal has accepted the bodies of those `count` rows in their order, and
  -- behind them that of one more row (`late`) only where the pass ended in an error. A pass without an
  -- error is complete.
  pub record IsPass (n sent : ℕ) (rows : List QueueRow) (w : World)
      (out : Result (ℕ × Option Err) × World) : Type 0 where
    pub count : ℕ
    pub late : ℕ
    pub error : Option Err
    pub returns : out.0 ≡ ok (sent + count, error)
    pub queue : out.1.queue ≡ drop count rows
    pub accepted :
        accepted_bodies env out.1.events
        ≡ accepted_bodies env w.events ++ map body_of (take (count + late) rows)
    pub late_bound : late ≤ 1
    pub late_error : error ≡ none → late ≡ 0
    pub complete : error ≡ none → take count rows ≡ take n rows
    pub within : count ≤ n
    pub config : out.1.config ≡ w.config
    pub history : out.1.history ≡ w.history

  stopped :
      (n sent : ℕ) (rows : List QueueRow) (w v : World) (x : Err)
      → w.queue ≡ rows
      → accepted_bodies env v.events ≡ accepted_bodies env w.events
      → SameStore w v
      → IsPass n sent rows w (ok (sent, some x), v)
  stopped n sent rows w v x q bodies same = record {
    count = 0;
    late = 0;
    error = some x;
    returns = ap (λ k. ok (k, some x)) (omega arith);
    queue = same.queue ∙ q;
    accepted = bodies ∙ sym (append-nil _);
    late_bound = omega arith;
    late_error = λ h. cc;
    complete = λ h. absurd (cc);
    within = omega arith;
    config = same.config;
    history = same.history;
  }

  -- Nothing to do.
  finished :
      (n sent : ℕ) (rows : List QueueRow) (w : World)
      → w.queue ≡ rows
      → take n rows ≡ []
      → IsPass n sent rows w (ok (sent, none), w)
  finished n sent rows w q none_left = record {
    count = 0;
    late = 0;
    error = none;
    returns = ap (λ k. ok (k, none)) (omega arith);
    queue = q;
    accepted = sym (append-nil _);
    late_bound = omega arith;
    late_error = λ h. refl;
    complete = λ h. sym none_left;
    within = omega arith;
    config = refl;
    history = refl;
  }

  -- The first row was accepted and deleted, and a pass over the others followed.
  one_more :
      (n sent : ℕ) (r : QueueRow) (rows : List QueueRow) (w v : World)
      (out : Result (ℕ × Option Err) × World)
      → accepted_bodies env v.events ≡ accepted_bodies env w.events ++ (body_of r ∷ [])
      → v.config ≡ w.config
      → v.history ≡ w.history
      → IsPass n (sent + 1) rows v out
      → IsPass (suc n) sent (r ∷ rows) w out
  one_more n sent r rows w v out bodies c hist p =
      let step : suc (p.count + p.late) ≡ suc p.count + p.late = omega arith in
      record {
        count = suc p.count;
        late = p.late;
        error = p.error;
        returns = p.returns ∙ ap (λ k. ok (k, p.error)) (omega arith);
        queue = p.queue;
        accepted =
            p.accepted
            ∙ ap (λ l. l ++ map body_of (take (p.count + p.late) rows)) bodies
            ∙ append_assoc (accepted_bodies env w.events) (body_of r ∷ []) _
            ∙ ap (λ k. accepted_bodies env w.events ++ map body_of (take k (r ∷ rows))) step;
        late_bound = p.late_bound;
        late_error = p.late_error;
        complete = λ h. ap (λ l. r ∷ l) (p.complete h);
        within = omega (arith, p.within);
        config = p.config ∙ c;
        history = p.history ∙ hist;
      }

  -- The first row was accepted and could not be deleted.
  undeleted :
      (n sent : ℕ) (r : QueueRow) (rows : List QueueRow) (w v : World) (x : Err)
      → v.queue ≡ r ∷ rows
      → accepted_bodies env v.events ≡ accepted_bodies env w.events ++ (body_of r ∷ [])
      → v.config ≡ w.config
      → v.history ≡ w.history
      → IsPass (suc n) sent (r ∷ rows) w (ok (sent, some x), v)
  undeleted n sent r rows w v x q bodies c hist = record {
    count = 0;
    late = 1;
    error = some x;
    returns = ap (λ k. ok (k, some x)) (omega arith);
    queue = q;
    accepted = bodies;
    late_bound = omega arith;
    late_error = λ h. absurd (cc);
    complete = λ h. absurd (cc);
    within = omega arith;
    config = c;
    history = hist;
  }

  after_send-IsPass :
      (n sent : ℕ) (r : QueueRow) (rows : List QueueRow)
      (more : ℕ → World → Result (ℕ × Option Err) × World) (w v : World) (outcome : Result Delivery)
      → w.queue ≡ r ∷ rows
      → IsQueue (r ∷ rows)
      → ((u : World) → u.queue ≡ rows → IsPass n (sent + 1) rows u (more (sent + 1) u))
      → Fate env e r.type r.payload false w outcome v
      → IsPass (suc n) sent (r ∷ rows) w (after_send env more r.id sent outcome v)
  unfolding after_send after_delete
  after_send-IsPass n sent r rows more w v (err x) q h ih (kept on _ _ _) = absurd (false≢true on)
  after_send-IsPass n sent r rows more w v (err x) q h ih (refused pl bodies same) =
      stopped (suc n) sent (r ∷ rows) w v x q bodies same
  after_send-IsPass n sent r rows more w v (ok d) q h ih (delivered bodies same) =
      elim (Option-cases (env.statement_error v.tick)) [
        | inl m ↦
            rw (delete_queue_item_lem env r.id v, catch)
              (rw m (
                one_more n sent r rows w _ _ bodies same.config same.history
                  (ih _ (ap (delete_id r.id) (same.queue ∙ q) ∙ delete_id_head r rows h))))
        | inr (t, m) ↦
            rw (delete_queue_item_lem env r.id v, catch)
              (rw m
                (undeleted n sent r rows w _ _ (same.queue ∙ q) bodies same.config same.history))
      ]

  flush_items-IsPass :
      (ctx : Context) (n sent : ℕ) (rows : List QueueRow) (w : World)
      → w.queue ≡ rows
      → IsQueue rows
      → IsRouted rows
      → IsPass n sent rows w (flush_items env e ctx (map (scanned env) (take n rows)) sent w)
  unfolding flush_items
  flush_items-IsPass ctx zero sent rows w q h routed = finished zero sent rows w q refl
  flush_items-IsPass ctx (suc n) sent [] w q h routed = finished (suc n) sent [] w q refl
  flush_items-IsPass ctx (suc n) sent (r ∷ rows) w q h routed =
      elim (Option-cases (route_for_type r.type)) [
        | inl m ↦ absurd (routed.0 m)
        | inr (endpoint, m) ↦
            rw (m, flush_items)
              (after_send-IsPass n sent r rows
                (flush_items env e ctx (map (scanned env) (take n rows))) w _ _ q h
                (λ u qu. flush_items-IsPass ctx n (sent + 1) rows u qu h.2 routed.1)
                (send-Fate env e ctx endpoint r.type r.payload false w))
      ]

  IsPass-before :
      {n sent : ℕ} {rows : List QueueRow} {w u : World} {out : Result (ℕ × Option Err) × World}
      → IsQuiet w u
      → IsPass n sent rows u out
      → IsPass n sent rows w out
  IsPass-before {rows} q p = record {
    count = p.count;
    late = p.late;
    error = p.error;
    returns = p.returns;
    queue = p.queue;
    accepted =
        p.accepted
        ∙ ap (λ l. accepted_bodies env l ++ map body_of (take (p.count + p.late) rows)) q.events;
    late_bound = p.late_bound;
    late_error = p.late_error;
    complete = p.complete;
    within = p.within;
    config = p.config ∙ q.same.config;
    history = p.history ∙ q.same.history;
  }

  -- A call of `Flush` on a queue in order whose payloads all have an endpoint is a pass over its first
  -- hundred rows: it removes a number of rows from the front, the Portal has accepted their bodies in
  -- order, and that of one more row at most, beside an error; without an error, all of the first
  -- hundred rows are gone; and it returns how many are.
  pub flush-IsPass :
      (ctx : Context) (w : World)
      → IsQueue w.queue
      → IsRouted w.queue
      → IsPass 100 0 w.queue w (flush env e ctx w)
  unfolding flush
  flush-IsPass ctx w h routed =
      go (pending env 100 w).0 (pending env 100 w).1 refl (pending-IsQuiet env 100 w)
    where
      in_order : sort_by_id (pending_rows w.queue) ≡ w.queue
      in_order = ap sort_by_id (pending_rows_of_IsQueue w.queue h) ∙ sort_by_id_of_IsQueue w.queue h

      go :
          (read : Result (List QueueItem)) (v : World)
          → (pending env 100 w).0 ≡ read
          → IsQuiet w v
          → IsPass 100 0 w.queue w (
              continue {A = Result (List QueueItem)}
                (ok read)
                (λ r. elim r as (λ x. Action (ℕ × Option Err)) [
                  | err cause ↦ pure (0, some cause)
                  | ok items ↦ flush_items env e ctx items 0
                ])
                v)
      go (err x) v p q = stopped 100 0 w.queue w v x refl (ap (accepted_bodies env) q.events) q.same
      go (ok items) v p q =
          rw (pending-eq-ok env 100 w items p ∙ ap (λ l. map (scanned env) (take 100 l)) in_order)
            (IsPass-before q (flush_items-IsPass ctx 100 0 w.queue v q.same.queue h routed))
