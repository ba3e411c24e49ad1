-- ===== src/Sync/Invariant.antt =====
-- The queue over all runs of `SendJSON` and `Flush` of internal/sync/engine.go.
use it_portal_agent.Prelude.{
  ℕ, zero, suc, String, ◌<◌, ◌≡◌, ◌≢◌, sym, true, some, none, List, [], ◌∷◌, All, All-append, drop,
}
use mathlib.Core.Path.{subst}
use it_portal_agent.Storage.Queue.{IsQueue, IsQueue-append, All-lt-next_id}
use it_portal_agent.Text.{Text}
use it_portal_agent.World.{Result, ok, Env, Context, QueueRow, World}
use it_portal_agent.Sync.{Delivery, Engine, route_for_type, send_json, flush}
use it_portal_agent.Sync.Fate.{Fate, delivered, kept, refused, IsEnqueued, send_json-Fate}
use it_portal_agent.Sync.Fifo.{IsRouted, flush-IsPass}

pub record IsSound (w : World) : Type 0 where
  pub queue : IsQueue w.queue
  pub routed : IsRouted w.queue

IsQueue-drop : (n : ℕ) (rows : List QueueRow) → IsQueue rows → IsQueue (drop n rows)
IsQueue-drop zero rows h = h
IsQueue-drop (suc n) [] h = h
IsQueue-drop (suc n) (r ∷ rows) h = IsQueue-drop n rows h.2

IsRouted-drop : (n : ℕ) (rows : List QueueRow) → IsRouted rows → IsRouted (drop n rows)
IsRouted-drop zero rows h = h
IsRouted-drop (suc n) [] h = h
IsRouted-drop (suc n) (r ∷ rows) h = IsRouted-drop n rows h.1

IsSound-of_queue : {w v : World} → v.queue ≡ w.queue → IsSound w → IsSound v
IsSound-of_queue q s = record {
  queue = subst IsQueue (sym q) s.queue;
  routed = subst IsRouted (sym q) s.routed;
}

module _ (env : Env) where
  enqueued-IsSound :
      (type : String) (payload : Text) (w v : World)
      → route_for_type type ≢ none
      → IsEnqueued env type payload w v
      → IsSound w
      → IsSound v
  enqueued-IsSound type payload w v route n s = record {
    queue = subst IsQueue (sym n.queue) (
        IsQueue-append w.queue n.row s.queue
          (subst (λ k. All (λ q. q.id < k) w.queue) (sym n.id) (All-lt-next_id w.queue)) n.status);
    routed = subst IsRouted (sym n.queue) (
        All-append (λ r. route_for_type r.type ≢ none) w.queue (n.row ∷ []) s.routed
          (subst (λ t. route_for_type t ≢ none) (sym n.type_of) route, tt));
  }

  -- What the agent does to the queue: its engines hand payloads of the three types to `SendJSON`, with
  -- the type's endpoint, they flush, and whatever else happens leaves the queue alone.
  pub data Step (w : World) : World → Type 0 where
    sent :
        (e : Engine) (ctx : Context) (endpoint type : String) (payload : Text)
        → route_for_type type ≡ some endpoint
        → Step w (send_json env e ctx endpoint type (ok payload) w).1
    flushed : (e : Engine) (ctx : Context) → Step w (flush env e ctx w).1
    elsewhere : {v : World} → v.queue ≡ w.queue → Step w v

  pub data Reach (w : World) : World → Type 0 where
    here : Reach w w
    next : {u v : World} → Reach w u → Step u v → Reach w v

  Fate-IsSound :
      {e : Engine} {type : String} {payload : Text} {w v : World} {r : Result Delivery}
      → route_for_type type ≢ none
      → IsSound w
      → Fate env e type payload true w r v
      → IsSound v
  Fate-IsSound route s (delivered b same) = IsSound-of_queue same.queue s
  Fate-IsSound {type} {payload} {w} {v} route s (kept on x b n) =
      enqueued-IsSound type payload w v route n s
  Fate-IsSound route s (refused x b same) = IsSound-of_queue same.queue s

  Step-IsSound : {w v : World} → Step w v → IsSound w → IsSound v
  Step-IsSound {w} (sent e ctx endpoint type payload r) s =
      Fate-IsSound (λ m. absurd (cc)) s (send_json-Fate env e ctx endpoint type payload w)
  Step-IsSound {w} (flushed e ctx) s =
      let p = flush-IsPass env e ctx w s.queue s.routed in
      record {
        queue = subst IsQueue (sym p.queue) (IsQueue-drop p.count w.queue s.queue);
        routed = subst IsRouted (sym p.queue) (IsRouted-drop p.count w.queue s.routed);
      }
  Step-IsSound (elsewhere q) s = IsSound-of_queue q s

  -- From a queue in order every run of such steps leads to a queue in order: ids ascend, every row
  -- waits, and every payload has an endpoint.
  pub Reach-IsSound : {w v : World} → IsSound w → Reach w v → IsSound v
  Reach-IsSound s here = s
  Reach-IsSound s (next r st) = Step-IsSound st (Reach-IsSound s r)
