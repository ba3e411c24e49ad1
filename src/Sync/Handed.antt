-- ===== src/Sync/Handed.antt =====
-- What a run of an inventory keeps and leaves of what it hands to internal/sync/engine.go.
use it_portal_agent.Prelude.{
  ℕ, ◌+◌, String, ◌≡◌, refl, ◌∙◌, Bool, false, Option, some, List, [], ◌∷◌, ◌++◌, inl, inr,
  Option-cases,
}
use it_portal_agent.Prelude.Assoc.{Assoc}
use it_portal_agent.Storage.{QueueItem, pending, put, statement, value_of}
use it_portal_agent.Storage.Effects.{delete_queue_item_lem, pending-IsQuiet}
use it_portal_agent.Text.{Text}
use it_portal_agent.World.{
  Err, Result, ok, err, Env, Context, ConfigRow, QueueRow, World, Action, catch, next,
  SameStore-next,
}
use it_portal_agent.Sync.{
  Delivery, Engine, encode_payload, route_for_type, after_delete, after_send, flush_items, flush,
}
use it_portal_agent.Sync.Accepted.{accepted_bodies}
use it_portal_agent.Sync.Fate.{Fate, delivered, kept, refused, send-Fate, IsEnqueued}

-- The queue and the exchanges are the same.
pub record IsSilent (w v : World) : Type 0 where
  pub queue : v.queue ≡ w.queue
  pub events : v.events ≡ w.events

pub IsSilent-refl : (w : World) → IsSilent w w
IsSilent-refl w = record { queue = refl; events = refl }

pub IsSilent-trans : {u v w : World} → IsSilent u v → IsSilent v w → IsSilent u w
IsSilent-trans p q = record { queue = q.queue ∙ p.queue; events = q.events ∙ p.events }

-- The last row of the queue holds the payload and waits to be sent.
pub record IsWaiting (type : String) (payload : Text) (w : World) : Type 0 where
  pub before : List QueueRow
  pub row : QueueRow
  pub queue : w.queue ≡ before ++ (row ∷ [])
  pub type_of : row.type ≡ type
  pub payload_of : row.payload ≡ payload
  pub status : row.status ≡ "pending"

pub IsWaiting-silent :
    {type : String} {payload : Text} {w v : World}
    → IsSilent w v
    → IsWaiting type payload w
    → IsWaiting type payload v
IsWaiting-silent s h = record {
  before = h.before;
  row = h.row;
  queue = s.queue ∙ h.queue;
  type_of = h.type_of;
  payload_of = h.payload_of;
  status = h.status;
}

-- A value in a table that is the same.
pub value_kept :
    (w v : World) {old : Option Text} (key : String)
    → v.config ≡ w.config
    → value_of w key ≡ old
    → value_of v key ≡ old
value_kept w v key c h = rw c h

module _ (env : Env) where
  pub put-IsSilent : (key : String) (value : Text) (w : World) → IsSilent w (put env key value w).1
  unfolding put
  put-IsSilent key value w = elim (Option-cases (env.statement_error w.tick)) [
    | inl e ↦ rw (e, statement) (record { queue = refl; events = refl })
    | inr (t, e) ↦ rw (e, statement) (record { queue = refl; events = refl })
  ]

  -- The last body that the Portal accepted is that of the payload.
  pub record IsDelivered (e : Engine) (payload : Text) (w : World) : Type 0 where
    pub before : List Text
    pub accepted :
        accepted_bodies env w.events ≡ before ++ ((encode_payload env payload e.compression).0 ∷ [])

  pub Fate-config :
      {e : Engine} {type : String} {payload : Text} {queue : Bool} {w v : World}
      {outcome : Result Delivery}
      → Fate env e type payload queue w outcome v
      → v.config ≡ w.config
  Fate-config (delivered bodies same) = same.config
  Fate-config (kept on x bodies n) = n.config
  Fate-config (refused x bodies same) = same.config

  -- A fate with a reading of the clock behind it.
  pub Fate-after :
      {e : Engine} {type : String} {payload : Text} {queue : Bool} {w v : World}
      {outcome : Result Delivery}
      → Fate env e type payload queue w outcome v
      → Fate env e type payload queue w outcome (next v)
  Fate-after (delivered bodies same) = delivered bodies (SameStore-next same)
  Fate-after (kept on x bodies n) = kept on x bodies (record {
    row = n.row;
    queue = n.queue;
    type_of = n.type_of;
    payload_of = n.payload_of;
    status = n.status;
    id = n.id;
    config = n.config;
    history = n.history;
    config_file = n.config_file;
  })
  Fate-after (refused x bodies same) = refused x bodies (SameStore-next same)

  pub IsEnqueued-IsWaiting :
      {type : String} {payload : Text} {w v : World}
      → IsEnqueued env type payload w v
      → IsWaiting type payload v
  IsEnqueued-IsWaiting {w = w} n = record {
    before = w.queue;
    row = n.row;
    queue = n.queue;
    type_of = n.type_of;
    payload_of = n.payload_of;
    status = n.status;
  }

  -- The world has this configuration.
  abbrev Holds {ℓ} : {A : Type ℓ} → Assoc ConfigRow → A × World → Type 0
  Holds config out = out.1.config ≡ config

  module _ (e : Engine) (ctx : Context) (config : Assoc ConfigRow) where
    after_send-Holds :
        (more : ℕ → Action (ℕ × Option Err)) (id sent : ℕ) (outcome : Result Delivery) (w : World)
        → ((k : ℕ) (u : World) → u.config ≡ config → Holds config (more k u))
        → w.config ≡ config
        → Holds config (after_send env more id sent outcome w)
    unfolding after_send after_delete
    after_send-Holds more id sent (err x) w go h = h
    after_send-Holds more id sent (ok d) w go h = elim (Option-cases (env.statement_error w.tick)) [
      | inl q ↦ rw (delete_queue_item_lem env id w, catch) (rw q (go (sent + 1) _ h))
      | inr (t, q) ↦ rw (delete_queue_item_lem env id w, catch) (rw q h)
    ]

    flush_items-Holds :
        (items : List QueueItem) (sent : ℕ) (w : World)
        → w.config ≡ config
        → Holds config (flush_items env e ctx items sent w)
    unfolding flush_items
    flush_items-Holds [] sent w h = h
    flush_items-Holds (item ∷ items) sent w h = elim (Option-cases (route_for_type item.type)) [
      | inl m ↦ rw (m, flush_items) (flush_items-Holds items sent w h)
      | inr (endpoint, m) ↦
          rw (m, flush_items)
            (after_send-Holds (flush_items env e ctx items) item.id sent _ _
              (λ k u c. flush_items-Holds items k u c)
              (Fate-config (send-Fate env e ctx endpoint item.type item.payload false w) ∙ h))
    ]

  module _ (e : Engine) (ctx : Context) where
    after_read :
        (read : Result (List QueueItem)) (w v : World)
        → v.config ≡ w.config
        → (elim read as (λ _. Action (ℕ × Option Err)) [
          | err cause ↦ λ u. (ok (0, some cause), u)
          | ok items ↦ flush_items env e ctx items 0
        ]
            v).1.config
          ≡ w.config
    after_read (err x) w v h = h
    after_read (ok items) w v h = flush_items-Holds e ctx w.config items 0 v h

    -- `Flush` writes no configuration.
    pub flush-config : (w : World) → (flush env e ctx w).1.config ≡ w.config
    unfolding flush
    flush-config w =
        after_read (pending env 100 w).0 w (pending env 100 w).1
          (pending-IsQuiet env 100 w).same.config
