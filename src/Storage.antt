-- ===== src/Storage.antt =====
-- internal/storage/sqlite.go: the statements on agent.db, on the rows of its tables.
--
-- A statement either fails as a whole, with the error that the environment gives, or does what its
-- SQL says. The statements are the source's own text; SQLite runs them one at a time.
pub mod Settings
pub mod Queue
pub mod Secrets
pub mod Effects
pub mod Page
use it_portal_agent.Prelude.{
  ℕ, zero, suc, ◌+◌, String, Bool, Option, none, some, List, [], ◌∷◌, ◌++◌, ◌==◌, leb, str_eq,
  if◌then◌else◌, take,
}
use it_portal_agent.Prelude.Assoc.{lookup, insert}
use it_portal_agent.Base64
use it_portal_agent.Text.{Text, text}
use it_portal_agent.World.{
  Err, external, wrap, wrap_number, answer, failure, Result, ok, err, Env, ConfigRow, QueueRow,
  HistoryRow, World, Action, ◌>>=◌, ◌>>◌, pure, annotate, next, observe, observe_result, continue,
  map_err,
}
use Prim.Native.String.{◌++◌ as ◌<>◌}

-- The next id that `INTEGER PRIMARY KEY` gives: one more than the largest.
unfoldable pub next_id : List QueueRow → ℕ
next_id [] = 1
next_id (r ∷ rows) = let n = next_id rows in if leb n r.id then r.id + 1 else n

-- `WHERE status = 'pending'`
unfoldable pub pending_rows : List QueueRow → List QueueRow
pending_rows [] = []
pending_rows (r ∷ rows) =
    let rest = pending_rows rows in if str_eq r.status "pending" then r ∷ rest else rest

-- `ORDER BY id ASC`
unfoldable pub insert_by_id : QueueRow → List QueueRow → List QueueRow
insert_by_id r [] = r ∷ []
insert_by_id r (q ∷ rows) = if leb r.id q.id then r ∷ q ∷ rows else q ∷ insert_by_id r rows

unfoldable pub sort_by_id : List QueueRow → List QueueRow
unfolding insert_by_id
sort_by_id [] = []
sort_by_id (r ∷ rows) = insert_by_id r (sort_by_id rows)

-- `DELETE FROM queue WHERE id = ?`
unfoldable pub delete_id : ℕ → List QueueRow → List QueueRow
delete_id n [] = []
delete_id n (r ∷ rows) = let rest = delete_id n rows in if r.id == n then rest else r ∷ rest

-- `SELECT COUNT(*)`
unfoldable pub count_rows : List QueueRow → ℕ
count_rows [] = 0
count_rows (r ∷ rows) = count_rows rows + 1

abbrev pub row_value : Option ConfigRow → Option Text
row_value none = none
row_value (some row) = some row.value

-- What the `config` table holds under a key.
abbrev pub value_of : World → String → Option Text
value_of w key = row_value (lookup key w.config)

pub record QueueItem : Type 0 where
  pub id : ℕ
  pub type : String
  pub payload : Text
  pub created_at : ℕ

-- `value, _, _ := Get(…)`: no error and no absence is told apart from an empty text.
abbrev pub text_or_empty : Result (Option Text) → Text
text_or_empty (err e) = []
text_or_empty (ok none) = []
text_or_empty (ok (some t)) = t

module _ (env : Env) where
  -- One SQL statement: it fails and changes nothing, or runs.
  abbrev pub statement {ℓ} : {A : Type ℓ} → (World → A × World) → Action A
  statement run w = elim (env.statement_error w.tick) [
    | none ↦ let (a, w') = run (next w) in (ok a, w')
    | some e ↦ (err (external e), next w)
  ]

  -- A call into the database driver that reads no more and may fail.
  abbrev pub driver_call : Action (Unit {0})
  driver_call = statement (λ w. (tt, w))

  -- `Open`, on a database that has the tables: opening, the ping, and the four statements of
  -- `schema`, which create a table only where it is missing.
  unfoldable pub open_database : Action (Unit {0})
  open_database = do
    annotate "open database" driver_call
    annotate "ping database" driver_call
    annotate "migrate database" driver_call
    annotate "migrate database" driver_call
    annotate "migrate database" driver_call
    annotate "migrate database" driver_call

  -- `datetime('now')` is read by the statement itself.
  abbrev upsert : String → Text → World → Unit {0} × World
  upsert key value w = (
    tt,
    record w {
      config = insert key (record { value = value; updated_at = env.now w.tick }) w.config;
    },
  )

  -- `Put`
  unfoldable pub put : String → Text → Action (Unit {0})
  unfolding insert
  put key value = annotate ("store " <> key) (statement (upsert key value))

  abbrev select_value : String → World → Option Text × World
  select_value key w = (value_of w key, w)

  -- `Get`: no row is `none`.
  unfoldable pub get : String → Action (Option Text)
  unfolding lookup
  get key = annotate ("read " <> key) (statement (select_value key))

  -- `ProtectSecret` and `UnprotectSecret` of internal/security/dpapi.go, through `transform`.
  unfoldable pub protect_secret : Text → Action Text
  protect_secret [] w = (err (external (text "secret is empty")), w)
  protect_secret (b ∷ t) w = elim (env.protect w.tick (b ∷ t)) [
    | failure e ↦ (err (wrap "Windows data protection operation failed" (external e)), next w)
    | answer c ↦ (ok c, next w)
  ]

  unfoldable pub unprotect_secret : Text → Action Text
  unprotect_secret [] w = (err (external (text "secret is empty")), w)
  unprotect_secret (b ∷ t) w = elim (env.unprotect (b ∷ t)) [
    | failure e ↦ (err (wrap "Windows data protection operation failed" (external e)), next w)
    | answer c ↦ (ok c, next w)
  ]

  -- `PutSecret`
  unfoldable pub put_secret : String → Text → Action (Unit {0})
  put_secret key value = do
    protected ← annotate ("protect " <> key) (protect_secret value)
    put key (Base64.encode protected)

  -- The last two steps of `GetSecret`.
  unfoldable pub open_secret : String → Option Text → Action (Option Text)
  open_secret key none = pure none
  open_secret key (some encoded) = do
    protected ← annotate ("decode protected " <> key) (λ w. (Base64.decode encoded, w))
    plain ← annotate ("unprotect " <> key) (unprotect_secret protected)
    pure (some plain)

  -- `GetSecret`
  unfoldable pub get_secret : String → Action (Option Text)
  get_secret key = do encoded ← get key; open_secret key encoded

  abbrev insert_queue : String → Text → Text → World → Unit {0} × World
  insert_queue type payload created w = (
    tt,
    record w {
      queue =
          w.queue
          ++ (record {
            id = next_id w.queue;
            type = type;
            payload = payload;
            status = "pending";
            created_at = created;
          }
              ∷ []);
    },
  )

  -- `Enqueue`
  unfoldable pub enqueue : String → Text → Action (Unit {0})
  unfolding next_id
  enqueue type payload = do
    created ← observe (λ n. env.format_nano (env.now n))
    annotate ("enqueue " <> type) (statement (insert_queue type payload created))

  abbrev pub scanned : QueueRow → QueueItem
  scanned r = record {
    id = r.id;
    type = r.type;
    payload = r.payload;
    created_at = elim (env.parse_time r.created_at) [ none ↦ 0 | some t ↦ t ];
  }

  -- The loop over `rows`, with the test of `rows.Err()` behind it.
  unfoldable pub scan_rows : List QueueRow → Action (List QueueItem)
  scan_rows [] = do annotate "iterate pending queue" driver_call; pure []
  scan_rows (r ∷ rows) =
      let rest = scan_rows rows in
      do annotate "scan pending queue" driver_call; items ← rest; pure (scanned r ∷ items)

  -- `Pending`
  unfoldable pub pending : ℕ → Action (List QueueItem)
  unfolding scan_rows pending_rows sort_by_id
  pending limit = do
    let n = if limit == 0 then 100 else limit
    rows ←
        annotate "read pending queue"
          (statement (λ w. (take n (sort_by_id (pending_rows w.queue)), w)))
    scan_rows rows

  -- `DeleteQueueItem`
  unfoldable pub delete_queue_item : ℕ → Action (Unit {0})
  unfolding delete_id
  delete_queue_item id w =
      let (r, v) = statement (λ u. (tt, record u { queue = delete_id id u.queue })) w in
      (map_err (wrap_number "delete queue item " id "") r, v)

  -- `QueueSize`
  unfoldable pub queue_size : Action ℕ
  unfolding pending_rows count_rows
  queue_size = annotate "count queue" (statement (λ w. (count_rows (pending_rows w.queue), w)))

  -- `RecordInventoryHistory`
  unfoldable pub record_inventory_history : Text → Text → Text → Action (Unit {0})
  record_inventory_history fingerprint payload changes = do
    captured ← observe (λ n. env.format_nano (env.now n))
    annotate "record inventory history" (
        statement (λ w. (
          tt,
          record w {
            history =
                w.history
                ++ (record {
                  fingerprint = fingerprint;
                  payload = payload;
                  changes = changes;
                  captured_at = captured;
                }
                    ∷ []);
          },
        )))
