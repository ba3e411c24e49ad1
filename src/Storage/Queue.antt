-- ===== src/Storage/Queue.antt =====
-- The `queue` table of internal/storage/sqlite.go: the order of its rows.
use it_portal_agent.Prelude.{
  ℕ, ◌<◌, ◌≤◌, ◌≡◌, refl, List, [], ◌∷◌, ◌++◌, arith, ◌==◌, eq_iff, All, All-append, Bool-cases,
  inl, inr,
}
use it_portal_agent.World.{QueueRow}
use it_portal_agent.Storage.{next_id, pending_rows, insert_by_id, sort_by_id, delete_id}

-- Ids ascend strictly, and every row waits.
abbrev pub IsQueue : List QueueRow → Type 0
IsQueue [] = Unit
IsQueue (r ∷ rows) = (r.status ≡ "pending") × All (λ q. r.id < q.id) rows × IsQueue rows

All-weaken :
    (rows : List QueueRow) (m n : ℕ) → m ≤ n → All (λ q. q.id < m) rows → All (λ q. q.id < n) rows
All-weaken [] m n h a = tt
All-weaken (r ∷ rows) m n h a = (omega arith, All-weaken rows m n h a.1)

pub All-lt-next_id : (rows : List QueueRow) → All (λ q. q.id < next_id rows) rows
unfolding next_id
All-lt-next_id [] = tt
All-lt-next_id (r ∷ rows) =
    (ground arith, All-weaken rows (next_id rows) _ (ground arith) (All-lt-next_id rows))

pub pending_rows_of_IsQueue : (rows : List QueueRow) → IsQueue rows → pending_rows rows ≡ rows
unfolding pending_rows
pending_rows_of_IsQueue [] h = refl
pending_rows_of_IsQueue (r ∷ rows) h =
    ground (arith, eq_iff r.status "pending", pending_rows_of_IsQueue rows h.2)

insert_by_id_least :
    (r : QueueRow) (rows : List QueueRow)
    → All (λ q. r.id < q.id) rows
    → insert_by_id r rows ≡ r ∷ rows
unfolding insert_by_id
insert_by_id_least r [] h = refl
insert_by_id_least r (q ∷ rows) h = ground arith

pub sort_by_id_of_IsQueue : (rows : List QueueRow) → IsQueue rows → sort_by_id rows ≡ rows
unfolding sort_by_id
sort_by_id_of_IsQueue [] h = refl
sort_by_id_of_IsQueue (r ∷ rows) h =
    rw (sort_by_id_of_IsQueue rows h.2) (insert_by_id_least r rows h.1)

-- A row at the end with an id above the others.
pub IsQueue-append :
    (rows : List QueueRow) (r : QueueRow)
    → IsQueue rows
    → All (λ q. q.id < r.id) rows
    → r.status ≡ "pending"
    → IsQueue (rows ++ r ∷ [])
IsQueue-append [] r h lt p = (p, tt, tt)
IsQueue-append (q ∷ rows) r h lt p = (
  h.0,
  All-append (λ s. q.id < s.id) rows (r ∷ []) h.1 (lt.0, tt),
  IsQueue-append rows r h.2 lt.1 p,
)

All-delete_id :
    (n m : ℕ) (rows : List QueueRow)
    → All (λ q. n < q.id) rows
    → All (λ q. n < q.id) (delete_id m rows)
unfolding delete_id
All-delete_id n m [] h = tt
All-delete_id n m (q ∷ rows) h = elim (Bool-cases (q.id == m)) [
  | inl e ↦ rw e (All-delete_id n m rows h.1)
  | inr e ↦ rw e (h.0, All-delete_id n m rows h.1)
]

pub delete_id-IsQueue : (n : ℕ) (rows : List QueueRow) → IsQueue rows → IsQueue (delete_id n rows)
unfolding delete_id
delete_id-IsQueue n [] h = tt
delete_id-IsQueue n (r ∷ rows) h = elim (Bool-cases (r.id == n)) [
  | inl e ↦ rw e (delete_id-IsQueue n rows h.2)
  | inr e ↦ rw e (h.0, All-delete_id r.id n rows h.1, delete_id-IsQueue n rows h.2)
]

delete_id_absent :
    (n : ℕ) (rows : List QueueRow) → All (λ q. n < q.id) rows → delete_id n rows ≡ rows
unfolding delete_id
delete_id_absent n [] h = refl
delete_id_absent n (r ∷ rows) h = ground (arith, delete_id_absent n rows h.1)

-- Deleting the first row leaves the others.
pub delete_id_head :
    (r : QueueRow) (rows : List QueueRow) → IsQueue (r ∷ rows) → delete_id r.id (r ∷ rows) ≡ rows
unfolding delete_id
delete_id_head r rows h = ground (arith, delete_id_absent r.id rows h.1)
