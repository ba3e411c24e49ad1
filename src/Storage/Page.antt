-- ===== src/Storage/Page.antt =====
-- What `Pending` of internal/storage/sqlite.go reads of the table `queue`.
use mathlib.Core.List.{Permᴰ}
use mathlib.Core.List.Permᴰ
use mathlib.Core.Path.{subst}
use it_portal_agent.Prelude.{
  ℕ, zero, suc, ◌≤◌, ◌≡◌, refl, sym, ◌∙◌, ap, ◌⊎◌, inl, inr, false, List, [], ◌∷◌, ◌++◌, map, take,
  drop, length, leb, str_eq, eq_iff, arith, All, All-map, Pairwise, Bool-cases, if◌then◌else◌,
}
use it_portal_agent.Storage.{
  QueueItem, count_rows, scanned, pending, pending_rows, insert_by_id, sort_by_id,
}
use it_portal_agent.Storage.Effects.{effective_limit, pending-eq-ok}
use it_portal_agent.World.{ok, Env, QueueRow, World}

abbrev IsPending : QueueRow → Type 0
IsPending r = r.status ≡ "pending"

abbrev IsBefore : QueueRow → QueueRow → Type 0
IsBefore a b = a.id ≤ b.id

-- The rows that do not wait.
others_of : List QueueRow → List QueueRow
others_of [] = []
others_of (r ∷ rows) =
    let rest = others_of rows in if str_eq r.status "pending" then rest else r ∷ rest

others_of-All :
    (rows : List QueueRow) → All (λ r. str_eq r.status "pending" ≡ false) (others_of rows)
unfolding others_of
others_of-All [] = tt
others_of-All (r ∷ rows) = elim (Bool-cases (str_eq r.status "pending")) [
  | inl e ↦ rw e (others_of-All rows)
  | inr e ↦ rw e (e, others_of-All rows)
]

pending_rows-All : (rows : List QueueRow) → All IsPending (pending_rows rows)
unfolding pending_rows
pending_rows-All [] = tt
pending_rows-All (r ∷ rows) = elim (Bool-cases (str_eq r.status "pending")) [
  | inl e ↦ rw e ((eq_iff r.status "pending").0 e, pending_rows-All rows)
  | inr e ↦ rw e (pending_rows-All rows)
]

split-perm : (rows : List QueueRow) → Permᴰ (pending_rows rows ++ others_of rows) rows
unfolding pending_rows others_of
split-perm [] = Permᴰ.nil
split-perm (r ∷ rows) = elim (Bool-cases (str_eq r.status "pending")) [
  | inl e ↦ rw e (Permᴰ.cons refl (split-perm rows))
  | inr e ↦ rw e (
      Permᴰ.trans (Permᴰ.middle r (pending_rows rows) (others_of rows))
        (Permᴰ.cons refl (split-perm rows)))
]

insert-perm : (r : QueueRow) (rows : List QueueRow) → Permᴰ (insert_by_id r rows) (r ∷ rows)
unfolding insert_by_id
insert-perm r [] = Permᴰ.refl (r ∷ [])
insert-perm r (q ∷ rows) = elim (Bool-cases (leb r.id q.id)) [
  | inl e ↦ rw e (Permᴰ.refl (r ∷ q ∷ rows))
  | inr e ↦ rw e (Permᴰ.trans (Permᴰ.cons refl (insert-perm r rows)) (Permᴰ.swap refl refl))
]

insert-All {κ} :
    (P : QueueRow → Type κ) (r : QueueRow) (rows : List QueueRow)
    → P r
    → All P rows
    → All P (insert_by_id r rows)
unfolding insert_by_id
insert-All P r [] p h = (p, tt)
insert-All P r (q ∷ rows) p h = elim (Bool-cases (leb r.id q.id)) [
  | inl e ↦ rw e (p, h)
  | inr e ↦ rw e (h.0, insert-All P r rows p h.1)
]

sort-perm : (rows : List QueueRow) → Permᴰ (sort_by_id rows) rows
unfolding sort_by_id
sort-perm [] = Permᴰ.nil
sort-perm (r ∷ rows) =
    Permᴰ.trans (insert-perm r (sort_by_id rows)) (Permᴰ.cons refl (sort-perm rows))

sort-All {κ} : (P : QueueRow → Type κ) (rows : List QueueRow) → All P rows → All P (sort_by_id rows)
unfolding sort_by_id
sort-All P [] h = tt
sort-All P (r ∷ rows) h = insert-All P r (sort_by_id rows) h.0 (sort-All P rows h.1)

insert-Pairwise :
    (r : QueueRow) (rows : List QueueRow)
    → Pairwise IsBefore rows
    → Pairwise IsBefore (insert_by_id r rows)
unfolding insert_by_id
insert-Pairwise r [] h = (tt, tt)
insert-Pairwise r (q ∷ rows) h = elim (Bool-cases (leb r.id q.id)) [
  | inl e ↦
      rw e ((ground arith, All-map (IsBefore q) (IsBefore r) (λ s k. ground arith) rows h.0), h)
  | inr e ↦ rw e (insert-All (IsBefore q) r rows (ground arith) h.0, insert-Pairwise r rows h.1)
]

sort-Pairwise : (rows : List QueueRow) → Pairwise IsBefore (sort_by_id rows)
unfolding sort_by_id
sort-Pairwise [] = tt
sort-Pairwise (r ∷ rows) = insert-Pairwise r (sort_by_id rows) (sort-Pairwise rows)

-- The number is that of the rows of the table that wait.
pub record IsCount (queue : List QueueRow) (n : ℕ) : Type 0 where
  rows : List QueueRow
  others : List QueueRow
  split : Permᴰ (rows ++ others) queue
  rows_wait : All IsPending rows
  others_do_not : All (λ r. str_eq r.status "pending" ≡ false) others
  count : n ≡ length rows

count_rows_lem : (rows : List QueueRow) → count_rows rows ≡ length rows
unfolding count_rows
count_rows_lem [] = refl
count_rows_lem (r ∷ rows) = omega (arith, count_rows_lem rows)

pub count_rows-IsCount : (queue : List QueueRow) → IsCount queue (count_rows (pending_rows queue))
count_rows-IsCount queue = record {
  rows = pending_rows queue;
  others = others_of queue;
  split = split-perm queue;
  rows_wait = pending_rows-All queue;
  others_do_not = others_of-All queue;
  count = count_rows_lem (pending_rows queue);
}

take-drop {ℓ} : {A : Type ℓ} (n : ℕ) (l : List A) → take n l ++ drop n l ≡ l
take-drop zero l = refl
take-drop (suc n) [] = refl
take-drop (suc n) (a ∷ l) = ap (λ m. a ∷ m) (take-drop n l)

length-take {ℓ} : {A : Type ℓ} (n : ℕ) (l : List A) → length (take n l) ≤ n
length-take zero l = omega arith
length-take (suc n) [] = omega arith
length-take (suc n) (a ∷ l) = omega (arith, length-take n l)

take-full {ℓ} : {A : Type ℓ} (n : ℕ) (l : List A) → (drop n l ≡ []) ⊎ (length (take n l) ≡ n)
take-full zero l = inr refl
take-full (suc n) [] = inl refl
take-full (suc n) (a ∷ l) = elim (take-full n l) [ inl e ↦ inl e | inr e ↦ inr (ap suc e) ]

All-take {ℓ κ} : {A : Type ℓ} (P : A → Type κ) (n : ℕ) (l : List A) → All P l → All P (take n l)
All-take P zero l h = tt
All-take P (suc n) [] h = tt
All-take P (suc n) (a ∷ l) h = (h.0, All-take P n l h.1)

All-drop {ℓ κ} : {A : Type ℓ} (P : A → Type κ) (n : ℕ) (l : List A) → All P l → All P (drop n l)
All-drop P zero l h = h
All-drop P (suc n) [] h = tt
All-drop P (suc n) (a ∷ l) h = All-drop P n l h.1

Pairwise-take {ℓ κ} :
    {A : Type ℓ} (R : A → A → Type κ) (n : ℕ) (l : List A) → Pairwise R l → Pairwise R (take n l)
Pairwise-take R zero l h = tt
Pairwise-take R (suc n) [] h = tt
Pairwise-take R (suc n) (a ∷ l) h = (All-take (R a) n l h.0, Pairwise-take R n l h.1)

-- Each element that is taken stands in the relation to all that are left.
Pairwise-drop {ℓ κ} :
    {A : Type ℓ} (R : A → A → Type κ) (n : ℕ) (l : List A)
    → Pairwise R l
    → All (λ a. All (R a) (drop n l)) (take n l)
Pairwise-drop R zero l h = tt
Pairwise-drop R (suc n) [] h = tt
Pairwise-drop R (suc n) (a ∷ l) h = (All-drop (R a) n l h.0, Pairwise-drop R n l h.1)

-- A limit of 0 stands for 100.
abbrev pub page_size : ℕ → ℕ
page_size zero = 100
page_size (suc n) = suc n

module _ (env : Env) where
  -- The table, in some order, is a page, the rest of the rows that wait, and the rows that do not. The
  -- items are the rows of the page, in the order of their ids, which are none above those of the rest;
  -- the page is as large as the limit, or nothing is left.
  pub record IsPage (limit : ℕ) (queue : List QueueRow) (items : List QueueItem) : Type 0 where
    page : List QueueRow
    rest : List QueueRow
    others : List QueueRow
    returned : items ≡ map (scanned env) page
    split : Permᴰ ((page ++ rest) ++ others) queue
    page_waits : All IsPending page
    rest_waits : All IsPending rest
    others_do_not : All (λ r. str_eq r.status "pending" ≡ false) others
    ascending : Pairwise IsBefore page
    first : All (λ a. All (IsBefore a) rest) page
    bounded : length page ≤ page_size limit
    full : (rest ≡ []) ⊎ (length page ≡ page_size limit)

  effective_limit_lem : (limit : ℕ) → effective_limit env limit ≡ page_size limit
  effective_limit_lem zero = refl
  effective_limit_lem (suc n) = ground arith

  -- Whatever rows the table holds: where `Pending` returns, it returns rows that wait, in the order of
  -- their ids, none of which is above that of a row that waits and is not returned, and as many as the
  -- limit says, 100 for 0, or all of them.
  pub pending-IsPage :
      (limit : ℕ) (w : World) (items : List QueueItem)
      → (pending env limit w).0 ≡ ok items
      → IsPage limit w.queue items
  pending-IsPage limit w items h =
      let n : ℕ = page_size limit in
      let waiting : List QueueRow = pending_rows w.queue in
      let sorted : List QueueRow = sort_by_id waiting in
      let all : All IsPending sorted = sort-All IsPending waiting (pending_rows-All w.queue) in
      record {
        page = take n sorted;
        rest = drop n sorted;
        others = others_of w.queue;
        returned =
            pending-eq-ok env limit w items h
            ∙ ap (λ k. map (scanned env) (take k sorted)) (effective_limit_lem limit);
        split =
            subst (λ l. Permᴰ (l ++ others_of w.queue) w.queue) (sym (take-drop n sorted))
              (Permᴰ.trans (Permᴰ.append_right (others_of w.queue) (sort-perm waiting))
                (split-perm w.queue));
        page_waits = All-take IsPending n sorted all;
        rest_waits = All-drop IsPending n sorted all;
        others_do_not = others_of-All w.queue;
        ascending = Pairwise-take IsBefore n sorted (sort-Pairwise waiting);
        first = Pairwise-drop IsBefore n sorted (sort-Pairwise waiting);
        bounded = length-take n sorted;
        full = take-full n sorted;
      }
