-- ===== src/Sorting/Laws.antt =====
-- The result of a sort: its order, and what it keeps.
use mathlib.Core.List.{Permᴰ}
use mathlib.Core.Path.{subst}
use it_portal_agent.Prelude.{
  ◌≡◌, ◌⊎◌, refl, sym, ◌∙◌, ap, Bool, true, false, List, [], ◌∷◌, arith, inl, inr, All, All-map,
  Pairwise, Bool-cases, length, suc,
}
use it_portal_agent.Sorting.{insert_sorted, sort}

-- A strict order.
pub record IsOrder {ℓ} {A : Type ℓ} (less : A → A → Bool) : Type ℓ where
  pub trans : (a b c : A) → less a b ≡ true → less b c ≡ true → less a c ≡ true
  pub irrefl : (a : A) → less a a ≡ false

module _ {ℓ κ} {A : Type ℓ} where
  pub All-perm : (P : A → Type κ) {l m : List A} → Permᴰ l m → All P l → All P m
  All-perm P Permᴰ.nil h = h
  All-perm P (Permᴰ.cons e p) h = (subst P e h.0, All-perm P p h.1)
  All-perm P (Permᴰ.swap e f) h = (subst P f h.1.0, (subst P e h.0, h.1.1))
  All-perm P (Permᴰ.trans p q) h = All-perm P q (All-perm P p h)

  module _ (R : A → A → Type κ) (flip : (a b : A) → R a b → R b a) where
    pub Pairwise-perm : {l m : List A} → Permᴰ l m → Pairwise R l → Pairwise R m
    Pairwise-perm Permᴰ.nil h = h
    Pairwise-perm (Permᴰ.cons {l₂ = m} e p) h =
        (subst (λ a. All (R a) m) e (All-perm (R _) p h.0), Pairwise-perm p h.1)
    Pairwise-perm (Permᴰ.swap {b = b} {b' = b'} {l = l} e f) h =
        subst (λ x. Pairwise R (x ∷ b' ∷ l)) f
          (subst (λ y. Pairwise R (b ∷ y ∷ l)) e ((flip _ b h.0.0, h.1.0), (h.0.1, h.1.1)))
    Pairwise-perm (Permᴰ.trans p q) h = Pairwise-perm q (Pairwise-perm p h)

module _ {ℓ} {A : Type ℓ} (less : A → A → Bool) where
  -- No later element is less than an earlier one.
  abbrev pub IsSorted : List A → Type 0
  IsSorted = Pairwise (λ a b. less b a ≡ false)

  -- One of the two is less than the other.
  abbrev pub Apart : A → A → Type 0
  Apart a b = (less a b ≡ true) ⊎ (less b a ≡ true)

  pub insert_sorted-All {κ} :
      (P : A → Type κ) (a : A) (l : List A) → P a → All P l → All P (insert_sorted less a l)
  unfolding insert_sorted
  insert_sorted-All P a [] p h = (p, tt)
  insert_sorted-All P a (b ∷ l) p h = elim (Bool-cases (less a b)) [
    | inl e ↦ rw e (p, h)
    | inr e ↦ rw e (h.0, insert_sorted-All P a l p h.1)
  ]

  pub sort-All {κ} : (P : A → Type κ) (l : List A) → All P l → All P (sort less l)
  unfolding sort
  sort-All P [] h = h
  sort-All P (a ∷ l) h = insert_sorted-All P a (sort less l) h.0 (sort-All P l h.1)

  length-insert_sorted : (a : A) (l : List A) → length (insert_sorted less a l) ≡ suc (length l)
  unfolding insert_sorted
  length-insert_sorted a [] = refl
  length-insert_sorted a (b ∷ l) = ground (arith, length-insert_sorted a l)

  pub length-sort : (l : List A) → length (sort less l) ≡ length l
  unfolding sort
  length-sort [] = refl
  length-sort (a ∷ l) = length-insert_sorted a (sort less l) ∙ ap suc (length-sort l)

  module _ {κ} (R : A → A → Type κ) (flip : (a b : A) → R a b → R b a) where
    insert_sorted-Pairwise :
        (a : A) (l : List A) → All (R a) l → Pairwise R l → Pairwise R (insert_sorted less a l)
    unfolding insert_sorted
    insert_sorted-Pairwise a [] h k = (tt, tt)
    insert_sorted-Pairwise a (b ∷ l) h k = elim (Bool-cases (less a b)) [
      | inl e ↦ rw e (h, k)
      | inr e ↦
          rw e (insert_sorted-All (R b) a l (flip a b h.0) k.0, insert_sorted-Pairwise a l h.1 k.1)
    ]

    -- A symmetric relation between all elements of a list holds in any order of it.
    pub sort-Pairwise : (l : List A) → Pairwise R l → Pairwise R (sort less l)
    unfolding sort
    sort-Pairwise [] h = h
    sort-Pairwise (a ∷ l) h =
        insert_sorted-Pairwise a (sort less l) (sort-All (R a) l h.0) (sort-Pairwise l h.1)

  module _ (order : IsOrder less) where
    -- Of two elements at most one is less than the other.
    asym : (a b : A) → less a b ≡ true → less b a ≡ false
    asym a b h = elim (Bool-cases (less b a)) [
      | inl e ↦ absurd (cc (order.trans a b a h e, order.irrefl a))
      | inr e ↦ e
    ]

    behind : (a b c : A) → less a b ≡ true → less c b ≡ false → less c a ≡ false
    behind a b c h k = elim (Bool-cases (less c a)) [
      | inl e ↦ absurd (cc (order.trans c a b e h))
      | inr e ↦ e
    ]

    insert_sorted-IsSorted : (a : A) (l : List A) → IsSorted l → IsSorted (insert_sorted less a l)
    unfolding insert_sorted
    insert_sorted-IsSorted a [] h = (tt, tt)
    insert_sorted-IsSorted a (b ∷ l) h = elim (Bool-cases (less a b)) [
      | inl e ↦ rw e (
        (
          asym a b e,
          All-map (λ c. less c b ≡ false) (λ c. less c a ≡ false) (λ c. behind a b c e) l h.0,
        ),
        h,
      )
      | inr e ↦
          rw e (insert_sorted-All (λ c. less c b ≡ false) a l e h.0, insert_sorted-IsSorted a l h.1)
    ]

    pub sort-IsSorted : (l : List A) → IsSorted (sort less l)
    unfolding sort
    sort-IsSorted [] = tt
    sort-IsSorted (a ∷ l) = insert_sorted-IsSorted a (sort less l) (sort-IsSorted l)

    -- Two insertions commute.
    insert_sorted_comm :
        (a b : A) (l : List A)
        → less a b ≡ true
        → insert_sorted less a (insert_sorted less b l)
          ≡ insert_sorted less b (insert_sorted less a l)
    unfolding insert_sorted
    insert_sorted_comm a b [] h = ground (arith, asym a b)
    insert_sorted_comm a b (c ∷ l) h =
        ground (arith, asym a b, order.trans a b c, insert_sorted_comm a b l)

    insert_sorted_swap :
        (a b : A) (l : List A)
        → Apart a b
        → insert_sorted less a (insert_sorted less b l)
          ≡ insert_sorted less b (insert_sorted less a l)
    insert_sorted_swap a b l (inl h) = insert_sorted_comm a b l h
    insert_sorted_swap a b l (inr h) = sym (insert_sorted_comm b a l h)

    Apart-flip : (a b : A) → Apart a b → Apart b a
    Apart-flip a b (inl h) = inr h
    Apart-flip a b (inr h) = inl h

    -- Elements that the order tells apart are sorted in one way, in whatever order they come.
    pub sort-eq_of_perm : {l m : List A} → Permᴰ l m → Pairwise Apart l → sort less l ≡ sort less m
    unfolding sort
    sort-eq_of_perm Permᴰ.nil h = refl
    sort-eq_of_perm (Permᴰ.cons {a = a} {l₂ = m} e p) h =
        ap (insert_sorted less a) (sort-eq_of_perm p h.1)
        ∙ ap (λ x. insert_sorted less x (sort less m)) e
    sort-eq_of_perm (Permᴰ.swap {a = a} {b = b} {b' = b'} {l = l} e f) h =
        insert_sorted_swap a b (sort less l) h.0.0
        ∙ ap (λ x. insert_sorted less b (insert_sorted less x (sort less l))) e
        ∙ ap (λ x. insert_sorted less x (insert_sorted less b' (sort less l))) f
    sort-eq_of_perm (Permᴰ.trans p q) h =
        sort-eq_of_perm p h ∙ sort-eq_of_perm q (Pairwise-perm Apart Apart-flip p h)
