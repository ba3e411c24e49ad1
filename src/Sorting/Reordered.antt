-- ===== src/Sorting/Reordered.antt =====
-- Two lists with the same elements, up to a relation, in different orders.
use mathlib.Core.List.{Permᴰ}
use it_portal_agent.Prelude.{◌≡◌, Bool, List, [], ◌∷◌, map, All, Pairwise}
use it_portal_agent.Sorting.{sort}
use it_portal_agent.Sorting.Laws.{IsOrder, Apart, sort-eq_of_perm}

-- The one list is a permutation of the other, with elements in the relation for each other.
pub data Reordered {ℓ κ} {A : Type ℓ} (R : A → A → Type κ) : List A → List A → Type (ℓ ⊔ κ) where
  nil : Reordered R [] []
  cons : {a b : A} {l m : List A} → R a b → Reordered R l m → Reordered R (a ∷ l) (b ∷ m)
  swap : {a b c d : A} {l : List A} → R a c → R b d → Reordered R (a ∷ b ∷ l) (d ∷ c ∷ l)
  trans : {l m n : List A} → Reordered R l m → Reordered R m n → Reordered R l n

module _ {ℓ κ μ} {A : Type ℓ} {B : Type κ} {R : A → A → Type μ} (f : A → B)
    (same : (a b : A) → R a b → f a ≡ f b) where
  pub map-Reordered : {l m : List A} → Reordered R l m → Permᴰ (map f l) (map f m)
  map-Reordered Reordered.nil = Permᴰ.nil
  map-Reordered (Reordered.cons {a = a} {b = b} r p) = Permᴰ.cons (same a b r) (map-Reordered p)
  map-Reordered (Reordered.swap {a = a} {b = b} {c = c} {d = d} r s) =
      Permᴰ.swap (same a c r) (same b d s)
  map-Reordered (Reordered.trans p q) = Permᴰ.trans (map-Reordered p) (map-Reordered q)

map-All {ℓ κ μ} :
    {A : Type ℓ} {B : Type κ} (f : A → B) (P : B → Type μ) (l : List A)
    → All (λ a. P (f a)) l
    → All P (map f l)
map-All f P [] h = h
map-All f P (a ∷ l) h = (h.0, map-All f P l h.1)

map-Pairwise {ℓ κ μ} :
    {A : Type ℓ} {B : Type κ} (f : A → B) (R : B → B → Type μ) (l : List A)
    → Pairwise (λ a b. R (f a) (f b)) l
    → Pairwise R (map f l)
map-Pairwise f R [] h = h
map-Pairwise f R (a ∷ l) h = (map-All f (R (f a)) l h.0, map-Pairwise f R l h.1)

module _ {ℓ κ μ} {A : Type ℓ} {B : Type κ} (less : B → B → Bool) (order : IsOrder less) (f : A → B)
    {R : A → A → Type μ} (same : (a b : A) → R a b → f a ≡ f b) where
  -- A sort of the images forgets the order, and what the images forget, where the order tells the
  -- images apart.
  pub sort-Reordered :
      {l m : List A}
      → Reordered R l m
      → Pairwise (λ a b. Apart less (f a) (f b)) l
      → sort less (map f l) ≡ sort less (map f m)
  sort-Reordered {l = l} p apart =
      sort-eq_of_perm less order (map-Reordered f same p) (map-Pairwise f (Apart less) l apart)
