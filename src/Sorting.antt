-- ===== src/Sorting.antt =====
-- `sort.Slice`, as an insertion sort. On elements that the order tells apart every sort gives the
-- same result.
pub mod Laws
pub mod Reordered
use it_portal_agent.Prelude.{Bool, List, [], ◌∷◌, if◌then◌else◌}

module _ {ℓ} {A : Type ℓ} (less : A → A → Bool) where
  unfoldable pub insert_sorted : A → List A → List A
  insert_sorted a [] = a ∷ []
  insert_sorted a (b ∷ l) = let rest = insert_sorted a l in if less a b then a ∷ b ∷ l else b ∷ rest

  unfoldable pub sort : List A → List A
  sort [] = []
  sort (a ∷ l) = insert_sorted a (sort l)
