-- ===== src/Software/Iteration.antt =====
-- The second loop of `NormalizeAndDeduplicate` in internal/software/normalize.go, which goes through a
-- map in an order that Go leaves open.
use mathlib.Core.List.{Permᴰ}
use it_portal_agent.Prelude.{◌≡◌, ap, sym, List, [], ◌∷◌, map, All-map, Pairwise}
use it_portal_agent.Sorting.{sort}
use it_portal_agent.Sorting.Laws.{Apart, sort-eq_of_perm}
use it_portal_agent.Text.{Text}
use it_portal_agent.Software.{Installation, Entries, less, deduplicate, normalize_and_deduplicate}
use it_portal_agent.Software.Order.{less-IsOrder, less-Apart}
use it_portal_agent.Software.Entries.{item_of, IsOther, deduplicate-IsOther}

map-perm {ℓ κ} :
    {A : Type ℓ} {B : Type κ} (f : A → B) {l m : List A} → Permᴰ l m → Permᴰ (map f l) (map f m)
map-perm f Permᴰ.nil = Permᴰ.nil
map-perm f (Permᴰ.cons e p) = Permᴰ.cons (ap f e) (map-perm f p)
map-perm f (Permᴰ.swap e g) = Permᴰ.swap (ap f e) (ap f g)
map-perm f (Permᴰ.trans p q) = Permᴰ.trans (map-perm f p) (map-perm f q)

module _ (sha256 lower_unicode : Text → Text) where
  Pairwise-Apart :
      (l : List Installation)
      → Pairwise (IsOther sha256 lower_unicode) l
      → Pairwise (Apart (less sha256 lower_unicode)) l
  Pairwise-Apart [] h = tt
  Pairwise-Apart (a ∷ l) h = (
    All-map (IsOther sha256 lower_unicode a) (Apart (less sha256 lower_unicode) a)
        (less-Apart sha256 lower_unicode a) l h.0,
    Pairwise-Apart l h.1,
  )

  -- In whatever order the second loop goes through the entries of the map, the sorted result is the
  -- same.
  pub iteration_order_irrelevant :
      (items : List Installation) (entries : Entries)
      → Permᴰ (deduplicate sha256 lower_unicode items []) entries
      → sort (less sha256 lower_unicode) (map (item_of sha256 lower_unicode) entries)
        ≡ normalize_and_deduplicate sha256 lower_unicode items
  unfolding normalize_and_deduplicate
  iteration_order_irrelevant items entries p = sym (
      sort-eq_of_perm (less sha256 lower_unicode) (less-IsOrder sha256 lower_unicode)
        (map-perm (item_of sha256 lower_unicode) p)
        (Pairwise-Apart _ (deduplicate-IsOther sha256 lower_unicode items)))
