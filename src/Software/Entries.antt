-- ===== src/Software/Entries.antt =====
-- `NormalizeAndDeduplicate` of internal/software/normalize.go as a whole: which records its result
-- has, and in which order.
use it_portal_agent.Prelude.{
  Pairwise, All-map, All-of, ◌≡◌, refl, sym, ap, ◌∙◌, Bool, true, false, not, ◌||◌, ◌&&◌, List, [],
  ◌∷◌, map, arith, inl, inr, All, Bool-cases,
}
use it_portal_agent.Text.{Text, text_eq, text_eq_iff, is_empty}
use it_portal_agent.Software.{
  Installation, Entries, less, fingerprint, replaces, add_entry, deduplicate,
  normalize_installation, normalize_and_deduplicate,
}
use it_portal_agent.Software.Order.{less-IsOrder}
use it_portal_agent.Sorting.{insert_sorted, sort}
use it_portal_agent.Sorting.Laws.{IsSorted, sort-All, sort-IsSorted, sort-Pairwise}

has_key : Text → Entries → Bool
has_key f [] = false
has_key f ((g, i) ∷ m) = text_eq f g || has_key f m

add_entry-All {κ} :
    (P : Text × Installation → Type κ) (f : Text) (i : Installation) (m : Entries)
    → P (f, i)
    → All P m
    → All P (add_entry f i m)
unfolding add_entry
add_entry-All P f i [] p h = (p, tt)
add_entry-All P f i ((g, j) ∷ m) p h = elim (Bool-cases (text_eq f g)) [
  | inl e ↦ rw e (elim (Bool-cases (replaces i j)) [
    | inl r ↦ rw r (rw (sym ((text_eq_iff f g).0 e)) p, h.1)
    | inr r ↦ rw r h
  ])
  | inr e ↦ rw e (h.0, add_entry-All P f i m p h.1)
]

add_entry-has_key :
    (f g : Text) (i : Installation) (m : Entries)
    → has_key f (add_entry g i m) ≡ (text_eq f g || has_key f m)
unfolding add_entry has_key
add_entry-has_key f g i [] = refl
add_entry-has_key f g i ((h, j) ∷ m) = elim (Bool-cases (text_eq g h)) [
  | inl e ↦ rw e (ground (arith, text_eq_iff g h))
  | inr e ↦ rw e (ground (arith, add_entry-has_key f g i m))
]

-- The keys of two entries differ.
abbrev OtherKey : Text × Installation → Text × Installation → Type 0
OtherKey a b = text_eq a.0 b.0 ≡ false

add_entry-Pairwise :
    (f : Text) (i : Installation) (m : Entries)
    → Pairwise OtherKey m
    → Pairwise OtherKey (add_entry f i m)
unfolding add_entry
add_entry-Pairwise f i [] h = (tt, tt)
add_entry-Pairwise f i ((g, j) ∷ m) h = elim (Bool-cases (text_eq f g)) [
  | inl e ↦ rw e h
  | inr e ↦ rw e (
    add_entry-All (OtherKey (g, j)) f i m (ground (arith, text_eq_iff f g, text_eq_iff g f)) h.0,
    add_entry-Pairwise f i m h.1,
  )
]

module _ (sha256 lower_unicode : Text → Text) where
  -- The entry is a named record under its own fingerprint.
  abbrev IsEntry : Text × Installation → Type 0
  IsEntry (f, i) = (f ≡ fingerprint sha256 lower_unicode i) × (is_empty i.name ≡ false)

  -- A record with this fingerprint is in the list.
  pub listed : Text → List Installation → Bool
  listed f [] = false
  listed f (i ∷ l) = text_eq f (fingerprint sha256 lower_unicode i) || listed f l

  -- The normal form of some record of the list has a name, and this fingerprint.
  pub offered : Text → List Installation → Bool
  offered f [] = false
  offered f (item ∷ items) =
      (not (is_empty (normalize_installation item).name)
        && text_eq f (fingerprint sha256 lower_unicode (normalize_installation item)))
      || offered f items

  -- The entry made for the record, if one is, is as the predicate says.
  abbrev Fits {κ} : (Text × Installation → Type κ) → Installation → Type κ
  Fits P i =
      is_empty (normalize_installation i).name ≡ false
      → P (fingerprint sha256 lower_unicode (normalize_installation i), normalize_installation i)

  deduplicate-All {κ} :
      (P : Text × Installation → Type κ)
      → (items : List Installation) → All (Fits P) items
      → (m : Entries) → All P m
      → All P (deduplicate sha256 lower_unicode items m)
  unfolding deduplicate
  deduplicate-All P [] p m h = h
  deduplicate-All P (item ∷ items) p m h =
      elim (Bool-cases (is_empty (normalize_installation item).name)) [
        | inl e ↦ rw e (deduplicate-All P items p.1 m h)
        | inr e ↦ rw e (
            deduplicate-All P items p.1
              (add_entry (fingerprint sha256 lower_unicode (normalize_installation item))
                (normalize_installation item) m)
              (add_entry-All P (fingerprint sha256 lower_unicode (normalize_installation item))
                (normalize_installation item) m (p.0 e) h))
      ]

  deduplicate-Pairwise :
      (items : List Installation) (m : Entries)
      → Pairwise OtherKey m
      → Pairwise OtherKey (deduplicate sha256 lower_unicode items m)
  unfolding deduplicate
  deduplicate-Pairwise [] m h = h
  deduplicate-Pairwise (item ∷ items) m h =
      elim (Bool-cases (is_empty (normalize_installation item).name)) [
        | inl e ↦ rw e (deduplicate-Pairwise items m h)
        | inr e ↦ rw e (
            deduplicate-Pairwise items
              (add_entry (fingerprint sha256 lower_unicode (normalize_installation item))
                (normalize_installation item) m)
              (add_entry-Pairwise (fingerprint sha256 lower_unicode (normalize_installation item))
                (normalize_installation item) m h))
      ]

  deduplicate-has_key :
      (f : Text) (items : List Installation) (m : Entries)
      → has_key f (deduplicate sha256 lower_unicode items m) ≡ (offered f items || has_key f m)
  unfolding deduplicate offered
  deduplicate-has_key f [] m = refl
  deduplicate-has_key f (item ∷ items) m =
      elim (Bool-cases (is_empty (normalize_installation item).name)) [
        | inl e ↦ rw e (deduplicate-has_key f items m)
        | inr e ↦
            rw
              (
                e,
                deduplicate-has_key f items (
                    add_entry (fingerprint sha256 lower_unicode (normalize_installation item))
                      (normalize_installation item) m),
                add_entry-has_key f (fingerprint sha256 lower_unicode (normalize_installation item))
                    (normalize_installation item) m,
              )
              (ground arith)
      ]

  all_offered :
      (f : Text) (items : List Installation)
      → has_key f (deduplicate sha256 lower_unicode items []) ≡ offered f items
  unfolding has_key
  all_offered f items = rw (deduplicate-has_key f items []) (ground arith)

  abbrev pub item_of : Text × Installation → Installation
  item_of (f, i) = i

  listed_entries : (f : Text) (m : Entries) → All IsEntry m → listed f (map item_of m) ≡ has_key f m
  unfolding listed has_key
  listed_entries f [] h = refl
  listed_entries f ((g, i) ∷ m) h = rw (sym h.0.0, listed_entries f m h.1) refl

  -- The fingerprints of the two records differ.
  abbrev pub IsOther : Installation → Installation → Type 0
  IsOther a b =
      text_eq (fingerprint sha256 lower_unicode a) (fingerprint sha256 lower_unicode b) ≡ false

  IsOther-flip : (a b : Installation) → IsOther a b → IsOther b a
  IsOther-flip a b h = ground (
    arith,
    text_eq_iff (fingerprint sha256 lower_unicode a) (fingerprint sha256 lower_unicode b),
    text_eq_iff (fingerprint sha256 lower_unicode b) (fingerprint sha256 lower_unicode a),
  )

  IsOther-entries :
      (f : Text) (i : Installation) (m : Entries)
      → f ≡ fingerprint sha256 lower_unicode i
      → All (OtherKey (f, i)) m
      → All IsEntry m
      → All (IsOther i) (map item_of m)
  IsOther-entries f i [] e h k = tt
  IsOther-entries f i ((g, j) ∷ m) e h k =
      (rw (sym e, sym k.0.0) h.0, IsOther-entries f i m e h.1 k.1)

  Pairwise-entries :
      (m : Entries) → Pairwise OtherKey m → All IsEntry m → Pairwise IsOther (map item_of m)
  Pairwise-entries [] h k = tt
  Pairwise-entries ((f, i) ∷ m) h k =
      (IsOther-entries f i m k.0.0 h.0 k.1, Pairwise-entries m h.1 k.1)

  insert_sorted-listed :
      (f : Text) (a : Installation) (l : List Installation)
      → listed f (insert_sorted (less sha256 lower_unicode) a l)
        ≡ (text_eq f (fingerprint sha256 lower_unicode a) || listed f l)
  unfolding insert_sorted listed
  insert_sorted-listed f a [] = refl
  insert_sorted-listed f a (b ∷ l) = elim (Bool-cases (less sha256 lower_unicode a b)) [
    | inl e ↦ rw e refl
    | inr e ↦ rw (e, insert_sorted-listed f a l) (ground arith)
  ]

  sort-listed :
      (f : Text) (l : List Installation)
      → listed f (sort (less sha256 lower_unicode) l) ≡ listed f l
  unfolding sort listed
  sort-listed f [] = refl
  sort-listed f (a ∷ l) =
      insert_sorted-listed f a (sort (less sha256 lower_unicode) l)
      ∙ ap (λ b. text_eq f (fingerprint sha256 lower_unicode a) || b) (sort-listed f l)

  All-items :
      (P : Installation → Type 0) (m : Entries) → All (λ e. P (item_of e)) m → All P (map item_of m)
  All-items P [] h = tt
  All-items P ((f, i) ∷ m) h = (h.0, All-items P m h.1)

  -- All records of the map have different fingerprints.
  pub deduplicate-IsOther :
      (items : List Installation)
      → Pairwise IsOther (map item_of (deduplicate sha256 lower_unicode items []))
  deduplicate-IsOther items =
      Pairwise-entries (deduplicate sha256 lower_unicode items [])
        (deduplicate-Pairwise items [] tt)
        (deduplicate-All IsEntry items (All-of (Fits IsEntry) (λ i h. (refl, h)) items) [] tt)

  -- What the result of `NormalizeAndDeduplicate` owes to its argument.
  pub record IsInventory (items result : List Installation) : Type 0 where
    in_order : IsSorted (less sha256 lower_unicode) result
    distinct : Pairwise IsOther result
    named : All (λ i. is_empty i.name ≡ false) result
    complete : (f : Text) → listed f result ≡ offered f items
    pub kept :
        (p : Installation → Bool)
        → All (λ i. p (normalize_installation i) ≡ true) items
        → All (λ i. p i ≡ true) result

  -- The result of `normalize_and_deduplicate` is sorted by `less`; its records have pairwise different
  -- fingerprints and a name; its fingerprints are exactly those of the records of the argument that
  -- have a name in normal form; and a test that the normal forms of all these records pass, the records
  -- of the result pass.
  pub normalize_and_deduplicate-IsInventory :
      (items : List Installation)
      → IsInventory items (normalize_and_deduplicate sha256 lower_unicode items)
  unfolding normalize_and_deduplicate
  normalize_and_deduplicate-IsInventory items =
      let m = deduplicate sha256 lower_unicode items [] in
      let entries =
        deduplicate-All IsEntry items (All-of (Fits IsEntry) (λ i h. (refl, h)) items) [] tt in
      record {
        in_order =
            sort-IsSorted (less sha256 lower_unicode) (less-IsOrder sha256 lower_unicode)
              (map item_of m);
        distinct =
            sort-Pairwise (less sha256 lower_unicode) IsOther IsOther-flip (map item_of m)
              (deduplicate-IsOther items);
        named =
            sort-All (less sha256 lower_unicode) (λ i. is_empty i.name ≡ false) (map item_of m)
              (All-items (λ i. is_empty i.name ≡ false) m
                (All-map IsEntry (λ e. is_empty (item_of e).name ≡ false) (λ e h. h.1) m entries));
        complete =
            λ f. sort-listed f (map item_of m) ∙ listed_entries f m entries ∙ all_offered f items;
        kept = λ p h.
            sort-All (less sha256 lower_unicode) (λ i. p i ≡ true) (map item_of m)
              (All-items (λ i. p i ≡ true) m
                (deduplicate-All (λ e. p (item_of e) ≡ true) items
                  (All-map (λ i. p (normalize_installation i) ≡ true)
                    (Fits (λ e. p (item_of e) ≡ true)) (λ i k x. k) items h)
                  [] tt));
      }
