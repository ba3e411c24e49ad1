-- ===== src/Software/Order.antt =====
-- The order of the result of `NormalizeAndDeduplicate` in internal/software/normalize.go.
use it_portal_agent.Prelude.{◌≡◌, inl, inr, Bool, true, false, arith, Bool-cases, if◌then◌else◌}
use it_portal_agent.Sorting.Laws.{IsOrder, Apart}
use it_portal_agent.Text.{Text, text_eq, text_eq_iff}
use it_portal_agent.Text.Order.{text_lt, text_lt_trans, text_lt_irrefl, text_lt_total}
use it_portal_agent.Software.{Installation, less, fingerprint, normalize}

-- The lexicographic order of pairs, as `less` compares them.
abbrev pair_lt : Text → Text → Text → Text → Bool
pair_lt r x s y = if text_eq r s then text_lt x y else text_lt r s

pair_lt_trans :
    (r x s y t z : Text) → pair_lt r x s y ≡ true → pair_lt s y t z ≡ true → pair_lt r x t z ≡ true
pair_lt_trans r x s y t z h k = ground (
  arith,
  text_eq_iff r s,
  text_eq_iff s t,
  text_eq_iff r t,
  text_lt_trans x y z,
  text_lt_trans r s t,
  text_lt_trans s t s,
  text_lt_irrefl s,
  text_lt_irrefl r,
)

pair_lt_total :
    (r x s y : Text) → text_eq x y ≡ false → pair_lt r x s y ≡ false → pair_lt s y r x ≡ true
pair_lt_total r x s y d h =
    ground (arith, text_eq_iff r s, text_eq_iff s r, text_lt_total x y, text_lt_total r s)

module _ (sha256 lower_unicode : Text → Text) where
  pub less-IsOrder : IsOrder (less sha256 lower_unicode)
  unfolding less
  less-IsOrder = record {
    trans = λ a b c.
        pair_lt_trans (normalize sha256 lower_unicode a.name) (fingerprint sha256 lower_unicode a)
          (normalize sha256 lower_unicode b.name) (fingerprint sha256 lower_unicode b)
          (normalize sha256 lower_unicode c.name) (fingerprint sha256 lower_unicode c);
    irrefl = λ a. ground (
      arith,
      text_lt_irrefl (normalize sha256 lower_unicode a.name),
      text_lt_irrefl (fingerprint sha256 lower_unicode a),
    );
  }

  less_total :
      (a b : Installation)
      → text_eq (fingerprint sha256 lower_unicode a) (fingerprint sha256 lower_unicode b) ≡ false
      → less sha256 lower_unicode a b ≡ false
      → less sha256 lower_unicode b a ≡ true
  unfolding less
  less_total a b =
      pair_lt_total (normalize sha256 lower_unicode a.name) (fingerprint sha256 lower_unicode a)
        (normalize sha256 lower_unicode b.name) (fingerprint sha256 lower_unicode b)

  -- Records with different fingerprints are told apart.
  pub less-Apart :
      (a b : Installation)
      → text_eq (fingerprint sha256 lower_unicode a) (fingerprint sha256 lower_unicode b) ≡ false
      → Apart (less sha256 lower_unicode) a b
  less-Apart a b d = elim (Bool-cases (less sha256 lower_unicode a b)) [
    | inl e ↦ inl e
    | inr e ↦ inr (less_total a b d e)
  ]
