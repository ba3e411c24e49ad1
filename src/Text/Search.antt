-- ===== src/Text/Search.antt =====
-- `strings.HasPrefix` and `strings.Contains`.
use it_portal_agent.Prelude.{Bool, true, false, ◌&&◌, ◌||◌, [], ◌∷◌, ◌==◌}
use it_portal_agent.Text.{Text}

unfoldable pub has_prefix : Text → Text → Bool
has_prefix t [] = true
has_prefix [] (p ∷ prefix) = false
has_prefix (b ∷ t) (p ∷ prefix) = b == p && has_prefix t prefix

unfoldable pub contains : Text → Text → Bool
unfolding has_prefix
contains [] part = has_prefix [] part
contains (b ∷ t) part = has_prefix (b ∷ t) part || contains t part
