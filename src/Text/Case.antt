-- ===== src/Text/Case.antt =====
-- Upper and lower case on the bytes of a text. `lower_unicode` and `upper_unicode` are the results for
-- texts that are not ASCII.
use it_portal_agent.Prelude.{ℕ, ◌+◌, ◌-◌, Bool, true, ◌&&◌, [], ◌∷◌, map, ltb, leb, if◌then◌else◌}
use it_portal_agent.Text.{Text, text_eq}

unfoldable pub is_ascii : Text → Bool
is_ascii [] = true
is_ascii (b ∷ t) = ltb b 128 && is_ascii t

unfoldable pub lower_byte : ℕ → ℕ
lower_byte b = if leb b'A' b && leb b b'Z' then b + 32 else b

-- `strings.ToLower`
unfoldable pub to_lower : (Text → Text) → Text → Text
unfolding is_ascii lower_byte
to_lower lower_unicode t = if is_ascii t then map lower_byte t else lower_unicode t

unfoldable pub upper_byte : ℕ → ℕ
upper_byte b = if leb b'a' b && leb b b'z' then b - 32 else b

-- `strings.ToUpper`
unfoldable pub to_upper : (Text → Text) → Text → Text
unfolding is_ascii upper_byte
to_upper upper_unicode t = if is_ascii t then map upper_byte t else upper_unicode t

-- `strings.EqualFold` with an ASCII text that has no k and no s, the letters that fold with others
-- outside ASCII.
unfoldable pub equal_fold : Text → Text → Bool
unfolding lower_byte
equal_fold s t = text_eq (map lower_byte s) (map lower_byte t)
