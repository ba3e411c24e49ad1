-- ===== src/Text/Space.antt =====
-- `strings.TrimSpace`, `strings.Fields` and `strings.Join` on the bytes of a text.
--
-- White space is `unicode.IsSpace`. Its runes are found at the bytes that begin them; no such byte
-- occurs inside another rune, so that a search byte by byte finds what decoding finds.
use it_portal_agent.Prelude.{
  ℕ, zero, suc, Bool, ◌&&◌, ◌||◌, List, [], ◌∷◌, ◌++◌, ◌==◌, leb, if◌then◌else◌,
}
use it_portal_agent.Text.{Text, is_empty}

abbrev in_range : ℕ → ℕ → ℕ → Bool
in_range lo hi b = leb lo b && leb b hi

-- The second byte behind 0xc2: U+0085 and U+00A0.
unfoldable pub after_c2 : Text → ℕ
after_c2 [] = 0
after_c2 (b ∷ t) = if b == 0x85 || b == 0xa0 then 2 else 0

-- The bytes behind 0xe1, 0xe2 and 0xe3: U+1680, U+2000 to U+200A, U+2028, U+2029, U+202F, U+205F and
-- U+3000.
unfoldable pub after_e : ℕ → Text → ℕ
after_e a (b ∷ c ∷ t) =
    if (a == 0xe1 && b == 0x9a && c == 0x80)
      || (a == 0xe2 && b == 0x80 && (in_range 0x80 0x8a c || in_range 0xa8 0xa9 c || c == 0xaf))
      || (a == 0xe2 && b == 0x81 && c == 0x9f)
      || (a == 0xe3 && b == 0x80 && c == 0x80)
    then 3
    else 0
after_e a _ = 0

-- How many bytes the white-space rune at the front has; 0 if there is none.
unfoldable pub space_width : Text → ℕ
unfolding after_c2 after_e
space_width [] = 0
space_width (b ∷ t) =
    if b == 32 || in_range 9 13 b
    then 1
    else if b == 0xc2
    then after_c2 t
    else if in_range 0xe1 0xe3 b
    then after_e b t
    else 0

-- What is left once `k` bytes and the white space behind them are passed over.
unfoldable pub trim_left : ℕ → Text → Text
trim_left k [] = []
trim_left (suc k) (b ∷ t) = trim_left k t
trim_left zero (b ∷ t) = elim (space_width (b ∷ t)) [ zero ↦ b ∷ t | suc k ↦ trim_left k t ]

-- Without white space at the end: cut at the first place behind which there is nothing else.
unfoldable pub trim_right : Text → Text
unfolding trim_left
trim_right [] = []
trim_right (b ∷ t) =
    let rest = trim_right t in if is_empty (trim_left zero (b ∷ t)) then [] else b ∷ rest

-- `strings.TrimSpace`, `bytes.TrimSpace`
unfoldable pub trim_space : Text → Text
unfolding trim_right trim_left space_width
trim_space t = trim_right (trim_left zero t)

-- A field that is not empty.
abbrev pub nonempty : Text → List Text
nonempty [] = []
nonempty (b ∷ t) = (b ∷ t) ∷ []

-- The fields of what is left once `k` bytes are passed over, with the bytes of the present field.
unfoldable pub fields_from : ℕ → Text → Text → List Text
fields_from k field [] = nonempty field
fields_from (suc k) field (b ∷ t) = fields_from k field t
fields_from zero field (b ∷ t) = elim (space_width (b ∷ t)) [
  | zero ↦ fields_from zero (field ++ (b ∷ [])) t
  | suc k ↦ nonempty field ++ fields_from k [] t
]

-- `strings.Fields`
unfoldable pub fields : Text → List Text
unfolding fields_from space_width
fields t = fields_from zero [] t

-- `strings.Join`
unfoldable pub join : Text → List Text → Text
join sep [] = []
join sep (t ∷ []) = t
join sep (t ∷ u ∷ ts) = t ++ (sep ++ join sep (u ∷ ts))

-- `strings.TrimRight(value, "/")`
unfoldable pub trim_slashes : Text → Text
trim_slashes [] = []
trim_slashes (b ∷ t) =
    let rest = trim_slashes t in if is_empty rest && b == b'/' then [] else b ∷ rest
