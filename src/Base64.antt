-- ===== src/Base64.antt =====
-- `base64.StdEncoding`: the standard alphabet, with padding.
pub mod RoundTrip
use it_portal_agent.Prelude.{
  ℕ, ◌+◌, ◌-◌, ◌*◌, ◌/◌, ◌%◌, ◌&&◌, ◌||◌, Option, none, some, [], ◌∷◌, ltb, leb, ◌==◌,
  if◌then◌else◌,
}
use it_portal_agent.Text.{Text, text, is_empty}
use it_portal_agent.World.{external, Result, ok, err}

-- The letter of six bits.
unfoldable pub letter : ℕ → ℕ
letter n =
    if ltb n 26
    then n + 65
    else if ltb n 52
    then n + 71
    else if ltb n 62
    then n - 52 + 48
    else if n == 62
    then b'+'
    else b'/'

-- The six bits of a letter.
unfoldable pub bits : ℕ → Option ℕ
bits c =
    if leb 65 c && leb c 90
    then some (c - 65)
    else if leb 97 c && leb c 122
    then some (c - 71)
    else if leb 48 c && leb c 57
    then some (c - 48 + 52)
    else if c == b'+'
    then some 62
    else if c == b'/'
    then some 63
    else none

-- `EncodeToString`
unfoldable pub encode : Text → Text
unfolding letter
encode [] = []
encode (a ∷ []) = letter (a / 4) ∷ letter (a % 4 * 16) ∷ b'=' ∷ b'=' ∷ []
encode (a ∷ b ∷ []) =
    letter (a / 4) ∷ letter (a % 4 * 16 + b / 16) ∷ letter (b % 16 * 4) ∷ b'=' ∷ []
encode (a ∷ b ∷ c ∷ rest) =
    letter (a / 4)
    ∷ letter (a % 4 * 16 + b / 16)
    ∷ letter (b % 16 * 4 + c / 64)
    ∷ letter (c % 64)
    ∷ encode rest

-- `DecodeString` passes over line ends wherever they stand.
unfoldable pub without_newlines : Text → Text
without_newlines [] = []
without_newlines (c ∷ t) =
    let rest = without_newlines t in if c == 10 || c == 13 then rest else c ∷ rest

unfoldable pub one_byte : Option ℕ → Option ℕ → Option Text
one_byte (some a) (some b) = some ((a * 4 + b / 16) ∷ [])
one_byte _ _ = none

unfoldable pub two_bytes : Option ℕ → Option ℕ → Option ℕ → Option Text
two_bytes (some a) (some b) (some c) = some ((a * 4 + b / 16) ∷ (b % 16 * 16 + c / 4) ∷ [])
two_bytes _ _ _ = none

unfoldable pub three_bytes : Option ℕ → Option ℕ → Option ℕ → Option ℕ → Option Text → Option Text
three_bytes (some a) (some b) (some c) (some d) (some rest) =
    some ((a * 4 + b / 16) ∷ (b % 16 * 16 + c / 4) ∷ (c % 4 * 64 + d) ∷ rest)
three_bytes _ _ _ _ _ = none

-- The groups of four letters; padding is accepted at the end only. Bits that the last letter holds
-- beyond the last byte are dropped, as the decoder does that is not strict.
unfoldable pub decode_groups : Text → Option Text
unfolding bits one_byte two_bytes three_bytes
decode_groups [] = some []
decode_groups (a ∷ b ∷ c ∷ d ∷ rest) =
    let more = decode_groups rest in
    if d == b'='
    then (if is_empty rest
        then (if c == b'='
            then one_byte (bits a) (bits b)
            else two_bytes (bits a) (bits b) (bits c))
        else none)
    else three_bytes (bits a) (bits b) (bits c) (bits d) more
decode_groups _ = none

-- `DecodeString`. The error's text leaves out the offset.
unfoldable pub decode : Text → Result Text
unfolding decode_groups without_newlines
decode t = elim (decode_groups (without_newlines t)) [
  | none ↦ err (external (text "illegal base64 data"))
  | some bytes ↦ ok bytes
]
