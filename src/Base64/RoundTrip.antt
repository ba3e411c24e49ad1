-- ===== src/Base64/RoundTrip.antt =====
-- What the encoder writes the decoder reads back.
use it_portal_agent.Prelude.{
  ℕ, ◌+◌, ◌*◌, ◌/◌, ◌%◌, ◌<◌, ◌≡◌, refl, false, some, [], ◌∷◌, arith, ◌==◌, All,
}
use it_portal_agent.Text.{Text}
use it_portal_agent.World.{ok}
use it_portal_agent.Base64.{
  letter, bits, encode, without_newlines, one_byte, two_bytes, three_bytes, decode_groups, decode,
}

bits-letter : (n : ℕ) → n < 64 → bits (letter n) ≡ some n
unfolding bits letter
bits-letter n h = ground arith

-- A letter is neither a line end nor the padding.
letter_plain : (n : ℕ) → n < 64 → 13 < letter n
unfolding letter
letter_plain n h = ground arith

letter-ne-pad : (n : ℕ) → n < 64 → (letter n == b'=') ≡ false
unfolding letter
letter-ne-pad n h = ground arith

without_newlines-cons :
    (c : ℕ) (t : Text) → 13 < c → without_newlines (c ∷ t) ≡ c ∷ without_newlines t
unfolding without_newlines
without_newlines-cons c t h = ground arith

without_newlines-quad :
    (a b c d : ℕ) (s t : Text)
    → 13 < a
    → 13 < b
    → 13 < c
    → 13 < d
    → without_newlines s ≡ t
    → without_newlines (a ∷ b ∷ c ∷ d ∷ s) ≡ a ∷ b ∷ c ∷ d ∷ t
without_newlines-quad a b c d s t ha hb hc hd e = rw (
  without_newlines-cons a _ ha,
  without_newlines-cons b _ hb,
  without_newlines-cons c _ hc,
  without_newlines-cons d _ hd,
  e,
)

abbrev pub IsBytes : Text → Type 0
IsBytes = All (λ b. b < 256)

without_newlines-encode : (t : Text) → IsBytes t → without_newlines (encode t) ≡ encode t
unfolding encode
without_newlines-encode [] h = unfold without_newlines in refl
without_newlines-encode (a ∷ []) h =
    without_newlines-quad (letter (a / 4)) (letter (a % 4 * 16)) b'=' b'=' [] []
      (letter_plain (a / 4) (omega arith)) (letter_plain (a % 4 * 16) (omega arith)) (omega arith)
      (omega arith) (unfold without_newlines in refl)
without_newlines-encode (a ∷ b ∷ []) h =
    without_newlines-quad (letter (a / 4)) (letter (a % 4 * 16 + b / 16)) (letter (b % 16 * 4)) b'='
      [] [] (letter_plain (a / 4) (omega arith)) (letter_plain (a % 4 * 16 + b / 16) (omega arith))
      (letter_plain (b % 16 * 4) (omega arith)) (omega arith) (unfold without_newlines in refl)
without_newlines-encode (a ∷ b ∷ c ∷ rest) h =
    without_newlines-quad (letter (a / 4)) (letter (a % 4 * 16 + b / 16))
      (letter (b % 16 * 4 + c / 64)) (letter (c % 64)) (encode rest) (encode rest)
      (letter_plain (a / 4) (omega arith)) (letter_plain (a % 4 * 16 + b / 16) (omega arith))
      (letter_plain (b % 16 * 4 + c / 64) (omega arith)) (letter_plain (c % 64) (omega arith))
      (without_newlines-encode rest h.1.1.1)

decode_groups-encode : (t : Text) → IsBytes t → decode_groups (encode t) ≡ some t
unfolding decode_groups encode
decode_groups-encode [] h = refl
decode_groups-encode (a ∷ []) h =
    rw (bits-letter (a / 4) (omega arith), bits-letter (a % 4 * 16) (omega arith))
      (unfold one_byte in ground arith)
decode_groups-encode (a ∷ b ∷ []) h =
    rw
      (
        letter-ne-pad (b % 16 * 4) (omega arith),
        bits-letter (a / 4) (omega arith),
        bits-letter (a % 4 * 16 + b / 16) (omega arith),
        bits-letter (b % 16 * 4) (omega arith),
      )
      (unfold two_bytes in ground arith)
decode_groups-encode (a ∷ b ∷ c ∷ rest) h =
    rw
      (
        letter-ne-pad (c % 64) (omega arith),
        bits-letter (a / 4) (omega arith),
        bits-letter (a % 4 * 16 + b / 16) (omega arith),
        bits-letter (b % 16 * 4 + c / 64) (omega arith),
        bits-letter (c % 64) (omega arith),
        decode_groups-encode rest h.1.1.1,
      )
      (unfold three_bytes in ground arith)

-- `DecodeString` undoes `EncodeToString` on every sequence of bytes.
pub decode-encode : (t : Text) → IsBytes t → decode (encode t) ≡ ok t
unfolding decode
decode-encode t h = rw (without_newlines-encode t h, decode_groups-encode t h, decode)
