-- ===== src/FloatingPoint.antt =====
-- `float64`, as an interface: a type with the operations that the program uses.
use it_portal_agent.Prelude.{ℕ, ◌*◌, Bool}

pub record Floats (F : Type 0) : Type 0 where
  pub of_nat : ℕ → F
  -- the constant n / 100
  pub hundredths : ℕ → F
  pub less : F → F → Bool
  -- `>=`, which is false where a side is not a number
  pub at_least : F → F → Bool
  pub equal : F → F → Bool
  pub plus : F → F → F
  pub minus : F → F → F
  pub times : F → F → F
  pub divided : F → F → F
  -- the conversion of a positive number to an integer
  pub truncated : F → ℕ

-- `bytesToGB` of internal/inventory/intelligence.go
unfoldable pub bytes_to_gb : {F : Type 0} → Floats F → ℕ → F
bytes_to_gb fl value = fl.divided (fl.of_nat value) (fl.of_nat (1024 * 1024 * 1024))
