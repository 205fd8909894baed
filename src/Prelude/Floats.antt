-- ===== src/Prelude/Floats.antt =====
-- Python's floats as an interface: the program's formulas are kept as they are written, and a
-- theorem states the laws of the order or of the operations that it uses. `lit n k` is the literal
-- n / 10 ** k.
use openclaw_memory_os.Prelude.{ℕ, Bool, nat_eq, string_eq}

pub record Floats : Type 1 where
  pub F : Type 0
  pub lit : ℕ → ℕ → F
  pub add : F → F → F
  pub sub : F → F → F
  pub mul : F → F → F
  pub div : F → F → F
  pub neg : F → F
  pub exp : F → F
  pub lt : F → F → Bool
  pub is_nan : F → Bool
