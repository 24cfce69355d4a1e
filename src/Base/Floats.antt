-- ===== src/Base/Floats.antt =====
-- The floating-point numbers of the program: a type and the operations that the program calls.
-- Nothing but these is known of them; what a theorem relies on is a law that it names.
use Prim.Native.Nat.{ℕ}
use mathlib.Core.Bool.{Bool}

pub record Floats : Type 1 where
  pub Float : Type 0
  -- `a / b` for integers, `b` not zero; a literal is the quotient that it is written as
  pub ratio : ℕ → ℕ → Float
  pub sub : Float → Float → Float
  -- `round(x, 4)`
  pub round4 : Float → Float
  pub ltb : Float → Float → Bool
  -- `a / b`, `b` not zero
  pub div : Float → Float → Float
  pub is_zero : Float → Bool
