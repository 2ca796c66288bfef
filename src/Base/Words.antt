-- ===== src/Base/Words.antt =====
-- Arithmetic of `uint64_t` and `size_t`: natural numbers below 2 ^ 64, with the wrap written out.
use Prim.Native.Nat.{ℕ, ◌+◌, ◌-◌, ◌%◌, ◌^◌, ◌≤◌, ◌<◌}
use mathlib.Core.Path.{◌≡◌}
use native.Mathlib.Omega.{arith}

abbrev pub u64_mod : ℕ
u64_mod = 2 ^ 64

infixl 65 ◌+₆₄◌ ◌-₆₄◌
unfoldable pub ◌+₆₄◌ : ℕ → ℕ → ℕ
a +₆₄ b = (a + b) % u64_mod

unfoldable pub ◌-₆₄◌ : ℕ → ℕ → ℕ
a -₆₄ b = (a + u64_mod - b) % u64_mod

pub +₆₄-eq : (a b : ℕ) → a + b < 2 ^ 64 → a +₆₄ b ≡ a + b
unfolding ◌+₆₄◌
+₆₄-eq a b h = omega arith

pub -₆₄-eq : (a b : ℕ) → a < 2 ^ 64 → b ≤ a → a -₆₄ b ≡ a - b
unfolding ◌-₆₄◌
-₆₄-eq a b h l = omega arith
