-- ===== src/Prelude/Bits.antt =====
-- `&` and `|` of unsigned integers of `w` bits.
use Prim.Native.Nat.{ℕ, zero, suc, ◌+◌, ◌*◌, ◌/◌, ◌%◌}
use mathlib.Core.Path.{◌≡◌, refl}
use mathlib.Core.Bool.{Bool, true, false, ◌&&◌, ◌||◌}
use native.Mathlib.Omega.{arith}
use compukter_vm.Prelude.Tests.{◌==◌}
use compukter_vm.Prelude.Lists.{weight}

unfoldable pub odd : ℕ → Bool
odd a = a % 2 == 1

unfoldable pub bit_and : ℕ → ℕ → ℕ → ℕ
bit_and zero a b = 0
bit_and (suc w) a b = weight (odd a && odd b) + 2 * bit_and w (a / 2) (b / 2)

unfoldable pub bit_or : ℕ → ℕ → ℕ → ℕ
bit_or zero a b = 0
bit_or (suc w) a b = weight (odd a || odd b) + 2 * bit_or w (a / 2) (b / 2)

halves : (b : ℕ) → b ≡ weight (odd b) + 2 * (b / 2)
unfolding odd
halves b = ground arith

and-has :
    (x y : Bool) (b h r : ℕ)
    → b ≡ weight y + 2 * h
    → weight (x && y) + 2 * r ≡ b
    → (r ≡ h) × (y ≡ true → x ≡ true)
and-has true y b h r e q = (omega arith, λ _. refl)
and-has false true b h r e q = absurd (omega arith)
and-has false false b h r e q = (omega arith, λ z. z)

has-and :
    (x y : Bool) (b h r : ℕ)
    → b ≡ weight y + 2 * h
    → r ≡ h
    → (y ≡ true → x ≡ true)
    → weight (x && y) + 2 * r ≡ b
has-and true y b h r e q i = omega arith
has-and false true b h r e q i = absurd (cc (i refl))
has-and false false b h r e q i = omega arith

-- Bits that `a` has of `b` and `b` of `c` are bits that `a` has of `c`.
pub bit_and_trans : (w a b c : ℕ) → bit_and w a b ≡ b → bit_and w b c ≡ c → bit_and w a c ≡ c
unfolding bit_and
bit_and_trans zero a b c h k = k
bit_and_trans (suc w) a b c h k =
    let (x, i) = and-has (odd a) (odd b) b (b / 2) (bit_and w (a / 2) (b / 2)) (halves b) h in
    let (y, j) = and-has (odd b) (odd c) c (c / 2) (bit_and w (b / 2) (c / 2)) (halves c) k in
    has-and (odd a) (odd c) c (c / 2) (bit_and w (a / 2) (c / 2)) (halves c)
      (bit_and_trans w (a / 2) (b / 2) (c / 2) x y) (λ o. i (j o))
