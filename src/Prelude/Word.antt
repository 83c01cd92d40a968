-- ===== src/Prelude/Word.antt =====
-- Checked arithmetic on `usize` and `u64`, which are 64 bits wide, and on `u32`.
use Prim.Native.Nat.{ℕ, ◌+◌, ◌-◌, ◌<◌}
use mathlib.Core.Option.{Option, none, some}
use mathlib.Core.Path.{◌≡◌}
use native.Mathlib.Omega.{arith}
use compukter_vm.Prelude.Tests.{ltb, leb, if◌then◌else◌}

abbrev pub word : ℕ
word = 18446744073709551616

abbrev pub half_word : ℕ
half_word = 4294967296

-- `a.checked_add(b)` of a `usize` or a `u64`
abbrev pub checked_add : ℕ → ℕ → Option ℕ
checked_add a b = if ltb (a + b) word then some (a + b) else none

-- `a.checked_add(b)` of a `u32`
abbrev pub checked_add_u32 : ℕ → ℕ → Option ℕ
checked_add_u32 a b = if ltb (a + b) half_word then some (a + b) else none

-- `a - b`, which panics below 0
abbrev pub checked_sub : ℕ → ℕ → Option ℕ
checked_sub a b = if leb b a then some (a - b) else none

pub checked_add-some : (a b c : ℕ) → checked_add a b ≡ some c → (c ≡ a + b) × (a + b < word)
checked_add-some a b c h = ground arith

pub checked_sub-add : (a b : ℕ) → checked_sub (a + b) a ≡ some b
checked_sub-add a b = ground arith
