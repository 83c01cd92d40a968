-- ===== src/Redstone/Waits.antt =====
-- src/redstone.rs: registrations, and waiters that never miss the level they wait for.
use compukter_vm.Prelude.{
  ℕ, ◌≤◌, ◌<◌, Bool, true, false, ◌&&◌, List, [], ◌∷◌, ◌++◌, length, any, All, Result, ok, err, ◌≡◌,
  refl, arith, Bool-cases, inl, inr, ◌⊎◌,
}
use compukter_vm.Redstone.{
  RedstoneError, InputPredicate, changed, exact, at_least, at_most, RedstoneWaiter, RedstoneDevice,
  WaitRegistration, ready, pending, predicate_matches, level_of, has_changed, is_waiter,
  register_changed, register_exact, register_at_least, register_at_most,
}
use compukter_vm.Redstone.Submit.{is_due, staying, OnSides, submitted, mask_of, levels_of}

abbrev pub is_level : InputPredicate → Bool
is_level changed = false
is_level (exact s) = true
is_level (at_least s) = true
is_level (at_most s) = true

-- A waiter for a level, waiting although its level is there.
abbrev pub is_missed : ℕ → RedstoneWaiter → Bool
is_missed levels w = is_level w.predicate && predicate_matches w.predicate (level_of levels w.side)

-- No two waiters have the same task and request.
abbrev pub Distinct : List RedstoneWaiter → Type 0
Distinct [] = Unit
Distinct (w ∷ ws) = (any (is_waiter w.task w.request) ws ≡ false) × Distinct ws

-- What holds of the device between calls.
abbrev pub Inv : RedstoneDevice → Type 0
Inv d =
    OnSides d.waiters
    × Distinct d.waiters
    × (length d.waiters ≤ d.maximum_waiters)
    × All (λ w. is_missed d.input_levels w ≡ false) d.waiters

-- A packet that marks every side whose level differs.
abbrev pub IsHonest : ℕ → RedstoneDevice → Type 0
IsHonest packet d =
    (side : ℕ)
    → side < 6
    → has_changed (mask_of packet) side ≡ false
    → level_of (levels_of packet) side ≡ level_of d.input_levels side

All-staying :
    (P : RedstoneWaiter → Type 0) (mask levels : ℕ) (ws : List RedstoneWaiter)
    → All P ws
    → All P (staying mask levels ws)
unfolding staying
All-staying P mask levels [] h = tt
All-staying P mask levels (w ∷ ws) h = elim (Bool-cases (is_due mask levels w)) [
  | inl e ↦ rw e (All-staying P mask levels ws h.1)
  | inr e ↦ rw e (h.0, All-staying P mask levels ws h.1)
]

any-staying :
    (p : RedstoneWaiter → Bool) (mask levels : ℕ) (ws : List RedstoneWaiter)
    → any p ws ≡ false
    → any p (staying mask levels ws) ≡ false
unfolding staying
any-staying p mask levels [] h = refl
any-staying p mask levels (w ∷ ws) h = elim (Bool-cases (is_due mask levels w)) [
  | inl e ↦ rw e (any-staying p mask levels ws (ground arith))
  | inr e ↦ rw e (ground (arith, any-staying p mask levels ws (ground arith)))
]

Distinct-staying :
    (mask levels : ℕ) (ws : List RedstoneWaiter) → Distinct ws → Distinct (staying mask levels ws)
unfolding staying
Distinct-staying mask levels [] h = tt
Distinct-staying mask levels (w ∷ ws) h = elim (Bool-cases (is_due mask levels w)) [
  | inl e ↦ rw e (Distinct-staying mask levels ws h.1)
  | inr e ↦ rw e (
    any-staying (is_waiter w.task w.request) mask levels ws h.0,
    Distinct-staying mask levels ws h.1,
  )
]

length-staying :
    (mask levels : ℕ) (ws : List RedstoneWaiter) → length (staying mask levels ws) ≤ length ws
unfolding staying
length-staying mask levels [] = omega arith
length-staying mask levels (w ∷ ws) = elim (Bool-cases (is_due mask levels w)) [
  | inl e ↦ rw e (omega (arith, length-staying mask levels ws))
  | inr e ↦ rw e (omega (arith, length-staying mask levels ws))
]

-- After an honest packet the waiters that stay have not missed their level.
module _ (packet : ℕ) (d : RedstoneDevice) (honest : IsHonest packet d) where
  stays_unmissed :
      (w : RedstoneWaiter)
      → w.side < 6
      → is_missed d.input_levels w ≡ false
      → is_due (mask_of packet) (levels_of packet) w ≡ false
      → is_missed (levels_of packet) w ≡ false
  stays_unmissed w side old stay = elim (Bool-cases (has_changed (mask_of packet) w.side)) [
    | inl e ↦ ground arith
    | inr e ↦ let q = honest w.side side e in rw q old
  ]

  staying-unmissed :
      (ws : List RedstoneWaiter)
      → OnSides ws
      → All (λ w. is_missed d.input_levels w ≡ false) ws
      → All
          (λ w. is_missed (levels_of packet) w ≡ false)
          (staying (mask_of packet) (levels_of packet) ws)
  unfolding staying
  staying-unmissed [] s h = tt
  staying-unmissed (w ∷ ws) s h = elim (Bool-cases (is_due (mask_of packet) (levels_of packet) w)) [
    | inl e ↦ rw e (staying-unmissed ws s.1 h.1)
    | inr e ↦ rw e (stays_unmissed w s.0 h.0 e, staying-unmissed ws s.1 h.1)
  ]

  pub submitted-Inv : Inv d → Inv (submitted packet d)
  submitted-Inv (s, u, l, m) = (
    All-staying (λ w. w.side < 6) (mask_of packet) (levels_of packet) d.waiters s,
    Distinct-staying (mask_of packet) (levels_of packet) d.waiters u,
    omega (arith, length-staying (mask_of packet) (levels_of packet) d.waiters),
    staying-unmissed d.waiters s m,
  )

-- One of the four registrations, with the predicate and the flag that it passes to `register`.
pub data Registration : Type 0 where
  on_change : Registration
  on_exact on_at_least on_at_most : ℕ → Registration

abbrev pub predicate_of : Registration → InputPredicate
predicate_of on_change = changed
predicate_of (on_exact s) = exact s
predicate_of (on_at_least s) = at_least s
predicate_of (on_at_most s) = at_most s

abbrev pub call_register :
    Registration
    → (task request side : ℕ) → RedstoneDevice
    → Result RedstoneError WaitRegistration × RedstoneDevice
call_register on_change task request side = register_changed task request side
call_register (on_exact s) task request side = register_exact task request side s
call_register (on_at_least s) task request side = register_at_least task request side s
call_register (on_at_most s) task request side = register_at_most task request side s

abbrev pub with_waiter : RedstoneWaiter → RedstoneDevice → RedstoneDevice
with_waiter w d = record d { waiters = d.waiters ++ w ∷ [] }

abbrev pub waiter_of : Registration → (task request side : ℕ) → RedstoneWaiter
waiter_of r task request side = record {
  task = task;
  request = request;
  side = side;
  predicate = predicate_of r;
}

-- A registration is answered at once and changes nothing, adds its waiter, or fails and changes nothing.
abbrev pub Registers : Registration → (task request side : ℕ) → RedstoneDevice → Type 0
Registers r task request side d =
    ((is_level (predicate_of r) ≡ true)
      × (predicate_matches (predicate_of r) (level_of d.input_levels side) ≡ true)
      × (call_register r task request side d ≡ (ok (ready (level_of d.input_levels side)), d)))
    ⊎ ((call_register r task request side d
          ≡ (ok pending, with_waiter (waiter_of r task request side) d))
        × Inv (with_waiter (waiter_of r task request side) d))
    ⊎ ((e : RedstoneError) × (call_register r task request side d ≡ (err e, d)))

module _ (task request side : ℕ) (p : InputPredicate) (d : RedstoneDevice) (v : Inv d) where
  abbrev waiter : RedstoneWaiter
  waiter = record { task = task; request = request; side = side; predicate = p }

  abbrev Outcome : Result RedstoneError WaitRegistration × RedstoneDevice → Type 0
  Outcome out =
      ((is_level p ≡ true)
        × (predicate_matches p (level_of d.input_levels side) ≡ true)
        × (out ≡ (ok (ready (level_of d.input_levels side)), d)))
      ⊎ ((out ≡ (ok pending, with_waiter waiter d)) × Inv (with_waiter waiter d))
      ⊎ ((e : RedstoneError) × (out ≡ (err e, d)))
