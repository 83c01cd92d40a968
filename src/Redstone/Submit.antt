-- ===== src/Redstone/Submit.antt =====
-- src/redstone.rs: `submit_input` against a description of which waiters a packet wakes.
use Prim.Native.Nat.div
use mathlib.Core.List.{append_assoc, append-nil}
use compukter_vm.Prelude.{
  ℕ, zero, suc, ◌/◌, ◌%◌, ◌^◌, ◌≤◌, ◌<◌, Bool, true, false, ◌&&◌, ◌||◌, List, [], ◌∷◌, ◌++◌, All,
  count, ok, err, ltb, ◌==◌, if◌then◌else◌, ◌≡◌, refl, ◌∙◌, sym, ap, ap₂, arith, Bool-cases, inl,
  inr, ◌⊎◌,
}
use compukter_vm.Redstone.{
  reserved_bits, RedstoneWaiter, RedstoneWakeup, RedstoneDevice, validate_register, validate_side,
  predicate_matches, level_of, input, has_changed, wakeup, wake_loop, sort_by_key, is_empty, wake,
  submit_input, register_range, all_sides_range, input_level_range,
}
use compukter_vm.Redstone.Sorting.{IsSorted, sort-IsSorted, count-sort}

-- The packet wakes the waiter: its side changed and its predicate holds at the new level.
abbrev pub is_due : (mask levels : ℕ) → RedstoneWaiter → Bool
is_due mask levels w =
    has_changed mask w.side && predicate_matches w.predicate (level_of levels w.side)

-- The wakeups that are due, in the order of the waiters, and the waiters that stay.
unfoldable pub due : (mask levels : ℕ) → List RedstoneWaiter → List RedstoneWakeup
due mask levels [] = []
due mask levels (w ∷ ws) =
    if is_due mask levels w
    then wakeup w (level_of levels w.side) ∷ due mask levels ws
    else due mask levels ws

unfoldable pub staying : (mask levels : ℕ) → List RedstoneWaiter → List RedstoneWaiter
staying mask levels [] = []
staying mask levels (w ∷ ws) =
    if is_due mask levels w then staying mask levels ws else w ∷ staying mask levels ws

abbrev pub OnSides : List RedstoneWaiter → Type 0
OnSides = All (λ w. w.side < 6)

wake_loop-exact :
    (mask levels : ℕ) (woken : List RedstoneWakeup) (waiting ws : List RedstoneWaiter)
    → OnSides ws
    → wake_loop mask levels woken waiting ws
      ≡ ok (woken ++ due mask levels ws, waiting ++ staying mask levels ws)
unfolding wake_loop due staying input validate_side
wake_loop-exact mask levels woken waiting [] h =
    ap₂ (λ a b. ok (a, b)) (sym (append-nil woken)) (sym (append-nil waiting))
wake_loop-exact mask levels woken waiting (w ∷ ws) h =
    let side : ltb w.side 6 ≡ true = ground (arith, h.0) in
    let stay =
      wake_loop-exact mask levels woken (waiting ++ w ∷ []) ws h.1
      ∙ ap (λ x. ok (woken ++ due mask levels ws, x))
          (append_assoc waiting (w ∷ []) (staying mask levels ws)) in
    let go =
      wake_loop-exact mask levels (woken ++ wakeup w (level_of levels w.side) ∷ []) waiting ws h.1
      ∙ ap (λ x. ok (x, waiting ++ staying mask levels ws))
          (append_assoc woken (wakeup w (level_of levels w.side) ∷ []) (due mask levels ws)) in
    elim (Bool-cases (has_changed mask w.side)) [
      | inr e ↦ rw e stay
      | inl e ↦ elim (Bool-cases (predicate_matches w.predicate (level_of levels w.side))) [
        | inl f ↦ rw (e, side, f) go
        | inr f ↦ rw (e, side, f) stay
      ]
    ]

zero_div : (n : ℕ) → 0 / n ≡ 0
zero_div zero = div.zero 0
zero_div (suc n) = div.suc 0 n

nothing_changed : (side : ℕ) → has_changed 0 side ≡ false
unfolding has_changed
nothing_changed side = rw (zero_div (2 ^ side)) refl

none-due : (levels : ℕ) (ws : List RedstoneWaiter) → due 0 levels ws ≡ []
unfolding due
none-due levels [] = refl
none-due levels (w ∷ ws) = rw (nothing_changed w.side) (none-due levels ws)

all-staying : (levels : ℕ) (ws : List RedstoneWaiter) → staying 0 levels ws ≡ ws
unfolding staying
all-staying levels [] = refl
all-staying levels (w ∷ ws) = rw (nothing_changed w.side) (ap (λ x. w ∷ x) (all-staying levels ws))

abbrev pub mask_of : ℕ → ℕ
mask_of packet = packet % all_sides_range

abbrev pub levels_of : ℕ → ℕ
levels_of packet = (packet / 64) % input_level_range

-- The device after a packet: the levels are the packet's, the waiters that it wakes are gone.
abbrev pub submitted : ℕ → RedstoneDevice → RedstoneDevice
submitted packet d = record d {
  input_levels = levels_of packet;
  waiters = staying (mask_of packet) (levels_of packet) d.waiters;
}

abbrev pub Submits : ℕ → RedstoneDevice → Type 0
Submits packet d =
    ((register_range ≤ packet) × (submit_input packet d ≡ (err reserved_bits, d)))
    ⊎ ((packet < register_range)
        × (woken : List RedstoneWakeup) × (submit_input packet d ≡ (ok woken, submitted packet d))
        × IsSorted woken
        × ((p : RedstoneWakeup → Bool)
            → count p woken ≡ count p (due (mask_of packet) (levels_of packet) d.waiters)))

module _ (packet : ℕ) (d : RedstoneDevice) (sides : OnSides d.waiters)
    (fits : packet < register_range) where
  valid_packet : validate_register packet ≡ ok tt
  unfolding validate_register
  valid_packet = ground arith

  submit-wakes :
      (mask_of packet == 0 || is_empty d.waiters) ≡ false
      → submit_input packet d
        ≡ (ok (sort_by_key (due (mask_of packet) (levels_of packet) d.waiters)), submitted packet d)
  unfolding submit_input wake
  submit-wakes e =
      rw
        (
          submit_input,
          valid_packet,
          e,
          wake_loop-exact (mask_of packet) (levels_of packet) [] [] d.waiters sides,
        )
        refl

  quiet_mask :
      (mask_of packet == 0) ≡ true
      → (due (mask_of packet) (levels_of packet) d.waiters ≡ [])
        × (staying (mask_of packet) (levels_of packet) d.waiters ≡ d.waiters)
  quiet_mask e =
      let q : mask_of packet ≡ 0 = ground arith in
      rw q (none-due (levels_of packet) d.waiters, all-staying (levels_of packet) d.waiters)

  quiet :
      (mask_of packet == 0 || is_empty d.waiters) ≡ true
      → (due (mask_of packet) (levels_of packet) d.waiters ≡ [])
        × (staying (mask_of packet) (levels_of packet) d.waiters ≡ d.waiters)
  unfolding due staying
  quiet e = elim (Bool-cases (mask_of packet == 0)) [
    | inl z ↦ quiet_mask z
    | inr z ↦ let q : d.waiters ≡ [] = no_waiters d.waiters (ground arith) in rw q (refl, refl)
  ]
    where
      no_waiters : (ws : List RedstoneWaiter) → is_empty ws ≡ true → ws ≡ []
      no_waiters [] h = refl
      no_waiters (w ∷ ws) h = absurd (ground arith)

  submit-quiet :
      (mask_of packet == 0 || is_empty d.waiters) ≡ true
      → submit_input packet d ≡ (ok [], submitted packet d)
  unfolding submit_input
  submit-quiet e =
      rw (submit_input, valid_packet, e)
        (ap (λ ws. (ok [], record d { input_levels = levels_of packet; waiters = ws }))
          (sym ((quiet e).1)))

refused :
    (packet : ℕ) (d : RedstoneDevice)
    → register_range ≤ packet
    → submit_input packet d ≡ (err reserved_bits, d)
unfolding submit_input validate_register
refused packet d h =
    let q : (packet / register_range == 0) ≡ false = ground arith in rw (submit_input, q) refl

-- A packet with reserved bits is refused and changes nothing. Any other is accepted, when the waiters
-- are on the six sides: the levels are the packet's, the waiters whose side changed and whose
-- predicate holds at the new level are woken, each once, ordered by task and request, and the rest stay.
pub submit_input-exact : (packet : ℕ) (d : RedstoneDevice) → OnSides d.waiters → Submits packet d
submit_input-exact packet d sides = elim (Bool-cases (ltb packet register_range)) [
  | inr e ↦ inl (ground arith, refused packet d (ground arith))
  | inl e ↦
      let fits : packet < register_range = ground arith in
      let mask = mask_of packet in
      let levels = levels_of packet in
      elim (Bool-cases (mask_of packet == 0 || is_empty d.waiters)) [
        | inl q ↦ inr (
          fits,
          [],
          submit-quiet packet d sides fits q,
          tt,
          λ p. ap (count p) (sym ((quiet packet d sides fits q).0)),
        )
        | inr q ↦ inr (
          fits,
          sort_by_key (due mask levels d.waiters),
          submit-wakes packet d sides fits q,
          sort-IsSorted (due mask levels d.waiters),
          λ p. count-sort p (due mask levels d.waiters),
        )
      ]
]
