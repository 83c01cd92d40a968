-- ===== src/Stdio/Editing.antt =====
-- src/stdio.rs: lines in the editor, and the calls that do not use the terminal.
use compukter_vm.Prelude.{
  ℕ, ◌+◌, ◌≤◌, Option, none, some, Bool, true, ◌&&◌, ◌||◌, List, [], ◌∷◌, ◌++◌, length, leb, ◌==◌,
  not, ◌≡◌, refl, arith, inl, inr, Bool-cases,
}
use compukter_vm.Stdio.{
  InputOwner, InputMode, raw, canonical, CanonicalInput, StandardStreams, is_owned, is_some, is_nil,
  is_canonical_text_unit, filter, all, acquire, acquire_free, finish_raw, cancel, cancel_frame,
  released, owner_test, take_ready, take_line, is_canonical_owned, pop_units, reverse_onto,
  erase_last, mode_eq, owner_eq,
}

-- A line that may be returned: only text, and no longer than the limit.
abbrev pub IsLine : ℕ → List ℕ → Type 0
IsLine maximum units = (all is_canonical_text_unit units ≡ true) × (length units ≤ maximum)

abbrev pub IsReady : ℕ → Option (List ℕ) → Type 0
IsReady maximum none = Unit
IsReady maximum (some line) = IsLine maximum line

-- Input waits only for the owner of a canonical read, and a finished line has an empty editor.
abbrev pub Inv : StandardStreams → Type 0
Inv s =
    IsLine s.maximum_line_code_units s.input.editing
    × IsReady s.maximum_line_code_units s.input.ready
    × ((is_canonical_owned s.owner || (is_nil s.input.editing && not (is_some s.input.ready)))
        ≡ true)
    × ((not (is_some s.input.ready) || is_nil s.input.editing) ≡ true)

all-reverse_onto :
    (p : ℕ → Bool) (xs acc : List ℕ) → all p (reverse_onto xs acc) ≡ (all p xs && all p acc)
all-reverse_onto p [] acc = refl
all-reverse_onto p (x ∷ xs) acc = ground (arith, all-reverse_onto p xs (x ∷ acc))

length-reverse_onto : (xs acc : List ℕ) → length (reverse_onto xs acc) ≡ length xs + length acc
length-reverse_onto [] acc = omega arith
length-reverse_onto (x ∷ xs) acc = omega (arith, length-reverse_onto xs (x ∷ acc))

pop_units-IsLine : (m : ℕ) (us : List ℕ) → IsLine m us → IsLine m (pop_units us)
unfolding pop_units
pop_units-IsLine m [] h = h
pop_units-IsLine m (a ∷ []) h = (refl, omega (arith, h.1))
pop_units-IsLine m (a ∷ b ∷ rest) h =
    elim (Bool-cases ((leb 56320 a && leb a 57343) && (leb 55296 b && leb b 56319))) [
      | inl e ↦ rw e (ground arith, omega (arith, h.1))
      | inr e ↦ rw e (ground arith, omega (arith, h.1))
    ]

reverse-IsLine : (m : ℕ) (us : List ℕ) → IsLine m us → IsLine m (reverse_onto us [])
reverse-IsLine m us h = (
  ground (arith, all-reverse_onto is_canonical_text_unit us []),
  omega (arith, length-reverse_onto us [], h.1),
)

pub erase_last-IsLine : (m : ℕ) (us : List ℕ) → IsLine m us → IsLine m (erase_last us)
unfolding erase_last
erase_last-IsLine m us h =
    reverse-IsLine m (pop_units (reverse_onto us []))
      (pop_units-IsLine m (reverse_onto us []) (reverse-IsLine m us h))

pub all-append : (p : ℕ → Bool) (xs ys : List ℕ) → all p (xs ++ ys) ≡ (all p xs && all p ys)
all-append p [] ys = refl
all-append p (x ∷ xs) ys = ground (arith, all-append p xs ys)

pub all-filter : (p : ℕ → Bool) (xs : List ℕ) → all p (filter p xs) ≡ true
all-filter p [] = refl
all-filter p (x ∷ xs) = elim (Bool-cases (p x)) [
  | inl e ↦ rw e (ground (arith, all-filter p xs))
  | inr e ↦ rw e (all-filter p xs)
]

released-Inv : (s : StandardStreams) → Inv (released s)
released-Inv s = ((refl, omega arith), tt, ground arith, refl)

abbrev pub streams : CanonicalInput → Option (InputMode × InputOwner) → ℕ → ℕ → StandardStreams
streams input owner lines output = record {
  input = input;
  owner = owner;
  maximum_line_code_units = lines;
  maximum_output_code_units = output;
}

module _ (input : CanonicalInput) (lines output : ℕ) where
  pub acquire-Inv :
      (mode : InputMode) (owner : InputOwner) (o : Option (InputMode × InputOwner))
      → Inv (streams input o lines output)
      → Inv (acquire mode owner (streams input o lines output)).1
  unfolding acquire acquire_free is_canonical_owned is_owned
  acquire-Inv mode owner none (l, r, q, e) = (l, r, ground arith, e)
  acquire-Inv mode owner (some (m, o)) v = elim (Bool-cases (mode_eq m mode && owner_eq o owner)) [
    | inl q ↦ rw q v
    | inr q ↦ rw q v
  ]

  pub finish_raw-Inv :
      (owner : InputOwner) (o : Option (InputMode × InputOwner))
      → Inv (streams input o lines output)
      → Inv (finish_raw owner (streams input o lines output)).1
  unfolding finish_raw is_owned is_canonical_owned
  finish_raw-Inv owner none v = v
  finish_raw-Inv owner (some (canonical, o)) v = v
  finish_raw-Inv owner (some (raw, o)) v = elim (Bool-cases (owner_eq o owner)) [
    | inl q ↦ rw q v
    | inr q ↦ rw q v
  ]

pub take_line-Inv :
    (editing : List ℕ) (ready : Option (List ℕ)) (owner : InputOwner)
    (o : Option (InputMode × InputOwner)) (lines output : ℕ)
    → Inv (streams (record { editing = editing; ready = ready }) o lines output)
    → Inv (take_line owner (streams (record { editing = editing; ready = ready }) o lines output)).1
unfolding take_line take_ready is_canonical_owned
take_line-Inv editing none owner o lines output v = elim (Bool-cases (is_owned canonical owner o)) [
  | inl q ↦ rw q v
  | inr q ↦ rw q v
]
take_line-Inv editing (some line) owner o lines output v =
    elim (Bool-cases (is_owned canonical owner o)) [
      | inl q ↦ rw q (v.0, tt, ground (arith, v.3), refl)
      | inr q ↦ rw q v
    ]

pub cancel-Inv : (owner : InputOwner) (s : StandardStreams) → Inv s → Inv (cancel owner s)
unfolding cancel
cancel-Inv owner s v = elim (Bool-cases (owner_test (λ o. owner_eq o owner) s.owner)) [
  | inl q ↦ rw q (released-Inv s)
  | inr q ↦ rw q v
]

pub cancel_frame-Inv : (frame : ℕ) (s : StandardStreams) → Inv s → Inv (cancel_frame frame s)
unfolding cancel_frame
cancel_frame-Inv frame s v = elim (Bool-cases (owner_test (λ o. o.frame == frame) s.owner)) [
  | inl q ↦ rw q (released-Inv s)
  | inr q ↦ rw q v
]
