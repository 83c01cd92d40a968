-- ===== src/Stdio/Owners.antt =====
-- src/stdio.rs: which calls take the input away from its owner.
use compukter_vm.Prelude.{
  ℕ, Option, none, some, Bool, true, false, ◌&&◌, List, [], ◌∷◌, length, leb, ◌==◌, not, ◌≡◌, refl,
  sym, subst, inl, inr, ◌⊎◌, if◌then◌else◌, Bool-cases,
}
use compukter_vm.Prelude.Word.{checked_add}
use compukter_vm.Terminal.Input.{TerminalKey, backspace, enter}
use compukter_vm.Stdio.{
  InputOwner, InputMode, raw, canonical, CanonicalInput, StandardStreams, is_owned, is_some, is_nil,
  is_canonical_text_unit, filter, all, acquire, acquire_free, begin_read, begin_raw_wait,
  finish_raw, cancel, cancel_frame, take_ready, take_line, is_canonical_owned, require_canonical,
  TerminalDevice, echo, submit_complete_line, too_long, accept_text, accept_backspace, press,
  accept_key, write_stdout, write_stderr, owner_eq, write_endpoint,
}
use compukter_vm.Stdio.Lines.{
  Call, begins_read, begins_raw, finishes_raw, cancels, takes_line, cancels_frame, submits_line,
  accepts_text, writes_stdout, writes_stderr, accepts_key, step,
}

-- The call is one by which an owner in the mode gives up its input.
abbrev pub releases : Call → InputMode → InputOwner → Bool
releases (finishes_raw p) raw o = owner_eq o p
releases (takes_line p) canonical o = owner_eq o p
releases (submits_line p units) canonical o = owner_eq o p
releases (cancels p) mode o = owner_eq o p
releases (cancels_frame frame) mode o = o.frame == frame
releases _ _ _ = false

abbrev pub KeepsOwner : Call → InputMode → InputOwner → Option (InputMode × InputOwner) → Type 0
KeepsOwner call mode o after =
    (after ≡ some (mode, o)) ⊎ ((after ≡ none) × (releases call mode o ≡ true))

module _ (input : CanonicalInput) (lines output : ℕ) (mode : InputMode) (o : InputOwner) where
  abbrev owned : StandardStreams
  owned = record {
    input = input;
    owner = some (mode, o);
    maximum_line_code_units = lines;
    maximum_output_code_units = output;
  }

  acquire-keeps : (m : InputMode) (p : InputOwner) → (acquire m p owned).1.owner ≡ some (mode, o)
  unfolding acquire acquire_free
  acquire-keeps m p = elim (Bool-cases (is_owned m p (some (mode, o)))) [
    | inl e ↦ rw e refl
    | inr e ↦ rw e refl
  ]

  abbrev text_units : List ℕ → List ℕ
  text_units text =
      if all is_canonical_text_unit text then text else filter is_canonical_text_unit text

  module _ {T : Type 0} (device : TerminalDevice T) (t : T) where
    accept_text-keeps :
        (text : List ℕ) → (accept_text device text (owned, t)).1.0.owner ≡ some (mode, o)
    unfolding accept_text echo require_canonical
    accept_text-keeps text = elim (Bool-cases (is_canonical_owned (some (mode, o)))) [
      | inr a ↦ rw a refl
      | inl a ↦ elim (Bool-cases (is_some input.ready)) [
        | inl b ↦ rw (a, b) refl
        | inr b ↦
            elim (Bool-cases
              (too_long (checked_add (length input.editing) (length (text_units text))) lines)) [
                | inl c ↦ rw (a, b, c) refl
                | inr c ↦ elim (Bool-cases ((device.write_utf16 (text_units text) t).0)) [
                  | inr d ↦ rw (a, b, c, d) refl
                  | inl d ↦ rw (a, b, c, d) refl
                ]
              ]
      ]
    ]

    backspace-keeps :
        (editing : List ℕ) → (accept_backspace device editing (owned, t)).1.0.owner ≡ some (mode, o)
    unfolding accept_backspace
    backspace-keeps [] = refl
    backspace-keeps (u ∷ us) = refl

    press-keeps :
        (key : TerminalKey) → (press device key input.editing (owned, t)).1.0.owner ≡ some (mode, o)
    unfolding press echo
    press-keeps backspace = backspace-keeps input.editing
    press-keeps enter = elim (Bool-cases ((device.write_utf16 (10 ∷ []) t).0)) [
      | inr e ↦ rw e refl
      | inl e ↦ rw e refl
    ]
    press-keeps _ = refl

    accept_key-keeps :
        (key : TerminalKey) → (accept_key device key (owned, t)).1.0.owner ≡ some (mode, o)
    unfolding accept_key require_canonical
    accept_key-keeps key = elim (Bool-cases (is_canonical_owned (some (mode, o)))) [
      | inr a ↦ rw a refl
      | inl a ↦ elim (Bool-cases (is_some input.ready)) [
        | inl b ↦ rw (a, b) refl
        | inr b ↦ rw (a, b) (press-keeps key)
      ]
    ]

    write_stdout-keeps :
        (units : List ℕ) → (write_stdout device units (owned, t)).1.0.owner ≡ some (mode, o)
    unfolding write_stdout write_endpoint echo
    write_stdout-keeps units = elim (Bool-cases (leb (length units) output)) [
      | inl e ↦ rw e refl
      | inr e ↦ rw e refl
    ]

    write_stderr-keeps :
        (units : List ℕ) → (write_stderr device units (owned, t)).1.0.owner ≡ some (mode, o)
    unfolding write_stderr write_endpoint echo
    write_stderr-keeps units = elim (Bool-cases (leb (length units) output)) [
      | inl e ↦ rw e refl
      | inr e ↦ rw e refl
    ]

  cancel-KeepsOwner : (p : InputOwner) → KeepsOwner (cancels p) mode o (cancel p owned).owner
  unfolding cancel
  cancel-KeepsOwner p = elim (Bool-cases (owner_eq o p)) [
    | inl e ↦ rw e (inr (refl, refl))
    | inr e ↦ rw e (inl refl)
  ]

  cancel_frame-KeepsOwner :
      (frame : ℕ) → KeepsOwner (cancels_frame frame) mode o (cancel_frame frame owned).owner
  unfolding cancel_frame
  cancel_frame-KeepsOwner frame = elim (Bool-cases (o.frame == frame)) [
    | inl e ↦ rw e (inr (refl, refl))
    | inr e ↦ rw e (inl refl)
  ]

module _ (lines output : ℕ) (o p : InputOwner) where
  finish_raw-KeepsOwner :
      (input : CanonicalInput) (mode : InputMode)
      → KeepsOwner (finishes_raw p) mode o (finish_raw p (owned input lines output mode o)).1.owner
  unfolding finish_raw is_owned
  finish_raw-KeepsOwner input canonical = inl refl
  finish_raw-KeepsOwner input raw = elim (Bool-cases (owner_eq o p)) [
    | inl e ↦ rw e (inr (refl, refl))
    | inr e ↦ rw e (inl refl)
  ]

  take_line-KeepsOwner :
      (editing : List ℕ) (ready : Option (List ℕ)) (mode : InputMode)
      → KeepsOwner
          (takes_line p)
          mode
          o
          (take_line p
            (owned (record { editing = editing; ready = ready }) lines output mode o)).1.owner
  unfolding take_line take_ready is_owned
  take_line-KeepsOwner editing ready raw = inl refl
  take_line-KeepsOwner editing none canonical = elim (Bool-cases (owner_eq o p)) [
    | inl e ↦ rw e (inl refl)
    | inr e ↦ rw e (inl refl)
  ]
  take_line-KeepsOwner editing (some line) canonical = elim (Bool-cases (owner_eq o p)) [
    | inl e ↦ rw e (inr (refl, refl))
    | inr e ↦ rw e (inl refl)
  ]

  submit-KeepsOwner :
      {T : Type 0} (device : TerminalDevice T) (t : T) (input : CanonicalInput) (units : List ℕ)
      (mode : InputMode)
      → KeepsOwner
          (submits_line p units)
          mode
          o
          (submit_complete_line device p units (owned input lines output mode o, t)).1.0.owner
  unfolding submit_complete_line echo is_owned
  submit-KeepsOwner device t input units raw = inl refl
  submit-KeepsOwner device t input units canonical = elim (Bool-cases (owner_eq o p)) [
    | inr a ↦ rw a (inl refl)
    | inl a ↦ elim (Bool-cases (is_nil input.editing && not (is_some input.ready))) [
      | inr b ↦ rw (a, b) (inl refl)
      | inl b ↦ elim (Bool-cases (all is_canonical_text_unit units)) [
        | inr c ↦ rw (a, b, c) (inl refl)
        | inl c ↦ elim (Bool-cases (leb (length units) lines)) [
          | inr d ↦ rw (a, b, c, d) (inl refl)
          | inl d ↦ elim (Bool-cases ((device.write_utf16 units t).0)) [
            | inr e ↦ rw (a, b, c, d, e) (inl refl)
            | inl e ↦
                elim (Bool-cases
                  ((device.write_utf16 (10 ∷ []) (device.write_utf16 units t).1).0)) [
                    | inr f ↦ rw (a, b, c, d, e, f) (inl refl)
                    | inl f ↦ rw (a, b, c, d, e, f) (inr (refl, refl))
                  ]
          ]
        ]
      ]
    ]
  ]

module _ {T : Type 0} (device : TerminalDevice T) (lines output : ℕ) (mode : InputMode)
    (o : InputOwner) (input : CanonicalInput) (t : T) where
  owned-KeepsOwner :
      (call : Call)
      → KeepsOwner call mode o (step device call (owned input lines output mode o, t)).0.owner
  unfolding begin_read begin_raw_wait
  owned-KeepsOwner (begins_read p) = inl (acquire-keeps input lines output mode o canonical p)
  owned-KeepsOwner (begins_raw p) = inl (acquire-keeps input lines output mode o raw p)
  owned-KeepsOwner (finishes_raw p) = finish_raw-KeepsOwner lines output o p input mode
  owned-KeepsOwner (cancels p) = cancel-KeepsOwner input lines output mode o p
  owned-KeepsOwner (takes_line p) =
      take_line-KeepsOwner lines output o p input.editing input.ready mode
  owned-KeepsOwner (cancels_frame frame) = cancel_frame-KeepsOwner input lines output mode o frame
  owned-KeepsOwner (submits_line p units) =
      submit-KeepsOwner lines output o p device t input units mode
  owned-KeepsOwner (accepts_text text) =
      inl (accept_text-keeps input lines output mode o device t text)
  owned-KeepsOwner (writes_stdout units) =
      inl (write_stdout-keeps input lines output mode o device t units)
  owned-KeepsOwner (writes_stderr units) =
      inl (write_stderr-keeps input lines output mode o device t units)
  owned-KeepsOwner (accepts_key key) = inl (accept_key-keeps input lines output mode o device t key)

-- While the input has an owner, a call leaves it with that owner, whoever makes the call; only a call
-- that finishes the read or the wait of this owner, or cancels the owner or its frame, may free it.
pub step-KeepsOwner :
    {T : Type 0} (device : TerminalDevice T) (call : Call) (s : StandardStreams) (t : T)
    (mode : InputMode) (o : InputOwner)
    → s.owner ≡ some (mode, o)
    → KeepsOwner call mode o (step device call (s, t)).0.owner
step-KeepsOwner device call s t mode o e =
    subst (λ w. KeepsOwner call mode o (step device call (record s { owner = w }, t)).0.owner)
      (sym e)
      (owned-KeepsOwner device s.maximum_line_code_units s.maximum_output_code_units mode o s.input
        t call)
