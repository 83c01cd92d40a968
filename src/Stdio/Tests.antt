-- ===== src/Stdio/Tests.antt =====
-- The standard streams on concrete calls, with a terminal that keeps what is written to it.
use compukter_vm.Prelude.{ℕ, ◌≡◌, refl, List, [], ◌∷◌, ◌++◌, true, some, none}
use compukter_vm.Terminal.Input.{backspace, enter}
use compukter_vm.Stdio.{
  InputOwner, StandardStreams, canonical, TerminalDevice, no_input, begin_read, acquire,
  acquire_free, is_owned, accept_text, accept_key, press, accept_backspace, erase_last, pop_units,
  echo, require_canonical, is_canonical_owned, is_canonical_text_unit, take_line, take_ready,
}
use compukter_vm.Stdio.Owners.{KeepsOwner, step-KeepsOwner}
use compukter_vm.Stdio.Lines.{
  cancels_frame, step, Call, begins_read, accepts_text, accepts_key, run,
}

abbrev paper : TerminalDevice (List ℕ)
paper = record { write_utf16 = λ units t. (true, t ++ units); erase_previous = λ t. t }

abbrev owner_1 : InputOwner
owner_1 = record { frame = 1; task = 1 }

abbrev fresh : StandardStreams
fresh = record {
  input = no_input;
  owner = none;
  maximum_line_code_units = 8;
  maximum_output_code_units = 8;
}

-- `A` and U+1F600, which `Backspace` takes away whole
abbrev calls : List Call
calls =
    begins_read owner_1
    ∷ accepts_text (65 ∷ 55357 ∷ 56832 ∷ [])
    ∷ accepts_key backspace
    ∷ accepts_key enter
    ∷ []

returns_a_line : (take_line owner_1 (run paper (fresh, []) calls).0).0 ≡ some (65 ∷ [])
unfolding begin_read acquire acquire_free is_owned accept_text accept_key press accept_backspace
    erase_last pop_units echo require_canonical is_canonical_owned is_canonical_text_unit take_line
    take_ready
returns_a_line = refl

abbrev reading : StandardStreams
reading = record fresh { owner = some (canonical, owner_1) }

step-KeepsOwner_example :
    KeepsOwner
      (cancels_frame 2)
      canonical
      owner_1
      (step paper (cancels_frame 2) (reading, [])).0.owner
step-KeepsOwner_example = step-KeepsOwner paper (cancels_frame 2) reading [] canonical owner_1 refl
