-- ===== src/Stdio/Lines.antt =====
-- src/stdio.rs: the line editor through any sequence of calls, on any terminal.
use compukter_vm.Prelude.{ℕ, List, [], ◌∷◌, if◌then◌else◌}
use compukter_vm.Terminal.Input.{TerminalKey}
use compukter_vm.Stdio.{
  InputOwner, StandardStreams, is_canonical_text_unit, filter, all, begin_read, begin_raw_wait,
  finish_raw, cancel, cancel_frame, take_line, TerminalDevice, submit_complete_line, accept_text,
  accept_key, write_stdout, write_stderr,
}
use compukter_vm.Stdio.Editing.{Inv}

module _ {T : Type 0} (device : TerminalDevice T) (s : StandardStreams) (t : T) (v : Inv s) where
  abbrev text_units : List ℕ → List ℕ
  text_units text =
      if all is_canonical_text_unit text then text else filter is_canonical_text_unit text

pub data Call : Type 0 where
  begins_read begins_raw finishes_raw cancels takes_line : InputOwner → Call
  cancels_frame : ℕ → Call
  submits_line : InputOwner → List ℕ → Call
  accepts_text writes_stdout writes_stderr : List ℕ → Call
  accepts_key : TerminalKey → Call

module _ {T : Type 0} (device : TerminalDevice T) where
  abbrev pub step : Call → StandardStreams × T → StandardStreams × T
  step (begins_read o) c = ((begin_read o c.0).1, c.1)
  step (begins_raw o) c = ((begin_raw_wait o c.0).1, c.1)
  step (finishes_raw o) c = ((finish_raw o c.0).1, c.1)
  step (cancels o) c = (cancel o c.0, c.1)
  step (takes_line o) c = ((take_line o c.0).1, c.1)
  step (cancels_frame n) c = (cancel_frame n c.0, c.1)
  step (submits_line o units) c = (submit_complete_line device o units c).1
  step (accepts_text text) c = (accept_text device text c).1
  step (writes_stdout units) c = (write_stdout device units c).1
  step (writes_stderr units) c = (write_stderr device units c).1
  step (accepts_key key) c = (accept_key device key c).1

  abbrev pub run : StandardStreams × T → List Call → StandardStreams × T
  run c [] = c
  run c (call ∷ calls) = run (step call c) calls
