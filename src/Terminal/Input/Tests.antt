-- ===== src/Terminal/Input/Tests.antt =====
-- Input events on concrete calls.
use compukter_vm.Prelude.{◌≡◌, ◌↔◌, refl, List, [], ◌∷◌, ok, err}
use compukter_vm.Terminal.Input.{
  TerminalKeyEvent, TerminalInputLimits, enter, press, modifiers, code, try_from, invalid_key, new,
  push_key, push_text, ensure_capacity, poll, key_event,
}
use compukter_vm.Terminal.Input.Keys.{try_from-exact}
use compukter_vm.Terminal.Input.Queue.{
  Call, pushes_key, pushes_text, polls, run, begin, IsFifo, history-IsFifo,
}

abbrev enter_press : TerminalKeyEvent
enter_press = record { key = enter; action = press; modifiers = modifiers 0 }

abbrev one_event : TerminalInputLimits
one_event = record { maximum_events = 1; maximum_text_code_points = 2 }

abbrev calls : List Call
calls =
    pushes_key enter_press ∷ pushes_text (97 ∷ []) ∷ polls ∷ pushes_text (97 ∷ 98 ∷ 99 ∷ []) ∷ []

only_the_key_was_accepted : (run (begin one_event) calls).accepted ≡ key_event enter_press ∷ []
unfolding new push_key push_text ensure_capacity poll
only_the_key_was_accepted = refl

unknown_code_refused : try_from 2 ≡ err invalid_key
unfolding try_from
unknown_code_refused = refl

try_from-exact_example : (try_from 13 ≡ ok enter) ↔ (13 ≡ code enter)
try_from-exact_example = try_from-exact 13 enter

history-IsFifo_example : IsFifo one_event (run (begin one_event) calls)
history-IsFifo_example = history-IsFifo one_event calls
