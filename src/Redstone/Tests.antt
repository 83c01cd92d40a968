-- ===== src/Redstone/Tests.antt =====
-- The redstone device on concrete packets: the scenarios of the unit tests in src/redstone.rs.
use compukter_vm.Prelude.{ℕ, ◌≡◌, refl, List, [], ◌∷◌, ok, arith}
use compukter_vm.Redstone.{
  RedstoneDevice, RedstoneWaiter, at_least, submit_input, wake, wake_loop, sort_by_key,
  insert_by_key, key_le, input, level_of, has_changed, predicate_matches, validate_register,
  validate_side,
}
use compukter_vm.Redstone.Submit.{Submits, submit_input-exact}
use compukter_vm.Redstone.Waits.{on_at_least}
use compukter_vm.Redstone.Runs.{Event, submits, registers, confirms}

abbrev waits_for_8 : ℕ → RedstoneWaiter
waits_for_8 n = record { task = n; request = n; side = 0; predicate = at_least 8 }

-- Level 7 at side 0, and two tasks that wait for 8.
abbrev two_waiting : RedstoneDevice
two_waiting = record {
  input_levels = 7;
  confirmed_output = 0;
  waiters = waits_for_8 2 ∷ waits_for_8 1 ∷ [];
  maximum_waiters = 8;
}

-- Side 0 changed to 8.
abbrev packet_8 : ℕ
packet_8 = 513

conditional_waits_are_ordered : submit_input packet_8 two_waiting ≡ (
  ok (
      (record { task = 1; request = 1; level = 8 })
      ∷ (record { task = 2; request = 2; level = 8 })
      ∷ []),
  record two_waiting { input_levels = 8; waiters = [] },
)
unfolding submit_input wake wake_loop sort_by_key insert_by_key key_le input level_of has_changed
    predicate_matches validate_register validate_side
conditional_waits_are_ordered = refl

submit_input-exact_example : Submits packet_8 two_waiting
submit_input-exact_example =
    submit_input-exact packet_8 two_waiting (omega arith, (omega arith, tt))

abbrev events : List Event
events = registers (on_at_least 8) 1 1 0 ∷ submits packet_8 ∷ confirms 5 ∷ []
