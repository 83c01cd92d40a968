-- ===== src/Redstone/Runs.antt =====
-- src/redstone.rs: any sequence of calls on the device.
use compukter_vm.Prelude.{ℕ, List, [], ◌∷◌}
use compukter_vm.Redstone.{RedstoneDevice, submit_input, confirm_output}
use compukter_vm.Redstone.Waits.{IsHonest, Registration, call_register}

pub data Event : Type 0 where
  submits : ℕ → Event
  registers : Registration → (task request side : ℕ) → Event
  confirms : ℕ → Event

abbrev pub step : Event → RedstoneDevice → RedstoneDevice
step (submits packet) d = (submit_input packet d).1
step (registers r task request side) d = (call_register r task request side d).1
step (confirms packed) d = (confirm_output packed d).1

abbrev pub run : RedstoneDevice → List Event → RedstoneDevice
run d [] = d
run d (e ∷ es) = run (step e d) es

-- Every packet that is submitted marks each side whose level differs from the device's.
abbrev pub IsHonestRun : RedstoneDevice → List Event → Type 0
IsHonestRun d [] = Unit
IsHonestRun d (submits packet ∷ es) = IsHonest packet d × IsHonestRun (submit_input packet d).1 es
IsHonestRun d (registers r task request side ∷ es) =
    IsHonestRun (call_register r task request side d).1 es
IsHonestRun d (confirms packed ∷ es) = IsHonestRun (confirm_output packed d).1 es
