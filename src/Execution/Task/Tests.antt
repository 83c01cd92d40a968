-- ===== src/Execution/Task/Tests.antt =====
-- Runs of the scheduler on concrete inputs: the scenarios of the unit tests in
-- src/execution/task.rs, and the general theorems at a scheduler of three slots.
use compukter_vm.Prelude.{ℕ, ◌≡◌, ◌≢◌, ◌⊎◌, refl, none, some, List, [], ◌∷◌, ◌++◌, ok, err}
use compukter_vm.Prelude.Ring.{ring}
use compukter_vm.Execution.Task.{
  TaskId, TaskScheduler, ready, running, waiting, host, empty, no_slot, new, suspend, slot_of,
  self_join, join_cycle, wrong_wait, unknown_task,
}
use compukter_vm.Execution.Task.Calls.{
  start_root, spawn, suspend_host, join, complete_host, activate_next, state_of,
}
use compukter_vm.Execution.Task.Invariant.{queue, Inv, state_at}
use compukter_vm.Execution.Task.Joins.{Completes, complete_current_lem}
use compukter_vm.Execution.Task.Runs.{
  Call, starts, spawns, suspends_host, joins, activates, completes_host, step, run, Accepts,
  history-Sound, run-Inv, new-Inv,
}
use compukter_vm.Execution.Task.Behaviour.{activate_next-front, complete_host-exact}

abbrev blank : TaskScheduler
blank = record {
  tasks = empty ∷ empty ∷ empty ∷ [];
  ready_slots = no_slot ∷ no_slot ∷ no_slot ∷ [];
  ready_head = 0;
  ready_len = 0;
  active = none;
  next_id = 2;
}

blank-Inv : Inv blank
unfolding new
blank-Inv = new-Inv 3 blank refl

-- The root and two children; the root waits for request 1, then the second task for request 2.
abbrev two_children : List Call
two_children = starts ∷ spawns ∷ spawns ∷ suspends_host 1 ∷ []

abbrev out_of_order : List Call
out_of_order =
    starts
    ∷ spawns
    ∷ spawns
    ∷ suspends_host 1
    ∷ activates
    ∷ suspends_host 2
    ∷ activates
    ∷ suspends_host 3
    ∷ completes_host 3 3
    ∷ completes_host 1 1
    ∷ []

host_waits_wake_in_completion_order : queue (run blank out_of_order) ≡ 2 ∷ 0 ∷ []
unfolding run step start_root spawn suspend_host activate_next complete_host ring
host_waits_wake_in_completion_order = refl

join_rejects_cycles :
    (join 1 (run blank (starts ∷ spawns ∷ joins 2 ∷ activates ∷ []))).0 ≡ err join_cycle
unfolding run step start_root spawn join suspend activate_next
join_rejects_cycles = refl

join_rejects_self : (join 1 (run blank (starts ∷ []))).0 ≡ err self_join
unfolding run step start_root join
join_rejects_self = refl

history-Sound_example : Accepts (run blank out_of_order) activates
unfolding new
history-Sound_example = history-Sound 3 blank out_of_order activates refl

waiting_root : TaskScheduler
waiting_root = run blank two_children

activate_next-front_example :
    ((queue waiting_root ≡ []) × (activate_next waiting_root ≡ (ok none, waiting_root)))
    ⊎ ((slot : ℕ) × (rest : List ℕ) × (a : TaskId) × (s' : TaskScheduler) × (queue waiting_root
          ≡ slot ∷ rest)
        × (slot_of a waiting_root ≡ some slot)
        × (activate_next waiting_root ≡ (ok (some a), s'))
        × (queue s' ≡ rest)
        × (s'.active ≡ some slot)
        × (state_of a s' ≡ some running))
unfolding waiting_root run step start_root spawn suspend_host
activate_next-front_example =
    activate_next-front waiting_root (run-Inv blank two_children blank-Inv) refl

one_child : TaskScheduler
one_child = run blank (starts ∷ spawns ∷ [])

complete_host-exact_example :
    ((slot : ℕ) × (s' : TaskScheduler) × (slot_of 1 waiting_root ≡ some slot)
      × (state_at waiting_root.tasks slot ≡ some (waiting (host 1)))
      × (complete_host 1 1 waiting_root ≡ (ok tt, s'))
      × (queue s' ≡ queue waiting_root ++ slot ∷ [])
      × (state_at s'.tasks slot ≡ some ready))
    ⊎ ((state_of 1 waiting_root ≢ some (waiting (host 1)))
        × ((complete_host 1 1 waiting_root ≡ (err unknown_task, waiting_root))
            ⊎ (complete_host 1 1 waiting_root ≡ (err wrong_wait, waiting_root))))
unfolding waiting_root
complete_host-exact_example =
    complete_host-exact waiting_root 1 1 (run-Inv blank two_children blank-Inv)

joined : TaskScheduler
joined = run blank (starts ∷ spawns ∷ joins 2 ∷ activates ∷ [])

complete_current_lem_example : Completes joined 2 1
unfolding joined run step start_root spawn join suspend activate_next
complete_current_lem_example =
    complete_current_lem joined 1 (record { id = some 2; state = running }) 2
      (run-Inv blank (starts ∷ spawns ∷ joins 2 ∷ activates ∷ []) blank-Inv) refl refl refl refl
