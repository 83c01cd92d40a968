-- ===== src/Execution/Task/Calls.antt =====
-- src/execution/task.rs: the methods of the scheduler.
use compukter_vm.Prelude.{
  ℕ, zero, suc, ◌+◌, ◌-◌, ◌%◌, ◌^◌, Option, none, some, Bool, true, false, length, get_elem?, set,
  replicate, position, ok, err, ok_or, expect, ◌>>=◌, ◌>>◌, pure, raise, lift, gets, modify, guard,
  ltb, leb, ◌==◌, if◌then◌else◌, not,
}
use compukter_vm.Execution.Task.{
  TaskId, RequestId, new_task_id, root, i32_max, TaskState, empty, TaskScheduler, is_vacant,
  is_ready, is_completed, waits_host, waits_join, waits_channel, M, no_slot, task_at, set_state,
  set_task, slot_of, slot_or_unknown, enqueue, take_active, suspend, host, join_of, channel, ready,
  running, waiting, completed, already_started, no_capacity, id_exhausted, no_running_task,
  wrong_wait, self_join, join_cycle, corrupt_queue,
}

unfoldable pub start_root : M (Unit {0})
unfolding task_at set_task
start_root s = elim s.active [
  | some slot ↦ (err already_started, s)
  | none ↦
      (do
        first ← task_at 0
        guard (is_vacant first.state) already_started
        set_task 0 (record { id = some root; state = running })
        modify (λ s. record s { active = some 0 }))
        s
]

-- `self.next_id.checked_add(1)` of a `u32`
unfoldable pub checked_next : ℕ → Option ℕ
checked_next id = if ltb (id + 1) (2 ^ 32) then some (id + 1) else none

unfoldable pub spawn : M TaskId
unfolding set_task enqueue checked_next new_task_id
spawn = do
  active ← gets (λ s. s.active)
  lift (ok_or active no_running_task)
  free ← gets (λ s. position (λ task. is_vacant task.state) s.tasks)
  slot ← lift (ok_or free no_capacity)
  next ← gets (λ s. s.next_id)
  guard (leb next i32_max) id_exhausted
  id ← lift (ok_or (new_task_id next) id_exhausted)
  after ← lift (ok_or (checked_next next) id_exhausted)
  modify (λ s. record s { next_id = after })
  set_task slot (record { id = some id; state = ready })
  enqueue slot
  pure id

unfoldable pub current : M TaskId
unfolding task_at
current = do
  active ← gets (λ s. s.active)
  slot ← lift (ok_or active no_running_task)
  task ← task_at slot
  lift (ok_or task.id no_running_task)

unfoldable pub suspend_host : RequestId → M TaskId
unfolding suspend
suspend_host request = suspend (host request)

unfoldable pub suspend_channel : ℕ → M TaskId
unfolding suspend
suspend_channel c = suspend (channel c)

-- One round of the `for` loop of `join`: a task that does not wait for another ends the walk, and
-- the current task is suspended. `go` is the rest of the loop.
unfoldable pub join_round : (TaskId → M Bool) → TaskId → TaskId → TaskState → M Bool
join_round go self target (waiting (join_of next)) =
    if next == self then raise join_cycle else go next
join_round go self target _ = do suspend (join_of target); pure true

-- The loop, with the rounds that are left.
unfoldable pub join_walk : ℕ → TaskId → TaskId → TaskId → M Bool
unfolding slot_or_unknown task_at join_round
join_walk zero self target cursor = raise join_cycle
join_walk (suc rounds) self target cursor = do
  slot ← slot_or_unknown cursor
  task ← task_at slot
  join_round (join_walk rounds self target) self target task.state

unfoldable pub join : TaskId → M Bool
unfolding current slot_or_unknown task_at join_walk
join target = do
  self ← current
  guard (not (self == target)) self_join
  slot ← slot_or_unknown target
  task ← task_at slot
  rounds ← gets (λ s. length s.tasks)
  if is_completed task.state then pure false else join_walk rounds self target target

-- One round of the loop in `complete_current`.
unfoldable pub wake_joiner : TaskId → ℕ → M (Unit {0})
unfolding task_at set_state enqueue
wake_joiner done waiter = do
  task ← task_at waiter
  if waits_join done task.state then (do set_state waiter ready; enqueue waiter) else pure tt

unfoldable pub wake_joiners : ℕ → TaskId → ℕ → M (Unit {0})
unfolding wake_joiner
wake_joiners zero done waiter = pure tt
wake_joiners (suc rounds) done waiter = do
  wake_joiner done waiter
  wake_joiners rounds done (waiter + 1)

unfoldable pub complete_current : M TaskId
unfolding take_active task_at set_state wake_joiners
complete_current = do
  slot ← take_active
  task ← task_at slot
  done ← lift (ok_or task.id no_running_task)
  set_state slot completed
  rounds ← gets (λ s. length s.tasks)
  wake_joiners rounds done 0
  pure done

-- What `complete_host` and `complete_channel` share: wake the task if it waits for `expected`.
unfoldable pub wake : (TaskState → Bool) → TaskId → M (Unit {0})
unfolding slot_or_unknown task_at set_state enqueue
wake expected task = do
  slot ← slot_or_unknown task
  entry ← task_at slot
  guard (expected entry.state) wrong_wait
  set_state slot ready
  enqueue slot

unfoldable pub complete_host : TaskId → RequestId → M (Unit {0})
unfolding wake
complete_host task request = wake (waits_host request) task

unfoldable pub complete_channel : TaskId → ℕ → M (Unit {0})
unfolding wake
complete_channel task c = wake (waits_channel c) task

-- The head of the queue leaves it before its state is checked.
unfoldable pub dequeue : M ℕ
dequeue s = (
  expect (get_elem? s.ready_slots s.ready_head),
  record s {
    ready_slots = set s.ready_slots s.ready_head no_slot;
    ready_head = (s.ready_head + 1) % length s.ready_slots;
    ready_len = s.ready_len - 1;
  },
)

unfoldable pub run_slot : ℕ → M (Option TaskId)
unfolding set_state
run_slot slot = do
  task ← λ s. (ok_or (get_elem? s.tasks slot) corrupt_queue, s)
  guard (is_ready task.state) corrupt_queue
  set_state slot running
  modify (λ s. record s { active = some slot })
  pure task.id

unfoldable pub activate_next : M (Option TaskId)
unfolding dequeue run_slot
activate_next s = elim s.active [
  | some slot ↦ (err no_running_task, s)
  | none ↦ if s.ready_len == 0 then (ok none, s) else (do slot ← dequeue; run_slot slot) s
]

unfoldable pub state_of : TaskId → TaskScheduler → Option TaskState
unfolding slot_of
state_of task s = elim (slot_of task s) [
  | none ↦ none
  | some slot ↦ elim (get_elem? s.tasks slot) [ none ↦ none | some t ↦ some t.state ]
]

unfoldable pub cancel_all : TaskScheduler → TaskScheduler
cancel_all s = record s {
  tasks = replicate (length s.tasks) empty;
  ready_slots = replicate (length s.ready_slots) no_slot;
  ready_head = 0;
  ready_len = 0;
  active = none;
}
