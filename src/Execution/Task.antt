-- ===== src/Execution/Task.antt =====
-- src/execution/task.rs: the cooperative task scheduler. A `TaskId` and a `RequestId`
-- (src/execution/host.rs) are numbers other than 0. The two boxed slices are lists whose lengths
-- never change; sums of a head and a length stay below twice a slice's length, so they do not wrap.
pub mod Calls
pub mod Invariant
pub mod Steps
pub mod Activation
pub mod Operations
pub mod Joins
pub mod Runs
pub mod Behaviour
mod Tests
use compukter_vm.Prelude.{
  ℕ, zero, suc, ◌+◌, ◌-◌, ◌%◌, ◌^◌, Option, none, some, Bool, true, false, List, length, get_elem?,
  set, replicate, position, Result, ok, err, panic, ok_or, expect, Method, ◌>>=◌, ◌>>◌, pure, raise,
  lift, gets, modify, guard, ltb, leb, ◌==◌, opt_eq, if◌then◌else◌, not,
}

abbrev pub TaskId : Type 0
TaskId = ℕ

abbrev pub RequestId : Type 0
RequestId = ℕ

-- `TaskId::new`
unfoldable pub new_task_id : ℕ → Option TaskId
new_task_id value = if value == 0 then none else some value

abbrev pub root : TaskId
root = 1

-- `i32::MAX`
abbrev pub i32_max : ℕ
i32_max = 2147483647

pub data TaskWait : Type 0 where
  host : RequestId → TaskWait
  join_of : TaskId → TaskWait
  channel : ℕ → TaskWait

pub data TaskState : Type 0 where
  vacant ready running : TaskState
  waiting : TaskWait → TaskState
  completed : TaskState

pub data TaskError : Type 0 where
  already_started not_started no_capacity id_exhausted no_running_task : TaskError
  unknown_task wrong_wait self_join join_cycle corrupt_queue : TaskError

pub record TaskRecord : Type 0 where
  pub id : Option TaskId
  pub state : TaskState

abbrev pub empty : TaskRecord
empty = record { id = none; state = vacant }

pub record TaskScheduler : Type 0 where
  pub tasks : List TaskRecord
  pub ready_slots : List ℕ
  pub ready_head : ℕ
  pub ready_len : ℕ
  pub active : Option ℕ
  pub next_id : ℕ

-- `==` of states, as the code uses it.
abbrev pub is_vacant : TaskState → Bool
is_vacant vacant = true
is_vacant _ = false

abbrev pub is_ready : TaskState → Bool
is_ready ready = true
is_ready _ = false

abbrev pub is_running : TaskState → Bool
is_running running = true
is_running _ = false

abbrev pub is_completed : TaskState → Bool
is_completed completed = true
is_completed _ = false

abbrev pub waits_host : RequestId → TaskState → Bool
waits_host r (waiting (host q)) = q == r
waits_host r _ = false

abbrev pub waits_join : TaskId → TaskState → Bool
waits_join t (waiting (join_of u)) = u == t
waits_join t _ = false

abbrev pub waits_channel : ℕ → TaskState → Bool
waits_channel c (waiting (channel d)) = d == c
waits_channel c _ = false

abbrev pub M : Type 0 → Type 0
M = Method TaskScheduler TaskError

-- `usize::MAX`, which fills the cells of the ready queue that are not in use.
abbrev pub no_slot : ℕ
no_slot = 18446744073709551615

-- An allocation that fails is `NoCapacity` too: `granted` says whether the allocator serves it.
unfoldable pub new : (granted : Bool) → ℕ → Result TaskError TaskScheduler
new granted capacity =
    if capacity == 0
    then err no_capacity
    else if granted
    then ok (record {
      tasks = replicate capacity empty;
      ready_slots = replicate capacity no_slot;
      ready_head = 0;
      ready_len = 0;
      active = none;
      next_id = root + 1;
    })
    else err no_capacity

-- `self.tasks[slot]`
unfoldable pub task_at : ℕ → M TaskRecord
task_at slot s = (expect (get_elem? s.tasks slot), s)

-- `self.tasks[slot].state = state`
unfoldable pub set_state : ℕ → TaskState → M (Unit {0})
unfolding task_at
set_state slot state = do
  task ← task_at slot
  modify (λ s. record s { tasks = set s.tasks slot (record task { state = state }) })

-- `self.tasks[slot] = task`
unfoldable pub set_task : ℕ → TaskRecord → M (Unit {0})
unfolding task_at
set_task slot task = do task_at slot; modify (λ s. record s { tasks = set s.tasks slot task })

-- `self.slot(id)`
unfoldable pub slot_of : TaskId → TaskScheduler → Option ℕ
slot_of id s = position (λ task. opt_eq task.id (some id)) s.tasks

unfoldable pub slot_or_unknown : TaskId → M ℕ
unfolding slot_of
slot_or_unknown id s = (ok_or (slot_of id s) unknown_task, s)

unfoldable pub enqueue : ℕ → M (Unit {0})
enqueue slot s =
    if s.ready_len == length s.ready_slots
    then (err corrupt_queue, s)
    else if ltb 0 (length s.ready_slots)
    then (
      ok tt,
      record s {
        ready_slots = set s.ready_slots ((s.ready_head + s.ready_len) % length s.ready_slots) slot;
        ready_len = s.ready_len + 1;
      },
    )
    else (panic, s)

-- `self.active.take().ok_or(NoRunningTask)?`
unfoldable pub take_active : M ℕ
take_active s = (ok_or s.active no_running_task, record s { active = none })

unfoldable pub suspend : TaskWait → M TaskId
unfolding take_active task_at set_state
suspend wait = do
  slot ← take_active
  task ← task_at slot
  id ← lift (ok_or task.id no_running_task)
  set_state slot (waiting wait)
  pure id
