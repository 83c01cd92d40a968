-- ===== src/Execution/Task/Operations.antt =====
-- The scheduler's operations, on every branch: each one succeeds and keeps the invariant, or
-- returns an error and leaves the scheduler as it was.
use compukter_vm.Prelude.{
  ℕ, ◌+◌, ◌≤◌, ◌≡◌, ◌≢◌, ◌⊎◌, inl, inr, refl, sym, ap, ◌∙◌, subst, Option, some, Bool, true, false,
  List, [], ◌∷◌, ◌++◌, length, get_elem?, arith, leb, opt_eq, Result, ok, err, Option-cases,
  Bool-cases, lt-get_elem?, position, position-some,
}
use mathlib.Core.List.{append-nil}
use compukter_vm.Prelude.Ring.{length-ring}
use compukter_vm.Execution.Task.{
  TaskId, TaskWait, TaskState, TaskRecord, TaskScheduler, TaskError, i32_max, ready, running,
  waiting, is_vacant, is_ready, is_running, no_slot, suspend, slot_of, corrupt_queue,
  no_running_task, unknown_task, wrong_wait, no_capacity, id_exhausted, already_started,
}
use compukter_vm.Execution.Task.Calls.{activate_next, start_root, wake, spawn}
use compukter_vm.Execution.Task.Invariant.{queue, Inv}
use compukter_vm.Execution.Task.Steps.{
  room, armed, retired, queue-armed, Inv-armed, Inv-retired, queue-retired,
}
use compukter_vm.Execution.Task.Activation.{
  rooted_at, slot_ready, activate_next_lem, activate_next-idle, Inv-activated, queue-activated,
  queue-rooted, start_root_lem, Inv-rooted,
}

-- The ready queue changes at its ends alone: slots join at the back, or the front one leaves.
abbrev pub Fifo : TaskScheduler → TaskScheduler → Type 0
Fifo s s' =
    ((added : List ℕ) × (queue s' ≡ queue s ++ added)) ⊎ ((slot : ℕ) × (queue s ≡ slot ∷ queue s'))

-- What every operation promises: it never panics and never finds its queue corrupt.
abbrev pub Sound : {A : Type 0} → TaskScheduler → Result TaskError A × TaskScheduler → Type 0
Sound {A} s out =
    ((a : A) × (out.0 ≡ ok a) × Inv out.1 × Fifo s out.1)
    ⊎ ((e : TaskError) × (out ≡ (err e, s)) × (e ≢ corrupt_queue))

pub Sound-ok :
    {A : Type 0} (s : TaskScheduler) {out : Result TaskError A × TaskScheduler} {a : A}
    {s' : TaskScheduler}
    → out ≡ (ok a, s')
    → Inv s'
    → Fifo s s'
    → Sound s out
Sound-ok s {out} {a} {s'} e v f =
    let back = sym (ap (λ o. o.1) e) in
    inl (a, ap (λ o. o.0) e, subst Inv back v, subst (Fifo s) back f)

pub Fifo-same : (s s' : TaskScheduler) → queue s' ≡ queue s → Fifo s s'
Fifo-same s s' e = inl ([], e ∙ sym (append-nil (queue s)))

-- The running task's record.
pub active_record :
    (s : TaskScheduler) (slot : ℕ)
    → Inv s
    → s.active ≡ some slot
    → (t : TaskRecord) × (a : TaskId) × (get_elem? s.tasks slot ≡ some t)
      × (t.id ≡ some a)
      × (t.state ≡ running)
active_record s slot v e =
    let (t, g) = lt-get_elem? s.tasks slot (v.active_lt slot e) in
    let run : t.state ≡ running = ground (arith, v.records.runs slot t g) in
    elim (v.records.owned slot t g) [
      | inl (empty, _) ↦ absurd (ground (arith, run))
      | inr (a, _, id, _, _) ↦ (t, a, g, id, run)
    ]

pub suspend_lem :
    (s : TaskScheduler) (w : TaskWait) (slot : ℕ) (t : TaskRecord) (a : TaskId)
    → s.active ≡ some slot
    → get_elem? s.tasks slot ≡ some t
    → t.id ≡ some a
    → suspend w s ≡ (ok a, retired s slot (record t { state = waiting w }))
unfolding suspend
suspend_lem s w slot t a e g i = ground arith

pub suspend-Sound : (s : TaskScheduler) (w : TaskWait) → Inv s → Sound s (suspend w s)
unfolding suspend
suspend-Sound s w v = elim (Option-cases s.active) [
  | inl e ↦ inr (no_running_task, ground arith, λ q. cc)
  | inr (slot, e) ↦
      let (t, a, g, i, run) = active_record s slot v e in
      Sound-ok s (suspend_lem s w slot t a e g i)
        (Inv-retired s slot t (record t { state = waiting w }) v g e refl refl refl refl)
        (Fifo-same s (retired s slot (record t { state = waiting w }))
          (queue-retired s slot t (record t { state = waiting w }) v g e refl refl refl refl))
]

-- Waking a task that waits puts its slot at the end of the ready queue.
pub wake_lem :
    (s : TaskScheduler) (expected : TaskState → Bool) (task : TaskId) (slot : ℕ) (t : TaskRecord)
    → Inv s
    → slot_of task s ≡ some slot
    → get_elem? s.tasks slot ≡ some t
    → expected t.state ≡ true
    → is_ready t.state ≡ false
    → wake expected task s ≡ (ok tt, armed s slot (record t { state = ready }) s.next_id)
unfolding wake
wake_lem s expected task slot t v found g wants idle =
    ground (arith, room s slot t (record t { state = ready }) s.next_id v g idle refl, v.sized)

pub Inv-woken :
    (s : TaskScheduler) (slot : ℕ) (t : TaskRecord)
    → Inv s
    → get_elem? s.tasks slot ≡ some t
    → is_ready t.state ≡ false
    → is_running t.state ≡ false
    → is_vacant t.state ≡ false
    → Inv (armed s slot (record t { state = ready }) s.next_id)
Inv-woken s slot t v g idle still held =
    Inv-armed s slot t (record t { state = ready }) s.next_id v g idle refl (omega arith) v.next_hi
      (ground (arith, v.records.owned slot t g)) (inl refl) still
      λ e. absurd (ground (arith, v.rooted e slot t g))

pub wake-Sound :
    (s : TaskScheduler) (expected : TaskState → Bool) (task : TaskId)
    → ((st : TaskState)
        → expected st ≡ true
        → (is_ready st ≡ false) × (is_running st ≡ false) × (is_vacant st ≡ false))
    → Inv s
    → Sound s (wake expected task s)
unfolding wake slot_of
wake-Sound s expected task waits v = elim (Option-cases (slot_of task s)) [
  | inl e ↦ inr (unknown_task, ground (arith, e), λ q. cc)
  | inr (slot, e) ↦
      let (t, g, _) = position-some (λ t. opt_eq t.id (some task)) s.tasks slot e in
      elim (Bool-cases (expected t.state)) [
        | inl wants ↦
            let (idle, still, held) = waits t.state wants in
            Sound-ok s (wake_lem s expected task slot t v e g wants idle)
              (Inv-woken s slot t v g idle still held)
              (inl (
                slot ∷ [],
                queue-armed s slot t (record t { state = ready }) s.next_id v g idle refl,
              ))
        | inr other ↦ inr (wrong_wait, ground (arith, e), λ q. cc)
      ]
]

-- A free slot, as `spawn` looks for it.
abbrev pub free_slot : TaskScheduler → Option ℕ
free_slot s = position (λ task. is_vacant task.state) s.tasks

abbrev newborn : TaskScheduler → TaskRecord
newborn s = record { id = some s.next_id; state = ready }

pub spawn_lem :
    (s : TaskScheduler) (slot running_slot : ℕ)
    → Inv s
    → s.active ≡ some running_slot
    → free_slot s ≡ some slot
    → s.next_id ≤ i32_max
    → spawn s
      ≡ (ok s.next_id, armed s slot (record { id = some s.next_id; state = ready }) (s.next_id + 1))
unfolding spawn
spawn_lem s slot running_slot v e free fits =
    let (t, g, empty) = position-some (λ task. is_vacant task.state) s.tasks slot free in
    ground
      (arith, room s slot t (newborn s) (s.next_id + 1) v g (ground arith) refl, v.sized, v.next_lo)

pub spawn-Sound : (s : TaskScheduler) → Inv s → Sound s (spawn s)
unfolding spawn
spawn-Sound s v = elim (Option-cases s.active) [
  | inl e ↦ inr (no_running_task, ground arith, λ q. cc)
  | inr (current, e) ↦ elim (Option-cases (free_slot s)) [
    | inl full ↦ inr (no_capacity, ground arith, λ q. cc)
    | inr (slot, free) ↦ elim (Bool-cases (leb s.next_id i32_max)) [
      | inr over ↦ inr (id_exhausted, ground arith, λ q. cc)
      | inl fits ↦
          let (t, g, empty) = position-some (λ task. is_vacant task.state) s.tasks slot free in
          Sound-ok s (spawn_lem s slot current v e free (ground arith))
            (Inv-armed s slot t (newborn s) (s.next_id + 1) v g (ground arith) refl (omega arith)
              (ground arith) (ground (arith, v.next_lo)) (inr (s.next_id, refl, omega arith))
              (ground arith)
              λ first.
                let (c, a, at, id, run) = active_record s current v e in
                absurd (ground (arith, v.rooted first current c at)))
            (inl
              (slot ∷ [], queue-armed s slot t (newborn s) (s.next_id + 1) v g (ground arith) refl))
    ]
  ]
]

pub start_root-Sound : (s : TaskScheduler) → Inv s → Sound s (start_root s)
unfolding start_root
start_root-Sound s v = elim (Option-cases s.active) [
  | inr (current, e) ↦ inr (already_started, ground arith, λ q. cc)
  | inl free ↦
      let (t, g) = lt-get_elem? s.tasks 0 (omega (arith, v.head_ok)) in
      elim (Bool-cases (is_vacant t.state)) [
        | inl empty ↦
            Sound-ok s (start_root_lem s t v g (ground arith) free)
              (Inv-rooted s t v g (ground arith) free)
              (Fifo-same s (rooted_at s) (queue-rooted s t v g (ground arith) free))
        | inr held ↦ inr (already_started, ground arith, λ q. cc)
      ]
]

pub queue-cases :
    (s : TaskScheduler)
    → ((s.ready_len ≡ 0) × (queue s ≡ []))
      ⊎ ((slot : ℕ) × (rest : List ℕ) × (queue s ≡ slot ∷ rest))
queue-cases s = go (queue s) refl
  where
    go :
        (q : List ℕ)
        → queue s ≡ q
        → ((s.ready_len ≡ 0) × (queue s ≡ []))
          ⊎ ((slot : ℕ) × (rest : List ℕ) × (queue s ≡ slot ∷ rest))
    go [] e = inl (
      omega (
        arith,
        ap length e,
        length-ring no_slot s.ready_slots 0 (length s.tasks) s.ready_head s.ready_len,
      ),
      e,
    )
    go (slot ∷ rest) e = inr (slot, rest, e)

pub activate_next-Sound : (s : TaskScheduler) → Inv s → Sound s (activate_next s)
unfolding activate_next
activate_next-Sound s v = elim (Option-cases s.active) [
  | inr (current, e) ↦ inr (no_running_task, ground arith, λ q. cc)
  | inl free ↦ elim (queue-cases s) [
    | inl (none_ready, _) ↦ Sound-ok s (activate_next-idle s free none_ready) v (Fifo-same s s refl)
    | inr (slot, rest, front) ↦
        let (t, g, _) = slot_ready s slot rest v free front in
        Sound-ok s (activate_next_lem s slot rest v free front t g)
          (Inv-activated s slot rest v free front t g)
          (inr (slot, front ∙ ap (◌∷◌ slot) (sym (queue-activated s slot rest v free front t))))
  ]
]
