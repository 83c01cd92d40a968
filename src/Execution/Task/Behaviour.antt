-- ===== src/Execution/Task/Behaviour.antt =====
-- What single calls of the scheduler do: who runs next, what a spawned task is, and who is woken.
use compukter_vm.Prelude.{
  ℕ, ◌≡◌, ◌≢◌, ◌⊎◌, inl, inr, refl, ap, ◌∙◌, Option, none, some, true, List, [], ◌∷◌, ◌++◌,
  get_elem?, arith, opt_eq, ok, err, get_elem?-lt, Option-cases, Bool-cases, get_elem?-set_self,
  position-none,
}
use compukter_vm.Execution.Task.{
  TaskId, RequestId, TaskRecord, TaskScheduler, ready, running, waiting, host, waits_host, slot_of,
  unknown_task, wrong_wait,
}
use compukter_vm.Execution.Task.Calls.{wake, complete_host, activate_next, state_of}
use compukter_vm.Execution.Task.Invariant.{queue, Inv, state_at}
use compukter_vm.Execution.Task.Steps.{armed, queue-armed}
use compukter_vm.Execution.Task.Activation.{
  activated, slot_ready, activate_next_lem, activate_next-idle, queue-activated, Inv-activated,
}
use compukter_vm.Execution.Task.Operations.{queue-cases, wake_lem}
use compukter_vm.Execution.Task.Joins.{found_at}

opt_eq-some : (o : Option ℕ) (a : ℕ) → opt_eq o (some a) ≡ true → o ≡ some a
opt_eq-some none a h = absurd (ground arith)
opt_eq-some (some b) a h = ground arith

opt_eq_self : (o : Option ℕ) (a : ℕ) → o ≡ some a → opt_eq o (some a) ≡ true
opt_eq_self o a h = ground arith

-- An identity is found at the one slot whose record has it.
pub slot_of-here :
    (s : TaskScheduler) (slot : ℕ) (t : TaskRecord) (a : TaskId)
    → Inv s
    → get_elem? s.tasks slot ≡ some t
    → t.id ≡ some a
    → slot_of a s ≡ some slot
unfolding slot_of
slot_of-here s slot t a v g id = elim (Option-cases (slot_of a s)) [
  | inl lost ↦ absurd (
      ground (
        arith,
        position-none (λ u. opt_eq u.id (some a)) s.tasks slot lost g,
        opt_eq_self t.id a id,
      ))
  | inr (at, e) ↦
      let (u, gu, same) = found_at s a at e in
      e ∙ ap some (v.records.unique at slot u t a gu g (opt_eq-some u.id a same) id)
]

-- A ready task has an identity.
ready_id :
    (s : TaskScheduler) (slot : ℕ) (t : TaskRecord)
    → Inv s
    → get_elem? s.tasks slot ≡ some t
    → t.state ≡ ready
    → (a : TaskId) × (t.id ≡ some a)
ready_id s slot t v g was = elim (v.records.owned slot t g) [
  | inl (empty, _) ↦ absurd (ground arith)
  | inr (a, _, id, _, _) ↦ (a, id)
]

state_of-at :
    (a : TaskId) (s : TaskScheduler) (slot : ℕ) (t : TaskRecord)
    → slot_of a s ≡ some slot
    → get_elem? s.tasks slot ≡ some t
    → state_of a s ≡ some t.state
unfolding state_of
state_of-at a s slot t e g = ground arith

state_of-lost : (a : TaskId) (s : TaskScheduler) → slot_of a s ≡ none → state_of a s ≡ none
unfolding state_of
state_of-lost a s e = ground arith

-- On a well-formed scheduler with no task running, `activate_next` runs the task at the front of the
-- ready queue, takes its slot off the queue and returns its identity; it returns `None`, and
-- changes nothing, exactly when the queue is empty.
pub activate_next-front :
    (s : TaskScheduler)
    → Inv s
    → s.active ≡ none
    → ((queue s ≡ []) × (activate_next s ≡ (ok none, s)))
      ⊎ ((slot : ℕ) × (rest : List ℕ) × (a : TaskId) × (s' : TaskScheduler) × (queue s
            ≡ slot ∷ rest)
          × (slot_of a s ≡ some slot)
          × (activate_next s ≡ (ok (some a), s'))
          × (queue s' ≡ rest)
          × (s'.active ≡ some slot)
          × (state_of a s' ≡ some running))
unfolding slot_of state_of
activate_next-front s v free = elim (queue-cases s) [
  | inl (idle, nobody) ↦ inl (nobody, activate_next-idle s free idle)
  | inr (slot, rest, front) ↦
      let (t, g, was) = slot_ready s slot rest v free front in
      let (a, id) = ready_id s slot t v g was in
      let s' : TaskScheduler = activated s slot t in
      let v' : Inv s' = Inv-activated s slot rest v free front t g in
      let set_here =
        get_elem?-set_self s.tasks slot (record t { state = running })
          (get_elem?-lt s.tasks slot g) in
      let found = slot_of-here s' slot (record t { state = running }) a v' set_here id in
      inr (
        slot,
        rest,
        a,
        s',
        front,
        slot_of-here s slot t a v g id,
        activate_next_lem s slot rest v free front t g ∙ ap (λ (o : Option TaskId). (ok o, s')) id,
        queue-activated s slot rest v free front t,
        refl,
        state_of-at a s' slot _ found set_here,
      )
]

-- On a well-formed scheduler a host completion for a task that waits for that very request makes the
-- task ready, behind all others; any other completion is refused and changes nothing.
pub complete_host-exact :
    (s : TaskScheduler) (task : TaskId) (request : RequestId)
    → Inv s
    → ((slot : ℕ) × (s' : TaskScheduler) × (slot_of task s ≡ some slot)
        × (state_at s.tasks slot ≡ some (waiting (host request)))
        × (complete_host task request s ≡ (ok tt, s'))
        × (queue s' ≡ queue s ++ slot ∷ [])
        × (state_at s'.tasks slot ≡ some ready))
      ⊎ ((state_of task s ≢ some (waiting (host request)))
          × ((complete_host task request s ≡ (err unknown_task, s))
              ⊎ (complete_host task request s ≡ (err wrong_wait, s))))
unfolding complete_host wake
complete_host-exact s task request v = elim (Option-cases (slot_of task s)) [
  | inl lost ↦
      inr ((λ e. cc (state_of-lost task s lost)), inl (unfold slot_of in ground (arith, lost)))
  | inr (slot, found) ↦
      let (t, g, _) = found_at s task slot found in
      elim (Bool-cases (waits_host request t.state)) [
        | inl waits ↦
            let r : TaskRecord = record t { state = ready } in
            inl (
              slot,
              armed s slot r s.next_id,
              found,
              ground arith,
              wake_lem s (waits_host request) task slot t v found g waits (ground arith),
              queue-armed s slot t r s.next_id v g (ground arith) refl,
              ground (arith, get_elem?-set_self s.tasks slot r (get_elem?-lt s.tasks slot g)),
            )
        | inr other ↦ inr (
          (λ e. ground (arith, state_of-at task s slot t found g)),
          inr (unfold slot_of in ground (arith, found)),
        )
      ]
]
