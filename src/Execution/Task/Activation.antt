-- ===== src/Execution/Task/Activation.antt =====
-- The scheduler's writes that let a task run: the head of the ready queue, and the root task.
use compukter_vm.Prelude.{
  ℕ, ◌+◌, ◌-◌, ◌%◌, ◌≤◌, ◌<◌, ◌≡◌, inl, inr, refl, sym, ap, ◌∙◌, subst, none, some, true, List, ◌∷◌,
  length, get_elem?, get_or, set, All, Nodup, arith, ok, length-set, get_elem?-lt, get_or-eq,
  Option-cases, get_elem?-set, count-set, count-le-length,
}
use compukter_vm.Prelude.Ring.{ring, ring-pop, ring-pop-set, length-ring}
use compukter_vm.Execution.Task.{
  TaskRecord, TaskScheduler, ready, running, vacant, is_vacant, is_ready, no_slot, root,
}
use compukter_vm.Execution.Task.Calls.{activate_next, start_root}
use compukter_vm.Execution.Task.Invariant.{
  queue, IsReadyAt, Inv, Records-set, All-ready-set, NotIn-of_not_ready, Rooted-set,
}

-- The scheduler after the head of the queue, `slot`, was made the running task.
abbrev pub activated : TaskScheduler → ℕ → TaskRecord → TaskScheduler
activated s slot old = record s {
  tasks = set s.tasks slot (record old { state = running });
  ready_slots = set s.ready_slots s.ready_head no_slot;
  ready_head = (s.ready_head + 1) % length s.ready_slots;
  ready_len = s.ready_len - 1;
  active = some slot;
}

module _ (s : TaskScheduler) (slot : ℕ) (rest : List ℕ) (v : Inv s) (free : s.active ≡ none)
    (front : queue s ≡ slot ∷ rest) where
  filled : 0 < s.ready_len
  filled = omega (
    arith,
    ap length front,
    length-ring no_slot s.ready_slots 0 (length s.tasks) s.ready_head s.ready_len,
  )

  bounded : s.ready_len ≤ length s.tasks
  bounded = omega (arith, v.counted, count-le-length (λ t. is_ready t.state) s.tasks)

  -- The entries behind the head.
  behind : List ℕ
  behind =
      ring no_slot s.ready_slots 0 (length s.tasks) ((s.ready_head + 1) % length s.tasks)
        (s.ready_len - 1)

  split : get_or s.ready_slots (0 + s.ready_head) no_slot ∷ behind ≡ slot ∷ rest
  unfolding behind
  split =
      sym (
        ring-pop no_slot s.ready_slots 0 (length s.tasks) s.ready_head s.ready_len v.head_ok filled)
      ∙ front

  head-get : get_elem? s.ready_slots s.ready_head ≡ some slot
  head-get = ground (
    arith,
    split,
    get_or-eq s.ready_slots (0 + s.ready_head) no_slot (omega (arith, v.head_ok, v.sized)),
  )

  pub queue-activated : (old : TaskRecord) → queue (activated s slot old) ≡ rest
  unfolding behind
  queue-activated old =
      rw
        (
          length-set s.tasks slot (record old { state = running }),
          v.sized,
          ring-pop-set no_slot s.ready_slots 0 (length s.tasks) s.ready_head s.ready_len
              s.ready_head no_slot (omega arith) v.head_ok filled bounded,
        )
        (cc split)

  parted : All (IsReadyAt s.tasks) (slot ∷ rest) × Nodup (slot ∷ rest)
  parted = (subst (All (IsReadyAt s.tasks)) front v.queued, subst Nodup front v.distinct)

  pub slot_ready : (old : TaskRecord) × (get_elem? s.tasks slot ≡ some old) × (old.state ≡ ready)
  slot_ready = elim (Option-cases (get_elem? s.tasks slot)) [
    | inl e ↦ absurd (ground (arith, parted.0.0))
    | inr (old, e) ↦ (old, e, ground (arith, parted.0.0))
  ]

  module _ (old : TaskRecord) (here : get_elem? s.tasks slot ≡ some old) where
    was_ready : old.state ≡ ready
    was_ready = ground (arith, parted.0.0)

    pub activate_next_lem : activate_next s ≡ (ok old.id, activated s slot old)
    unfolding activate_next
    activate_next_lem = ground (arith, filled, head-get, was_ready)

    pub Inv-activated : Inv (activated s slot old)
    Inv-activated = record {
      sized = omega (
        arith,
        length-set s.ready_slots s.ready_head no_slot,
        length-set s.tasks slot (record old { state = running }),
        v.sized,
      );
      head_ok =
          omega
            (arith, length-set s.tasks slot (record old { state = running }), v.sized, v.head_ok);
      next_lo = v.next_lo;
      next_hi = v.next_hi;
      active_lt = λ i e.
          rw (length-set s.tasks slot (record old { state = running }))
            (ground (arith, get_elem?-lt s.tasks slot here));
      counted = ground (
        arith,
        was_ready,
        filled,
        v.counted,
        count-set (λ t. is_ready t.state) s.tasks slot (record old { state = running }) here,
      );
      queued = rw (queue-activated old) (
          All-ready-set s.tasks slot (record old { state = running }) rest
            (get_elem?-lt s.tasks slot here) parted.1.0 parted.0.1);
      distinct = rw (queue-activated old) parted.1.1;
      records =
          Records-set slot (record old { state = running }) v.records here (omega arith)
            (ground (arith, was_ready, v.records.owned slot old here)) (inl refl) (ground arith)
            λ i ne. ground (arith, free);
      rooted =
          Rooted-set s.tasks slot (record old { state = running }) (get_elem?-lt s.tasks slot here)
            refl λ e. absurd (ground (arith, was_ready, v.rooted e slot old here));
    }

-- With nothing to run, the scheduler stays as it is.
pub activate_next-idle :
    (s : TaskScheduler) → s.active ≡ none → s.ready_len ≡ 0 → activate_next s ≡ (ok none, s)
unfolding activate_next
activate_next-idle s free e = ground arith

-- The root task in the first slot.
abbrev pub rooted_at : TaskScheduler → TaskScheduler
rooted_at s = record s {
  tasks = set s.tasks 0 (record { id = some root; state = running });
  active = some 0;
}

module _ (s : TaskScheduler) (old : TaskRecord) (v : Inv s) (here : get_elem? s.tasks 0 ≡ some old)
    (idle : old.state ≡ vacant) (free : s.active ≡ none) where
  main_task : TaskRecord
  main_task = record { id = some root; state = running }

  nobody : (i : ℕ) (t : TaskRecord) → get_elem? s.tasks i ≡ some t → is_vacant t.state ≡ true
  nobody = v.rooted (ground arith)

  nameless : (i : ℕ) (t : TaskRecord) → get_elem? s.tasks i ≡ some t → t.id ≡ none
  nameless i t g = ground (arith, nobody i t g, v.records.owned i t g)

  pub start_root_lem : start_root s ≡ (ok tt, rooted_at s)
  unfolding start_root
  start_root_lem = ground arith

  pub queue-rooted : queue (rooted_at s) ≡ queue s
  queue-rooted = rw (length-set s.tasks 0 (record { id = some root; state = running }))

  pub Inv-rooted : Inv (rooted_at s)
  unfolding main_task
  Inv-rooted = record {
    sized = omega (arith, length-set s.tasks 0 main_task, v.sized);
    head_ok = omega (arith, length-set s.tasks 0 main_task, v.head_ok);
    next_lo = v.next_lo;
    next_hi = v.next_hi;
    active_lt =
        λ i e. rw (length-set s.tasks 0 main_task) (ground (arith, get_elem?-lt s.tasks 0 here));
    counted = ground (arith, v.counted, count-set (λ t. is_ready t.state) s.tasks 0 main_task here);
    queued = rw queue-rooted (
        All-ready-set s.tasks 0 main_task (queue s) (get_elem?-lt s.tasks 0 here)
          (NotIn-of_not_ready s.tasks 0 (queue s) (λ e. ground arith) v.queued) v.queued);
    distinct = rw queue-rooted v.distinct;
    records = record {
      owned = λ i t g. ground (
        arith,
        v.next_lo,
        get_elem?-set s.tasks 0 i main_task (get_elem?-lt s.tasks 0 here),
        v.records.owned i t,
      );
      runs = λ i t g. ground (
        arith,
        get_elem?-set s.tasks 0 i main_task (get_elem?-lt s.tasks 0 here),
        v.records.runs i t,
      );
      unique = λ i j t u k gi gj ti uj. ground (
        arith,
        get_elem?-set s.tasks 0 i main_task (get_elem?-lt s.tasks 0 here),
        get_elem?-set s.tasks 0 j main_task (get_elem?-lt s.tasks 0 here),
        nameless i t,
        nameless j u,
      );
    };
    rooted = Rooted-set s.tasks 0 main_task (get_elem?-lt s.tasks 0 here) refl λ e. refl;
  }
