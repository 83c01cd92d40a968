-- ===== src/Execution/Task/Steps.antt =====
-- The scheduler's elementary writes, and what they do to the invariant and to the ready queue.
use compukter_vm.Prelude.{
  ℕ, suc, ◌+◌, ◌%◌, ◌≤◌, ◌<◌, ◌≡◌, ◌⊎◌, inl, refl, none, some, true, false, [], ◌∷◌, ◌++◌, length,
  get_elem?, set, NotIn, arith, ok, length-set, get_elem?-lt, count-set, count-le-length,
  All-append, Nodup-snoc,
}
use compukter_vm.Prelude.Ring.{ring-push_at}
use compukter_vm.Execution.Task.{
  TaskRecord, TaskScheduler, i32_max, ready, vacant, is_vacant, is_ready, is_running, enqueue,
  no_slot,
}
use compukter_vm.Execution.Task.Invariant.{
  queue, state_at, IsReadyAt, RecordOk, Inv, Records-set, All-ready-set, NotIn-of_not_ready,
  state_at-set, Rooted-set,
}

-- The scheduler with `r` at `slot`, and `slot` at the end of the ready queue.
abbrev pub armed : TaskScheduler → ℕ → TaskRecord → ℕ → TaskScheduler
armed s slot r next = record s {
  tasks = set s.tasks slot r;
  ready_slots = set s.ready_slots ((s.ready_head + s.ready_len) % length s.ready_slots) slot;
  ready_len = s.ready_len + 1;
  next_id = next;
}

-- A task that was not ready becomes so: there is room for it in the queue, and it goes to the end.
module _ (s : TaskScheduler) (slot : ℕ) (old r : TaskRecord) (next : ℕ) (v : Inv s)
    (here : get_elem? s.tasks slot ≡ some old) (idle : is_ready old.state ≡ false)
    (now : r.state ≡ ready) where
  pub room : s.ready_len < length s.tasks
  room = ground (
    arith,
    v.counted,
    count-set (λ t. is_ready t.state) s.tasks slot r here,
    count-le-length (λ t. is_ready t.state) (set s.tasks slot r),
    length-set s.tasks slot r,
  )

  pub enqueue-armed :
      enqueue slot (record s { tasks = set s.tasks slot r; next_id = next })
      ≡ (ok tt, armed s slot r next)
  unfolding enqueue
  enqueue-armed = ground (arith, room, v.sized)

  pub queue-armed : queue (armed s slot r next) ≡ queue s ++ slot ∷ []
  queue-armed =
      rw (length-set s.tasks slot r, v.sized)
        (ring-push_at no_slot s.ready_slots 0 (length s.tasks) s.ready_head s.ready_len
          ((s.ready_head + s.ready_len) % length s.tasks) slot (omega arith) v.head_ok room
          (omega (arith, v.sized)))

  fresh : NotIn slot (queue s)
  fresh = NotIn-of_not_ready s.tasks slot (queue s) (λ e. ground arith) v.queued

  pub Inv-armed :
      s.next_id ≤ next
      → next ≤ suc i32_max
      → RecordOk next r
      → (r.id ≡ old.id) ⊎ ((k : ℕ) × (r.id ≡ some k) × (s.next_id ≤ k))
      → is_running old.state ≡ false
      → (state_at s.tasks 0 ≡ some vacant → slot ≡ 0)
      → Inv (armed s slot r next)
  Inv-armed le top own same still first = record {
    sized = omega (
      arith,
      length-set s.ready_slots ((s.ready_head + s.ready_len) % length s.ready_slots) slot,
      length-set s.tasks slot r,
      v.sized,
    );
    head_ok = rw (length-set s.tasks slot r) v.head_ok;
    next_lo = omega (arith, v.next_lo);
    next_hi = top;
    active_lt = rw (length-set s.tasks slot r) v.active_lt;
    counted = ground (arith, v.counted, count-set (λ t. is_ready t.state) s.tasks slot r here);
    queued = rw queue-armed (
        All-append (IsReadyAt (set s.tasks slot r)) (queue s) (slot ∷ [])
          (All-ready-set s.tasks slot r (queue s) (get_elem?-lt s.tasks slot here) fresh v.queued)
          (ground (arith, state_at-set s.tasks slot slot r (get_elem?-lt s.tasks slot here)), tt));
    distinct = rw queue-armed (Nodup-snoc (queue s) slot v.distinct fresh);
    records =
        Records-set slot r v.records here le own same (ground (arith, v.records.runs slot old here))
          λ i ne. refl;
    rooted = Rooted-set s.tasks slot r (get_elem?-lt s.tasks slot here) (ground arith) first;
  }

-- The running task stops running: `r` is neither running nor ready, and has the same identity.
abbrev pub retired : TaskScheduler → ℕ → TaskRecord → TaskScheduler
retired s slot r = record s { tasks = set s.tasks slot r; active = none }

module _ (s : TaskScheduler) (slot : ℕ) (old r : TaskRecord) (v : Inv s)
    (here : get_elem? s.tasks slot ≡ some old) (active : s.active ≡ some slot)
    (same : r.id ≡ old.id) (idle : is_ready r.state ≡ false) (still : is_running r.state ≡ false)
    (held : is_vacant r.state ≡ false) where
  old-running : is_running old.state ≡ true
  old-running = ground (arith, v.records.runs slot old here)

  pub queue-retired : queue (retired s slot r) ≡ queue s
  queue-retired = rw (length-set s.tasks slot r)

  pub Inv-retired : Inv (retired s slot r)
  Inv-retired = record {
    sized = omega (arith, length-set s.tasks slot r, v.sized);
    head_ok = rw (length-set s.tasks slot r) v.head_ok;
    next_lo = v.next_lo;
    next_hi = v.next_hi;
    active_lt = λ i e. cc;
    counted =
        ground
          (arith, old-running, v.counted, count-set (λ t. is_ready t.state) s.tasks slot r here);
    queued = rw queue-retired (
        All-ready-set s.tasks slot r (queue s) (get_elem?-lt s.tasks slot here)
          (NotIn-of_not_ready s.tasks slot (queue s) (λ e. ground (arith, old-running)) v.queued)
          v.queued);
    distinct = rw queue-retired v.distinct;
    records =
        Records-set slot r v.records here (omega arith)
          (ground (arith, old-running, v.records.owned slot old here)) (inl same) still
          λ i ne. ground arith;
    rooted =
        Rooted-set s.tasks slot r (get_elem?-lt s.tasks slot here) held
          λ e. absurd (ground (arith, old-running, v.rooted e slot old here));
  }
