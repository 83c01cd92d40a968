-- ===== src/Execution/Task/Joins.antt =====
-- Joining and completing: who is woken when a task completes, and in which order.
use compukter_vm.Prelude.{
  ℕ, zero, suc, ◌+◌, ◌≤◌, ◌<◌, ◌≡◌, inl, inr, refl, sym, ap, ap₂, ◌∙◌, subst, none, some, Bool,
  true, false, List, [], ◌∷◌, ◌++◌, length, get_elem?, set, arith, ◌==◌, opt_eq, if◌then◌else◌,
  Result, ok, err, panic, length-set, get_elem?-lt, Option-cases, Bool-cases, lt-get_elem?,
  get_elem?-set, pure, continue, ◌>>◌, position-some,
}
use mathlib.Core.List.{append_assoc, append-nil}
use compukter_vm.Execution.Task.{
  TaskId, TaskState, TaskRecord, TaskScheduler, TaskError, ready, running, vacant, waiting,
  completed, is_completed, waits_join, suspend, slot_of, no_running_task, unknown_task, self_join,
  join_cycle, join_of, M, host, channel,
}
use compukter_vm.Execution.Task.Calls.{
  wake_joiner, wake_joiners, complete_current, join, join_walk, join_round,
}
use compukter_vm.Execution.Task.Invariant.{queue, Inv}
use compukter_vm.Execution.Task.Steps.{
  room, armed, retired, queue-armed, Inv-retired, queue-retired,
}
use compukter_vm.Execution.Task.Operations.{
  Sound, Sound-ok, Fifo-same, active_record, suspend-Sound, Inv-woken,
}

abbrev pub waits_for : TaskId → List TaskRecord → ℕ → Bool
waits_for task tasks i = elim (get_elem? tasks i) [
  | none ↦ false
  | some t ↦ waits_join task t.state
]

-- The slots from `i` on, `n` of them, whose tasks wait for `task` to complete, in slot order.
unfoldable pub joiners : ℕ → TaskId → ℕ → List TaskRecord → List ℕ
joiners zero task i tasks = []
joiners (suc n) task i tasks =
    let rest = joiners n task (i + 1) tasks in if waits_for task tasks i then i ∷ rest else rest

-- A write to an earlier slot does not change who waits.
joiners-set :
    (n : ℕ) (task : TaskId) (i slot : ℕ) (r : TaskRecord) (tasks : List TaskRecord)
    → slot < i
    → slot < length tasks
    → joiners n task i (set tasks slot r) ≡ joiners n task i tasks
unfolding joiners
joiners-set zero task i slot r tasks lt h = refl
joiners-set (suc n) task i slot r tasks lt h =
    ground (
      arith,
      get_elem?-set tasks slot i r h,
      joiners-set n task (i + 1) slot r tasks (omega arith) h,
    )

-- Nor does a write that keeps what the slot's task waits for.
joiners-replace :
    (n : ℕ) (task : TaskId) (i slot : ℕ) (old r : TaskRecord) (tasks : List TaskRecord)
    → get_elem? tasks slot ≡ some old
    → waits_join task r.state ≡ waits_join task old.state
    → joiners n task i (set tasks slot r) ≡ joiners n task i tasks
unfolding joiners
joiners-replace zero task i slot old r tasks g same = refl
joiners-replace (suc n) task i slot old r tasks g same = ground (
  arith,
  get_elem?-set tasks slot i r (get_elem?-lt tasks slot g),
  joiners-replace n task (i + 1) slot old r tasks g same,
)

abbrev pub woken : TaskScheduler → ℕ → TaskRecord → TaskScheduler
woken s slot t = armed s slot (record t { state = ready }) s.next_id

wake_joiner-waiting :
    (s : TaskScheduler) (done : TaskId) (i : ℕ) (t : TaskRecord)
    → Inv s
    → get_elem? s.tasks i ≡ some t
    → waits_join done t.state ≡ true
    → wake_joiner done i s ≡ (ok tt, woken s i t)
unfolding wake_joiner
wake_joiner-waiting s done i t v g w =
    ground
      (arith, room s i t (record t { state = ready }) s.next_id v g (ground arith) refl, v.sized)

wake_joiner-other :
    (s : TaskScheduler) (done : TaskId) (i : ℕ) (t : TaskRecord)
    → get_elem? s.tasks i ≡ some t
    → waits_join done t.state ≡ false
    → wake_joiner done i s ≡ (ok tt, s)
unfolding wake_joiner
wake_joiner-other s done i t g w = ground arith

-- The loop wakes every joiner once, in slot order, and does not fail.
abbrev WakesAll : ℕ → TaskId → ℕ → TaskScheduler → Type 0
WakesAll n done i s =
    (s' : TaskScheduler) × (wake_joiners n done i s ≡ (ok tt, s'))
    × Inv s'
    × (queue s' ≡ queue s ++ joiners n done i s.tasks)
    × (s'.active ≡ s.active)

module _ (n : ℕ) (done : TaskId) (i : ℕ) (s : TaskScheduler) (t : TaskRecord)
    (g : get_elem? s.tasks i ≡ some t) where
  WakesAll-other :
      waits_join done t.state ≡ false → WakesAll n done (i + 1) s → WakesAll (suc n) done i s
  unfolding wake_joiners joiners
  WakesAll-other other (s', run, w, q, a) =
      (s', rw (wake_joiner-other s done i t g other) run, w, ground (arith, q), a)

  WakesAll-waiting :
      Inv s
      → waits_join done t.state ≡ true
      → WakesAll n done (i + 1) (woken s i t)
      → WakesAll (suc n) done i s
  unfolding wake_joiners joiners
  WakesAll-waiting v waits (s', run, w, q, a) =
      (s', rw (wake_joiner-waiting s done i t v g waits) run, w, q ∙ moved, a)
    where
      later : joiners n done (i + 1) (woken s i t).tasks ≡ joiners n done (i + 1) s.tasks
      later =
          joiners-set n done (i + 1) i (record t { state = ready }) s.tasks (omega arith)
            (get_elem?-lt s.tasks i g)

      moved :
          queue (woken s i t) ++ joiners n done (i + 1) (woken s i t).tasks
          ≡ queue s ++ joiners (suc n) done i s.tasks
      moved =
          rw
            (
              later,
              queue-armed s i t (record t { state = ready }) s.next_id v g (ground arith) refl,
              append_assoc,
            )
            (ground (arith, waits))

wake_joiners_lem :
    (n : ℕ) (done : TaskId) (i : ℕ) (s : TaskScheduler)
    → Inv s
    → i + n ≤ length s.tasks
    → WakesAll n done i s
unfolding wake_joiners joiners
wake_joiners_lem zero done i s v h = (s, refl, v, sym (append-nil (queue s)), refl)
wake_joiners_lem (suc n) done i s v h =
    let (t, g) = lt-get_elem? s.tasks i (omega arith) in
    elim (Bool-cases (waits_join done t.state)) [
      | inr other ↦
          WakesAll-other n done i s t g other (wake_joiners_lem n done (i + 1) s v (omega arith))
      | inl waits ↦ WakesAll-waiting n done i s t g v waits (
          wake_joiners_lem n done (i + 1) (woken s i t)
            (Inv-woken s i t v g (ground arith) (ground arith) (ground arith))
            (omega (arith, length-set s.tasks i (record t { state = ready }))))
    ]

abbrev finished : TaskScheduler → ℕ → TaskRecord → TaskScheduler
finished s slot t = retired s slot (record t { state = completed })

abbrev pub Completes : TaskScheduler → TaskId → ℕ → Type 0
Completes s a slot =
    (s' : TaskScheduler) × (complete_current s ≡ (ok a, s'))
    × Inv s'
    × (queue s' ≡ queue s ++ joiners (length s.tasks) a 0 s.tasks)
    × (s'.active ≡ none)

-- On a well-formed scheduler completing the running task succeeds; its joiners go to the end of the
-- ready queue, in slot order.
pub complete_current_lem :
    (s : TaskScheduler) (slot : ℕ) (t : TaskRecord) (a : TaskId)
    → Inv s
    → s.active ≡ some slot
    → get_elem? s.tasks slot ≡ some t
    → t.id ≡ some a
    → t.state ≡ running
    → Completes s a slot
unfolding complete_current
complete_current_lem s slot t a v e g id run =
    let r : TaskRecord = record t { state = completed } in
    let (s', loop, w, q, none_active) =
      wake_joiners_lem (length s.tasks) a 0 (finished s slot t)
        (Inv-retired s slot t (record t { state = completed }) v g e refl refl refl refl)
        (omega (arith, length-set s.tasks slot r)) in
    (
      s',
      ground (arith, loop, length-set s.tasks slot r),
      w,
      q
          ∙ ap₂ ◌++◌ (queue-retired s slot t r v g e refl refl refl refl)
              (joiners-replace (length s.tasks) a 0 slot t r s.tasks g (ground arith)),
      none_active,
    )

pub complete_current-Sound : (s : TaskScheduler) → Inv s → Sound s (complete_current s)
unfolding complete_current
complete_current-Sound s v = elim (Option-cases s.active) [
  | inl e ↦ inr (no_running_task, ground arith, λ q. cc)
  | inr (slot, e) ↦
      let (t, a, g, id, run) = active_record s slot v e in
      let (s', done, w, q, _) = complete_current_lem s slot t a v e g id run in
      Sound-ok s done w (inl (joiners (length s.tasks) a 0 s.tasks, q))
]

Sound-pure :
    {A B : Type 0} (s s' : TaskScheduler) (r : Result TaskError A) (b : B)
    → Sound s (r, s')
    → Sound s (continue r (λ _. pure b) s')
Sound-pure s s' (ok a) b (inl (x, e, v, f)) = inl (b, refl, v, f)
Sound-pure s s' (ok a) b (inr (x, e, n)) = absurd (cc (ap (λ o. o.0) e))
Sound-pure s s' (err x) b (inl (y, e, v, f)) = absurd (cc e)
Sound-pure s s' (err x) b (inr (y, e, n)) =
    inr (x, cc (ap (λ o. o.1) e), λ q. n (cc (ap (λ o. o.0) e)))
Sound-pure s s' panic b (inl (x, e, v, f)) = absurd (cc e)
Sound-pure s s' panic b (inr (x, e, n)) = absurd (cc (ap (λ o. o.0) e))

join_suspend-Sound :
    (s : TaskScheduler) (target : TaskId)
    → Inv s
    → Sound s ((suspend (join_of target) >> pure true) s)
join_suspend-Sound s target v =
    let (r, s') = suspend (join_of target) s in
    Sound-pure s s' r true (suspend-Sound s (join_of target) v)

join_round-Sound :
    (go : TaskId → M Bool) (self target : TaskId) (s : TaskScheduler) (st : TaskState)
    → Inv s
    → ((next : TaskId) → Sound s (go next s))
    → Sound s (join_round go self target st s)
unfolding join_round
join_round-Sound go self target s vacant v rest = join_suspend-Sound s target v
join_round-Sound go self target s ready v rest = join_suspend-Sound s target v
join_round-Sound go self target s running v rest = join_suspend-Sound s target v
join_round-Sound go self target s completed v rest = join_suspend-Sound s target v
join_round-Sound go self target s (waiting (host r)) v rest = join_suspend-Sound s target v
join_round-Sound go self target s (waiting (channel c)) v rest = join_suspend-Sound s target v
join_round-Sound go self target s (waiting (join_of next)) v rest =
    elim (Bool-cases (next == self)) [
      | inl e ↦ rw e (inr (join_cycle, refl, λ q. cc))
      | inr e ↦ rw e (rest next)
    ]

-- The task that an identity names is found with its record.
pub found_at :
    (s : TaskScheduler) (task : TaskId) (slot : ℕ)
    → slot_of task s ≡ some slot
    → (t : TaskRecord) × (get_elem? s.tasks slot ≡ some t) × (opt_eq t.id (some task) ≡ true)
unfolding slot_of
found_at s task slot e = position-some (λ t. opt_eq t.id (some task)) s.tasks slot e

join_walk-Sound :
    (rounds : ℕ) (s : TaskScheduler) (self target cursor : TaskId)
    → Inv s
    → Sound s (join_walk rounds self target cursor s)
unfolding join_walk
join_walk-Sound zero s self target cursor v = inr (join_cycle, refl, λ q. cc)
join_walk-Sound (suc rounds) s self target cursor v = elim (Option-cases (slot_of cursor s)) [
  | inl e ↦ rw (e, slot_of) (inr (unknown_task, refl, λ q. cc))
  | inr (slot, e) ↦
      let (t, g, _) = found_at s cursor slot e in
      rw (e, slot_of, g)
        (join_round-Sound (join_walk rounds self target) self target s t.state v
          λ next. join_walk-Sound rounds s self target next v)
]

module _ (s : TaskScheduler) (target : TaskId) (slot at : ℕ) (t u : TaskRecord) (a : TaskId)
    (e : s.active ≡ some slot) (g : get_elem? s.tasks slot ≡ some t) (id : t.id ≡ some a)
    (other : (a == target) ≡ false) (found : slot_of target s ≡ some at)
    (gu : get_elem? s.tasks at ≡ some u) where
  join-completed : is_completed u.state ≡ true → join target s ≡ (ok false, s)
  unfolding join
  join-completed done = ground arith

  pub join-pending :
      is_completed u.state ≡ false → join target s ≡ join_walk (length s.tasks) a target target s
  unfolding join
  join-pending live = ground arith

pub join-Sound : (s : TaskScheduler) (target : TaskId) → Inv s → Sound s (join target s)
unfolding join
join-Sound s target v = elim (Option-cases s.active) [
  | inl e ↦ inr (no_running_task, ground arith, λ q. cc)
  | inr (slot, e) ↦
      let (t, a, g, id, run) = active_record s slot v e in
      elim (Bool-cases (a == target)) [
        | inl me ↦ inr (self_join, ground arith, λ q. cc)
        | inr other ↦ elim (Option-cases (slot_of target s)) [
          | inl lost ↦ inr (unknown_task, ground arith, λ q. cc)
          | inr (at, found) ↦
              let (u, gu, _) = found_at s target at found in
              elim (Bool-cases (is_completed u.state)) [
                | inl done ↦
                    Sound-ok s (join-completed s target slot at t u a e g id other found gu done) v
                      (Fifo-same s s refl)
                | inr live ↦
                    subst (Sound s)
                      (sym (join-pending s target slot at t u a e g id other found gu live))
                      (join_walk-Sound (length s.tasks) s a target target v)
              ]
        ]
      ]
]
