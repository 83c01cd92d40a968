-- ===== src/Execution/Task/Invariant.antt =====
-- What `validate_checkpoint` of src/execution/checkpoint/task.rs demands of a scheduler, less the
-- joins: the shape of the ready queue, the records' identities, and the running task.
use compukter_vm.Prelude.{
  ℕ, suc, ◌≤◌, ◌<◌, ◌≡◌, ◌≢◌, ◌⊎◌, subst, Option, none, some, true, false, List, [], ◌∷◌, length,
  get_elem?, set, count, All, NotIn, Nodup, arith, ◌==◌, opt_eq, if◌then◌else◌, get_elem?-lt,
  get_elem?-set,
}
use compukter_vm.Prelude.Ring.{ring}
use compukter_vm.Execution.Task.{
  TaskState, TaskRecord, TaskScheduler, i32_max, ready, vacant, is_vacant, is_ready, is_running,
  no_slot,
}

-- The slots that wait to run, the next one first.
abbrev pub queue : TaskScheduler → List ℕ
queue s = ring no_slot s.ready_slots 0 (length s.tasks) s.ready_head s.ready_len

abbrev pub state_at : List TaskRecord → ℕ → Option TaskState
state_at tasks i = elim (get_elem? tasks i) [ none ↦ none | some t ↦ some t.state ]

abbrev pub IsReadyAt : List TaskRecord → ℕ → Type 0
IsReadyAt tasks i = state_at tasks i ≡ some ready

-- A vacant record has no identity; any other has one that was handed out.
abbrev pub RecordOk : ℕ → TaskRecord → Type 0
RecordOk next t =
    ((is_vacant t.state ≡ true) × (t.id ≡ none))
    ⊎ ((a : ℕ) × (is_vacant t.state ≡ false) × (t.id ≡ some a) × (0 < a) × (a < next))

pub record Records (next : ℕ) (active : Option ℕ) (tasks : List TaskRecord) : Type 0 where
  pub owned : (i : ℕ) (t : TaskRecord) → get_elem? tasks i ≡ some t → RecordOk next t
  pub runs :
      (i : ℕ) (t : TaskRecord)
      → get_elem? tasks i ≡ some t
      → is_running t.state ≡ opt_eq active (some i)
  pub unique :
      (i j : ℕ) (t u : TaskRecord) (a : ℕ)
      → get_elem? tasks i ≡ some t
      → get_elem? tasks j ≡ some u
      → t.id ≡ some a
      → u.id ≡ some a
      → i ≡ j

-- Until the root task starts, no record is in use.
abbrev pub Rooted : List TaskRecord → Type 0
Rooted tasks =
    (state_at tasks 0 ≡ some vacant)
    → (i : ℕ) (t : TaskRecord) → get_elem? tasks i ≡ some t
    → is_vacant t.state ≡ true

pub record Inv (s : TaskScheduler) : Type 0 where
  pub sized : length s.ready_slots ≡ length s.tasks
  pub head_ok : s.ready_head < length s.tasks
  pub next_lo : 2 ≤ s.next_id
  pub next_hi : s.next_id ≤ suc i32_max
  pub active_lt : (i : ℕ) → s.active ≡ some i → i < length s.tasks
  pub counted : s.ready_len ≡ count (λ t. is_ready t.state) s.tasks
  pub queued : All (IsReadyAt s.tasks) (queue s)
  pub distinct : Nodup (queue s)
  pub records : Records s.next_id s.active s.tasks
  pub rooted : Rooted s.tasks

-- Records stay well formed when one of them is replaced.
pub Records-set :
    {n m : ℕ} {a b : Option ℕ} {tasks : List TaskRecord} (slot : ℕ) {old : TaskRecord}
    (r : TaskRecord)
    → Records n a tasks
    → get_elem? tasks slot ≡ some old
    → n ≤ m
    → RecordOk m r
    → (r.id ≡ old.id) ⊎ ((k : ℕ) × (r.id ≡ some k) × (n ≤ k))
    → is_running r.state ≡ opt_eq b (some slot)
    → ((i : ℕ) → i ≢ slot → opt_eq a (some i) ≡ opt_eq b (some i))
    → Records m b (set tasks slot r)
Records-set {n} {m} {a} {b} {tasks} slot {old} r h e le own same run others = record {
  owned = λ i t g.
      ground (arith, get_elem?-set tasks slot i r (get_elem?-lt tasks slot e), h.owned i t);
  runs = λ i t g.
      ground
        (arith, get_elem?-set tasks slot i r (get_elem?-lt tasks slot e), h.runs i t, others i);
  unique = λ i j t u k gi gj ti uj. ground (
    arith,
    get_elem?-set tasks slot i r (get_elem?-lt tasks slot e),
    get_elem?-set tasks slot j r (get_elem?-lt tasks slot e),
    h.unique i j t u k,
    h.unique slot j old u k e,
    h.unique i slot t old k,
    h.owned i t,
    h.owned j u,
  );
}

pub state_at-set :
    (tasks : List TaskRecord) (slot i : ℕ) (r : TaskRecord)
    → slot < length tasks
    → state_at (set tasks slot r) i ≡ (if slot == i then some r.state else state_at tasks i)
state_at-set tasks slot i r h = ground (arith, get_elem?-set tasks slot i r h)

-- A write over a record in use, or behind the first, keeps the order of starting.
pub Rooted-set :
    (tasks : List TaskRecord) (slot : ℕ) (r : TaskRecord)
    → slot < length tasks
    → is_vacant r.state ≡ false
    → (state_at tasks 0 ≡ some vacant → slot ≡ 0)
    → Rooted (set tasks slot r)
Rooted-set tasks slot r h held first e i t g =
    absurd (ground (arith, state_at-set tasks slot 0 r h))

-- A ready task stays ready when another slot is written.
pub All-ready-set :
    (tasks : List TaskRecord) (slot : ℕ) (r : TaskRecord) (xs : List ℕ)
    → slot < length tasks
    → NotIn slot xs
    → All (IsReadyAt tasks) xs
    → All (IsReadyAt (set tasks slot r)) xs
All-ready-set tasks slot r [] h n a = tt
All-ready-set tasks slot r (x ∷ xs) h n a =
    (ground (arith, state_at-set tasks slot x r h), All-ready-set tasks slot r xs h n.1 a.1)

-- A slot that is not ready is not in the queue.
pub NotIn-of_not_ready :
    (tasks : List TaskRecord) (slot : ℕ) (xs : List ℕ)
    → (state_at tasks slot ≢ some ready)
    → All (IsReadyAt tasks) xs
    → NotIn slot xs
NotIn-of_not_ready tasks slot [] h a = tt
NotIn-of_not_ready tasks slot (x ∷ xs) h a =
    ((λ e. h (subst (IsReadyAt tasks) e a.0)), NotIn-of_not_ready tasks slot xs h a.1)
