-- ===== src/Execution/Requests/Writes.antt =====
-- src/execution/requests.rs: the writes of mergeable requests, and what the loop over them keeps.
use compukter_vm.Prelude.{
  ℕ, zero, suc, ◌+◌, ◌≤◌, ◌<◌, ◌≡◌, ◌≢◌, inl, inr, refl, ap, ◌∙◌, subst, Option, none, some, List,
  [], ◌∷◌, ◌++◌, length, set, position, All, ok, and_then-ok, ◌==◌, if◌then◌else◌, arith,
  Bool-cases, Option-cases, length-set, length-append,
}
use compukter_vm.Execution.Requests.{
  HostMergeEntry, HostRequestMerge, ordinary, last_write_wins, PendingHostRequest,
}
use compukter_vm.Execution.Requests.Reduction.{merge_entry, merge_entries}

-- The value under a key, the first that is found.
abbrev pub value_at : ℕ → List HostMergeEntry → Option ℕ
value_at k [] = none
value_at k (e ∷ es) = if e.key == k then some e.value else value_at k es

-- The last value that a sequence of writes leaves under a key, on top of an earlier one.
abbrev pub last_value : ℕ → Option ℕ → List HostMergeEntry → Option ℕ
last_value k before [] = before
last_value k before (e ∷ es) = last_value k (if e.key == k then some e.value else before) es

-- The writes of a request.
abbrev pub writes_of : HostRequestMerge → List HostMergeEntry
writes_of ordinary = []
writes_of (last_write_wins group entries) = entries

-- All writes, in the order of the requests.
abbrev pub writes : List PendingHostRequest → List HostMergeEntry
writes [] = []
writes (r ∷ rs) = writes_of r.merge ++ writes rs

-- Keys rise along the list.
abbrev pub Above : ℕ → List HostMergeEntry → Type 0
Above k = All (λ e. k < e.key)

abbrev pub Rising : List HostMergeEntry → Type 0
Rising [] = Unit
Rising (e ∷ es) = Above e.key es × Rising es

abbrev pub Keyed : List HostMergeEntry → Type 0
Keyed [] = Unit
Keyed (e ∷ es) = All (λ d. e.key ≢ d.key) es × Keyed es

-- A write that takes the place of the entry with its key, or goes to the end.
put : HostMergeEntry → List HostMergeEntry → List HostMergeEntry
put e [] = e ∷ []
put e (d ∷ ds) = if d.key == e.key then e ∷ ds else d ∷ put e ds

put-found :
    (e : HostMergeEntry) (es : List HostMergeEntry) (i : ℕ)
    → position (λ d. d.key == e.key) es ≡ some i
    → set es i e ≡ put e es
unfolding put
put-found e [] i h = absurd (ground arith)
put-found e (d ∷ ds) zero h = ground arith
put-found e (d ∷ ds) (suc i) h = ground (arith, put-found e ds i)

put-new :
    (e : HostMergeEntry) (es : List HostMergeEntry)
    → position (λ d. d.key == e.key) es ≡ none
    → es ++ e ∷ [] ≡ put e es
unfolding put
put-new e [] h = refl
put-new e (d ∷ ds) h = ground (arith, put-new e ds)

-- A merged entry is a `put`, and the list outgrows neither the limit nor what it was.
merge_entry-put :
    (limit : ℕ) (e : HostMergeEntry) (es es' : List HostMergeEntry)
    → merge_entry limit e es ≡ ok es'
    → (es' ≡ put e es) × (length es ≤ limit → length es' ≤ limit)
unfolding merge_entry
merge_entry-put limit e es es' h = elim (Option-cases (position (λ d. d.key == e.key) es)) [
  | inl new ↦ (ground (arith, put-new e es), ground (arith, length-append es (e ∷ [])))
  | inr (i, found) ↦ (ground (arith, put-found e es i), ground (arith, length-set es i e))
]

-- Within the limit the merge succeeds.
merge_entry-ok :
    (limit : ℕ) (e : HostMergeEntry) (es : List HostMergeEntry)
    → length es < limit
    → (es' : List HostMergeEntry) × (merge_entry limit e es ≡ ok es')
      × (length es' ≤ suc (length es))
unfolding merge_entry
merge_entry-ok limit e es h = elim (Option-cases (position (λ d. d.key == e.key) es)) [
  | inl new ↦ (es ++ e ∷ [], ground arith, omega (arith, length-append es (e ∷ [])))
  | inr (i, found) ↦ (set es i e, ground arith, omega (arith, length-set es i e))
]

value_at-put :
    (e : HostMergeEntry) (es : List HostMergeEntry) (k : ℕ)
    → value_at k (put e es) ≡ (if e.key == k then some e.value else value_at k es)
unfolding put
value_at-put e [] k = refl
value_at-put e (d ∷ ds) k = ground (arith, value_at-put e ds k)

All-ne-put :
    (k : ℕ) (e : HostMergeEntry) (es : List HostMergeEntry)
    → k ≢ e.key
    → All (λ d. k ≢ d.key) es
    → All (λ d. k ≢ d.key) (put e es)
unfolding put
All-ne-put k e [] h a = (h, tt)
All-ne-put k e (d ∷ ds) h a = ground (arith, All-ne-put k e ds h a.1)

Keyed-put : (e : HostMergeEntry) (es : List HostMergeEntry) → Keyed es → Keyed (put e es)
unfolding put
Keyed-put e [] h = (tt, tt)
Keyed-put e (d ∷ ds) h = elim (Bool-cases (d.key == e.key)) [
  | inl same ↦ rw same (subst (λ (k : ℕ). All (λ c. k ≢ c.key) ds) (ground (arith, same)) h.0, h.1)
  | inr other ↦ rw other (All-ne-put d.key e ds (ground (arith, other)) h.0, Keyed-put e ds h.1)
]

pub record Merged (limit : ℕ) (before : List HostMergeEntry) (new : List HostMergeEntry)
    (after : List HostMergeEntry) : Type 0 where
  pub keyed : Keyed before → Keyed after
  pub fits : length before ≤ limit → length after ≤ limit
  pub values : (k : ℕ) → value_at k after ≡ last_value k (value_at k before) new

pub merge_entries-Merged :
    (limit : ℕ) (new before after : List HostMergeEntry)
    → merge_entries limit new before ≡ ok after
    → Merged limit before new after
unfolding merge_entries
merge_entries-Merged limit [] before after h = record {
  keyed = ground arith;
  fits = ground arith;
  values = λ k. ground arith;
}
merge_entries-Merged limit (e ∷ es) before after h =
    let (mid, one, more) =
      and_then-ok (merge_entry limit e before) (λ m. merge_entries limit es m) after h in
    let (is_put, fit) = merge_entry-put limit e before mid one in
    let rest = merge_entries-Merged limit es mid after more in
    record {
      keyed = λ d. rest.keyed (rw is_put (Keyed-put e before d));
      fits = λ l. rest.fits (fit l);
      values = λ k.
          rest.values k
          ∙ ap (λ (o : Option ℕ). last_value k o es)
              (ap (value_at k) is_put ∙ value_at-put e before k);
    }

pub merge_entries-ok :
    (limit : ℕ) (new before : List HostMergeEntry)
    → length before + length new ≤ limit
    → (after : List HostMergeEntry) × (merge_entries limit new before ≡ ok after)
      × (length after ≤ length before + length new)
unfolding merge_entries
merge_entries-ok limit [] before h = (before, refl, omega arith)
merge_entries-ok limit (e ∷ es) before h =
    let (mid, one, l) = merge_entry-ok limit e before (omega arith) in
    let (after, more, m) = merge_entries-ok limit es mid (omega arith) in
    (after, rw one more, omega arith)
