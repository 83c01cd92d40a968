-- ===== src/Execution/Requests/Sorting.antt =====
-- src/execution/requests.rs: the merged entries, sorted by key.
use compukter_vm.Prelude.{
  ℕ, suc, ◌<◌, ◌≡◌, ◌≢◌, inl, inr, refl, ◌∙◌, some, List, [], ◌∷◌, length, All, ◌==◌, if◌then◌else◌,
  arith, Bool-cases, leb,
}
use compukter_vm.Execution.Requests.{HostMergeEntry}
use compukter_vm.Execution.Requests.Reduction.{insert_by_key, sort_by_key}
use compukter_vm.Execution.Requests.Writes.{value_at, Above, Rising, Keyed}

-- Sorting.
value_at-insert :
    (e : HostMergeEntry) (es : List HostMergeEntry) (k : ℕ)
    → value_at k (insert_by_key e es) ≡ (if e.key == k then some e.value else value_at k es)
unfolding insert_by_key
value_at-insert e [] k = refl
value_at-insert e (d ∷ ds) k = ground (arith, value_at-insert e ds k)

pub value_at-sort : (es : List HostMergeEntry) (k : ℕ) → value_at k (sort_by_key es) ≡ value_at k es
unfolding sort_by_key
value_at-sort [] k = refl
value_at-sort (e ∷ es) k = value_at-insert e (sort_by_key es) k ∙ ground (arith, value_at-sort es k)

All-insert :
    (P : HostMergeEntry → Type 0) (e : HostMergeEntry) (es : List HostMergeEntry)
    → P e
    → All P es
    → All P (insert_by_key e es)
unfolding insert_by_key
All-insert P e [] p a = (p, tt)
All-insert P e (d ∷ ds) p a = elim (Bool-cases (leb e.key d.key)) [
  | inl first ↦ rw first (p, a)
  | inr later ↦ rw later (a.0, All-insert P e ds p a.1)
]

All-sort :
    (P : HostMergeEntry → Type 0) (es : List HostMergeEntry) → All P es → All P (sort_by_key es)
unfolding sort_by_key
All-sort P [] a = tt
All-sort P (e ∷ es) a = All-insert P e (sort_by_key es) a.0 (All-sort P es a.1)

Above-trans : (k m : ℕ) (es : List HostMergeEntry) → k < m → Above m es → Above k es
Above-trans k m [] h a = tt
Above-trans k m (e ∷ es) h a = (omega arith, Above-trans k m es h a.1)

insert-Rising :
    (e : HostMergeEntry) (es : List HostMergeEntry)
    → Rising es
    → All (λ d. e.key ≢ d.key) es
    → Rising (insert_by_key e es)
unfolding insert_by_key
insert-Rising e [] r n = (tt, tt)
insert-Rising e (d ∷ ds) r n = elim (Bool-cases (leb e.key d.key)) [
  | inl first ↦
      let lt : e.key < d.key = ground (arith, n.0) in
      rw first ((lt, Above-trans e.key d.key ds lt r.0), r)
  | inr later ↦
      rw later
        (All-insert (λ c. d.key < c.key) e ds (ground (arith, n.0)) r.0, insert-Rising e ds r.1 n.1)
]

pub sort-Rising : (es : List HostMergeEntry) → Keyed es → Rising (sort_by_key es)
unfolding sort_by_key
sort-Rising [] k = tt
sort-Rising (e ∷ es) k =
    insert-Rising e (sort_by_key es) (sort-Rising es k.1) (All-sort (λ d. e.key ≢ d.key) es k.0)

length-insert :
    (e : HostMergeEntry) (es : List HostMergeEntry) → length (insert_by_key e es) ≡ suc (length es)
unfolding insert_by_key
length-insert e [] = refl
length-insert e (d ∷ ds) = ground (arith, length-insert e ds)

pub length-sort : (es : List HostMergeEntry) → length (sort_by_key es) ≡ length es
unfolding sort_by_key
length-sort [] = refl
length-sort (e ∷ es) = omega (arith, length-insert e (sort_by_key es), length-sort es)
