-- ===== src/Execution/Requests/Tests.antt =====
-- The request table on concrete inputs, and the general theorems at them.
use compukter_vm.Prelude.{
  ℕ, ◌≤◌, ◌≡◌, ◌⊎◌, refl, none, some, false, List, [], ◌∷◌, length, map, ok, err, arith,
}
use compukter_vm.Execution.Requests.{
  HostRequestIdentity, HostMergeEntry, PendingHostRequest, PendingRequestTable, RequestTableLimits,
  RequestTableError, same, get, insert, take, unknown_identity, cancel_task, i32, ordinary,
  last_write_wins, duplicate_identity,
}
use compukter_vm.Execution.Requests.Reduction.{
  ReducedHostRequests, reduce_last_write_wins, merge_entries, merge_entry, sort_by_key, finish,
}
use compukter_vm.Prelude.Int.{pos}
use compukter_vm.Execution.Requests.Table.{insert-exact, take-exact}
use compukter_vm.Execution.Requests.Admission.{Inv, Fits, Sized, inserted}
use compukter_vm.Execution.Requests.Cancel.{cancel_task-exact}
use compukter_vm.Execution.Requests.Merge.{InGroup, reduce-exact, reduce-succeeds}
use compukter_vm.Execution.Requests.Writes.{Rising, value_at, last_value, writes}

abbrev few : RequestTableLimits
few = record {
  maximum_requests = 3;
  maximum_arguments_per_request = 2;
  maximum_total_arguments = 4;
  maximum_utf16_per_request = 4;
  maximum_total_utf16 = 8;
  maximum_merge_entries_per_request = 2;
  maximum_total_merge_entries = 4;
}

abbrev id : ℕ → ℕ → HostRequestIdentity
id task request = record { task = task; request = request }

abbrev plain : ℕ → ℕ → PendingHostRequest
plain task request = record {
  identity = record { task = task; request = request };
  capability = 1;
  operation = 0;
  arguments = i32 (pos 5) ∷ [];
  utf16 = 65 ∷ [];
  bytes = [];
  merge = ordinary;
}

abbrev entry : ℕ → ℕ → HostMergeEntry
entry key value = record { key = key; value = value }

abbrev writer : ℕ → List HostMergeEntry → PendingHostRequest
writer request entries = record (plain 1 request) { merge = last_write_wins 7 entries }

abbrev two : PendingRequestTable
two = record {
  limits = few;
  requests = plain 1 1 ∷ plain 2 2 ∷ [];
  total_arguments = 2;
  total_utf16 = 2;
  total_merge_entries = 0;
}

two-Inv : Inv two
two-Inv = record {
  arguments = refl;
  utf16 = refl;
  entries = refl;
  few = omega arith;
  arguments_fit = omega arith;
  utf16_fit = omega arith;
  entries_fit = omega arith;
  small = (omega arith, (omega arith, tt));
  unique = (refl, (refl, tt));
}

few-Sized : Sized few
few-Sized = omega arith

insert_refuses_a_duplicate : (insert (plain 1 1) two).0 ≡ err duplicate_identity
unfolding insert
insert_refuses_a_duplicate = refl

insert-exact_example :
    (Fits (plain 1 3) two
      × (insert (plain 1 3) two ≡ (ok tt, inserted (plain 1 3) two))
      × Inv (inserted (plain 1 3) two))
    ⊎ ((e : RequestTableError) × (¬ Fits (plain 1 3) two) × (insert (plain 1 3) two ≡ (err e, two)))
insert-exact_example = insert-exact (plain 1 3) two few-Sized two-Inv

take-exact_example :
    ((r : PendingHostRequest) × (t' : PendingRequestTable) × (take (id 2 2) two ≡ (ok r, t'))
      × (get two (id 2 2) ≡ some r)
      × (get t' (id 2 2) ≡ none)
      × ((other : HostRequestIdentity) → same (id 2 2) other ≡ false → get t' other ≡ get two other)
      × Inv t')
    ⊎ ((get two (id 2 2) ≡ none) × (take (id 2 2) two ≡ (err unknown_identity, two)))
take-exact_example = take-exact two (id 2 2) two-Inv

cancel_task-exact_example :
    (t' : PendingRequestTable) × (cancel_task 1 two ≡ (ok (id 1 1 ∷ []), t'))
    × (t'.requests ≡ plain 2 2 ∷ [])
    × (t'.limits ≡ few)
    × Inv t'
cancel_task-exact_example = cancel_task-exact two 1 two-Inv

abbrev lamps : List PendingHostRequest
lamps = writer 1 (entry 3 10 ∷ entry 1 11 ∷ []) ∷ writer 2 (entry 3 12 ∷ entry 2 13 ∷ []) ∷ []

abbrev reduced : ReducedHostRequests
reduced = record {
  requests = id 1 1 ∷ id 1 2 ∷ [];
  entries = entry 1 11 ∷ entry 2 13 ∷ entry 3 12 ∷ [];
}

lamps-reduced : reduce_last_write_wins lamps 3 ≡ ok reduced
unfolding reduce_last_write_wins merge_entries merge_entry finish sort_by_key
lamps-reduced = refl

reduce-exact_example :
    (reduced.requests ≡ map (λ r. r.identity) lamps)
    × Rising reduced.entries
    × (length reduced.entries ≤ 3)
    × ((k : ℕ) → value_at k reduced.entries ≡ last_value k none (writes lamps))
    × ((g : ℕ) × InGroup g lamps)
reduce-exact_example = reduce-exact lamps 3 reduced lamps-reduced

reduce-succeeds_example :
    (result : ReducedHostRequests) × (reduce_last_write_wins lamps 4 ≡ ok result)
reduce-succeeds_example =
    reduce-succeeds (writer 1 (entry 3 10 ∷ entry 1 11 ∷ []))
      (writer 2 (entry 3 12 ∷ entry 2 13 ∷ []) ∷ []) 4 7 (refl, (refl, tt)) (omega arith)
