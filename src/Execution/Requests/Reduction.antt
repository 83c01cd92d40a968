-- ===== src/Execution/Requests/Reduction.antt =====
-- src/execution/requests.rs: `reduce_last_write_wins`, which merges requests into one write for each key.
use compukter_vm.Prelude.{
  ℕ, Option, none, some, Bool, false, List, [], ◌∷◌, ◌++◌, length, set, position, Result, ok, err,
  and_then, leb, ◌==◌, if◌then◌else◌, not,
}
use compukter_vm.Execution.Requests.{
  HostRequestIdentity, HostMergeGroup, HostMergeEntry, PendingHostRequest, RequestTableError,
  ordinary, last_write_wins, not_mergeable, incompatible_merge_group, effective_merge_entry_limit,
}

pub record ReducedHostRequests : Type 0 where
  pub requests : List HostRequestIdentity
  pub entries : List HostMergeEntry

-- One entry: it takes the place of an entry with its key, or is added within the limit.
unfoldable pub merge_entry :
    ℕ → HostMergeEntry → List HostMergeEntry → Result RequestTableError (List HostMergeEntry)
merge_entry limit entry entries = elim (position (λ e. e.key == entry.key) entries) [
  | some existing ↦ ok (set entries existing entry)
  | none ↦
      if leb limit (length entries)
      then err effective_merge_entry_limit
      else ok (entries ++ entry ∷ [])
]

unfoldable pub merge_entries :
    ℕ → List HostMergeEntry → List HostMergeEntry → Result RequestTableError (List HostMergeEntry)
merge_entries limit [] entries = ok entries
merge_entries limit (entry ∷ rest) entries =
    and_then (merge_entry limit entry entries) λ merged. merge_entries limit rest merged

-- `sort_unstable_by_key`: the keys are distinct here, so there is one sorted order.
unfoldable pub insert_by_key : HostMergeEntry → List HostMergeEntry → List HostMergeEntry
insert_by_key entry [] = entry ∷ []
insert_by_key entry (e ∷ es) =
    if leb entry.key e.key then entry ∷ e ∷ es else e ∷ insert_by_key entry es

unfoldable pub sort_by_key : List HostMergeEntry → List HostMergeEntry
unfolding insert_by_key
sort_by_key [] = []
sort_by_key (e ∷ es) = insert_by_key e (sort_by_key es)

-- `group.is_some_and(|group| group != request_group)`
abbrev pub other_group : Option HostMergeGroup → HostMergeGroup → Bool
other_group none group = false
other_group (some current) group = not (current == group)

-- What follows the loop.
unfoldable pub finish :
    Option HostMergeGroup
    → List HostRequestIdentity
    → List HostMergeEntry
    → Result RequestTableError ReducedHostRequests
finish none identities entries = err not_mergeable
finish (some group) identities entries =
    ok (record { requests = identities; entries = sort_by_key entries })

-- The `for` loop over the requests.
unfoldable pub reduce_loop :
    ℕ
    → Option HostMergeGroup
    → List HostRequestIdentity
    → List HostMergeEntry
    → List PendingHostRequest
    → Result RequestTableError ReducedHostRequests
reduce_loop limit group identities entries [] = finish group identities entries
reduce_loop limit group identities entries (request ∷ rest) = elim request.merge [
  | ordinary ↦ err not_mergeable
  | last_write_wins request_group request_entries ↦
      if other_group group request_group
      then err incompatible_merge_group
      else and_then (merge_entries limit request_entries entries) λ merged.
        reduce_loop limit (some request_group) (identities ++ request.identity ∷ []) merged rest
]

unfoldable pub reduce_last_write_wins :
    List PendingHostRequest → ℕ → Result RequestTableError ReducedHostRequests
unfolding reduce_loop
reduce_last_write_wins requests maximum_effective_entries =
    reduce_loop maximum_effective_entries none [] [] requests
