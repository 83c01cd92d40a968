-- ===== src/Execution/Requests.antt =====
-- src/execution/requests.rs: the table of host requests that wait for an answer, and the merge of
-- requests of which the last write wins. `HostValueSlot` and `MAXIMUM_HOST_BYTE_ARRAY_BYTES` are
-- those of src/execution/host.rs.
pub mod Reduction
pub mod Admission
pub mod Table
pub mod Cancel
pub mod Writes
pub mod Sorting
pub mod Merge
mod Tests
use compukter_vm.Prelude.{
  ℕ, zero, suc, ◌+◌, ◌-◌, Option, none, some, Bool, true, false, List, [], ◌∷◌, ◌++◌, length,
  get_elem?, set, position, any, Result, ok, err, panic, ok_or, expect, and_then, Method, ◌>>=◌,
  ◌>>◌, pure, lift, gets, modify, guard, ltb, leb, ◌==◌, if◌then◌else◌, ◌&&◌, not,
}
use compukter_vm.Prelude.Int.{ℤ}
use compukter_vm.Prelude.Word.{checked_add, checked_sub}
use compukter_vm.Execution.Task.{TaskId, RequestId}

pub record HostRequestIdentity : Type 0 where
  pub task : TaskId
  pub request : RequestId

-- `==` of identities
abbrev pub same : HostRequestIdentity → HostRequestIdentity → Bool
same a b = (a.task == b.task) && (a.request == b.request)

pub data HostValueSlot : Type 0 where
  empty : HostValueSlot
  i32 i64 : ℤ → HostValueSlot
  f32 f64 : ℕ → HostValueSlot
  bool : Bool → HostValueSlot
  char : ℕ → HostValueSlot
  string byte_array : ℕ → ℕ → HostValueSlot

abbrev pub HostMergeGroup : Type 0
HostMergeGroup = ℕ

pub record HostMergeEntry : Type 0 where
  pub key : ℕ
  pub value : ℕ

pub data HostRequestMerge : Type 0 where
  ordinary : HostRequestMerge
  last_write_wins : HostMergeGroup → List HostMergeEntry → HostRequestMerge

pub record PendingHostRequest : Type 0 where
  pub identity : HostRequestIdentity
  pub capability : ℕ
  pub operation : ℕ
  pub arguments : List HostValueSlot
  pub utf16 : List ℕ
  pub bytes : List ℕ
  pub merge : HostRequestMerge

-- `PendingHostRequest::ordinary`
pub new_ordinary : HostRequestIdentity → ℕ → ℕ → List HostValueSlot → List ℕ → PendingHostRequest
new_ordinary identity capability operation arguments utf16 = record {
  identity = identity;
  capability = capability;
  operation = operation;
  arguments = arguments;
  utf16 = utf16;
  bytes = [];
  merge = ordinary;
}

-- `PendingHostRequest::last_write_wins`
pub new_last_write_wins :
    HostRequestIdentity
    → ℕ
    → ℕ
    → HostMergeGroup
    → List HostMergeEntry
    → List HostValueSlot
    → List ℕ
    → PendingHostRequest
new_last_write_wins identity capability operation group entries arguments utf16 = record {
  identity = identity;
  capability = capability;
  operation = operation;
  arguments = arguments;
  utf16 = utf16;
  bytes = [];
  merge = last_write_wins group entries;
}

pub with_bytes : PendingHostRequest → List ℕ → PendingHostRequest
with_bytes request bytes = record request { bytes = bytes }

abbrev regroup : HostMergeGroup → HostRequestMerge → HostRequestMerge
regroup group ordinary = ordinary
regroup group (last_write_wins current entries) = last_write_wins group entries

pub with_merge_group : PendingHostRequest → HostMergeGroup → PendingHostRequest
with_merge_group request group = record request { merge = regroup group request.merge }

abbrev entry_count : HostRequestMerge → ℕ
entry_count ordinary = 0
entry_count (last_write_wins group entries) = length entries

abbrev pub merge_entry_count : PendingHostRequest → ℕ
merge_entry_count request = entry_count request.merge

pub record RequestTableLimits : Type 0 where
  pub maximum_requests : ℕ
  pub maximum_arguments_per_request : ℕ
  pub maximum_total_arguments : ℕ
  pub maximum_utf16_per_request : ℕ
  pub maximum_total_utf16 : ℕ
  pub maximum_merge_entries_per_request : ℕ
  pub maximum_total_merge_entries : ℕ

pub data RequestTableError : Type 0 where
  duplicate_identity unknown_identity request_limit arguments_per_request_limit : RequestTableError
  total_arguments_limit utf16_per_request_limit byte_array_per_request_limit : RequestTableError
  total_utf16_limit merge_entries_per_request_limit total_merge_entries_limit : RequestTableError
  not_mergeable incompatible_merge_group effective_merge_entry_limit : RequestTableError

pub record PendingRequestTable : Type 0 where
  pub limits : RequestTableLimits
  pub requests : List PendingHostRequest
  pub total_arguments : ℕ
  pub total_utf16 : ℕ
  pub total_merge_entries : ℕ

abbrev pub maximum_host_byte_array_bytes : ℕ
maximum_host_byte_array_bytes = 4096

pub new : RequestTableLimits → PendingRequestTable
new limits = record {
  limits = limits;
  requests = [];
  total_arguments = 0;
  total_utf16 = 0;
  total_merge_entries = 0;
}

pub is_empty : PendingRequestTable → Bool
is_empty table = length table.requests == 0

pub clear : PendingRequestTable → PendingRequestTable
clear table = record table {
  requests = [];
  total_arguments = 0;
  total_utf16 = 0;
  total_merge_entries = 0;
}

-- `iter().find(p)`
abbrev pub find : (PendingHostRequest → Bool) → List PendingHostRequest → Option PendingHostRequest
find p [] = none
find p (r ∷ rs) = if p r then some r else find p rs

pub get : PendingRequestTable → HostRequestIdentity → Option PendingHostRequest
get table identity = find (λ request. same request.identity identity) table.requests

abbrev pub M : Type 0 → Type 0
M = Method PendingRequestTable RequestTableError

pub insert : PendingHostRequest → M (Unit {0})
insert request = do
  t ← gets (λ t. t)
  guard (not (any (λ pending. same pending.identity request.identity) t.requests))
      duplicate_identity
  guard (ltb (length t.requests) t.limits.maximum_requests) request_limit
  guard (leb (length request.arguments) t.limits.maximum_arguments_per_request)
      arguments_per_request_limit
  arguments ←
      lift (ok_or (checked_add t.total_arguments (length request.arguments)) total_arguments_limit)
  guard (leb arguments t.limits.maximum_total_arguments) total_arguments_limit
  guard (leb (length request.bytes) maximum_host_byte_array_bytes) byte_array_per_request_limit
  guard (leb (length request.utf16) t.limits.maximum_utf16_per_request) utf16_per_request_limit
  utf16 ← lift (ok_or (checked_add t.total_utf16 (length request.utf16)) total_utf16_limit)
  guard (leb utf16 t.limits.maximum_total_utf16) total_utf16_limit
  guard (leb (merge_entry_count request) t.limits.maximum_merge_entries_per_request)
      merge_entries_per_request_limit
  entries ← lift (
      ok_or (checked_add t.total_merge_entries (merge_entry_count request))
        total_merge_entries_limit)
  guard (leb entries t.limits.maximum_total_merge_entries) total_merge_entries_limit
  modify (λ t. record t {
    requests = t.requests ++ request ∷ [];
    total_arguments = arguments;
    total_utf16 = utf16;
    total_merge_entries = entries;
  })

-- `Vec::remove(index)`: the entry and the others, in order.
abbrev pub remove_at :
    List PendingHostRequest → ℕ → Option (PendingHostRequest × List PendingHostRequest)
remove_at [] i = none
remove_at (r ∷ rs) zero = some (r, rs)
remove_at (r ∷ rs) (suc i) = elim (remove_at rs i) [
  | none ↦ none
  | some (x, rest) ↦ some (x, r ∷ rest)
]

-- A subtraction that goes below 0 panics.
pub remove_totals : PendingHostRequest → M (Unit {0})
remove_totals request = do
  t ← gets (λ t. t)
  arguments ← lift (expect (checked_sub t.total_arguments (length request.arguments)))
  utf16 ← lift (expect (checked_sub t.total_utf16 (length request.utf16)))
  entries ← lift (expect (checked_sub t.total_merge_entries (merge_entry_count request)))
  modify (λ t. record t {
    total_arguments = arguments;
    total_utf16 = utf16;
    total_merge_entries = entries;
  })

-- `self.requests.remove(index)`, then `remove_totals`
pub remove : ℕ → M PendingHostRequest
unfolding remove_totals
remove index = do
  t ← gets (λ t. t)
  taken ← lift (expect (remove_at t.requests index))
  modify (λ t. record t { requests = taken.1 })
  remove_totals taken.0
  pure taken.0

pub take : HostRequestIdentity → M PendingHostRequest
unfolding remove
take identity = do
  t ← gets (λ t. t)
  index ←
      lift
        (ok_or (position (λ request. same request.identity identity) t.requests) unknown_identity)
  remove index

-- The `while` loop of `cancel_task`, on fuel: each round removes a request or moves on.
pub cancel_loop : ℕ → TaskId → ℕ → List HostRequestIdentity → M (List HostRequestIdentity)
cancel_loop zero task index cancelled = pure cancelled
cancel_loop (suc fuel) task index cancelled = do
  t ← gets (λ t. t)
  elim (get_elem? t.requests index) [
    | none ↦ pure cancelled
    | some request ↦ elim (request.identity.task == task) [
      | true ↦ do
        taken ← remove index
        cancel_loop fuel task index (cancelled ++ taken.identity ∷ [])
      | false ↦ cancel_loop fuel task (index + 1) cancelled
    ]
  ]

-- The number of requests at hand is the fuel.
pub cancel_task : TaskId → M (List HostRequestIdentity)
unfolding cancel_loop
cancel_task task = do rounds ← gets (λ t. length t.requests); cancel_loop rounds task 0 []
