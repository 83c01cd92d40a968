-- ===== src/Execution/Requests/Admission.antt =====
-- src/execution/requests.rs: the totals and limits of the table, and the checks of `insert`.
use compukter_vm.Prelude.{
  ℕ, ◌+◌, ◌≤◌, ◌<◌, ◌≡◌, inl, refl, Bool, true, false, List, [], ◌∷◌, ◌++◌, length, any, All, ltb,
  leb, ltb→lt, leb→le, not, arith, length-append, All-append,
}
use compukter_vm.Prelude.Decides.{Decides, guard-Decides, lift-Decides}
use compukter_vm.Prelude.Word.{word, checked_add, checked_add-some}
use compukter_vm.Execution.Requests.{
  HostRequestIdentity, same, PendingHostRequest, PendingRequestTable, RequestTableLimits,
  merge_entry_count, maximum_host_byte_array_bytes, insert, duplicate_identity, request_limit,
  arguments_per_request_limit, total_arguments_limit, byte_array_per_request_limit,
  utf16_per_request_limit, total_utf16_limit, merge_entries_per_request_limit,
  total_merge_entries_limit,
}

-- A sum over the requests.
abbrev pub sum_of : (PendingHostRequest → ℕ) → List PendingHostRequest → ℕ
sum_of f [] = 0
sum_of f (r ∷ rs) = f r + sum_of f rs

abbrev pub holds : HostRequestIdentity → List PendingHostRequest → Bool
holds identity = any (λ pending. same pending.identity identity)

abbrev pub Unique : List PendingHostRequest → Type 0
Unique [] = Unit
Unique (r ∷ rs) = (holds r.identity rs ≡ false) × Unique rs

abbrev pub arguments_of : PendingHostRequest → ℕ
arguments_of r = length r.arguments

abbrev pub utf16_of : PendingHostRequest → ℕ
utf16_of r = length r.utf16

-- The limits on a single request.
pub record IsSmall (limits : RequestTableLimits) (r : PendingHostRequest) : Type 0 where
  pub arguments : length r.arguments ≤ limits.maximum_arguments_per_request
  pub bytes : length r.bytes ≤ maximum_host_byte_array_bytes
  pub utf16 : length r.utf16 ≤ limits.maximum_utf16_per_request
  pub entries : merge_entry_count r ≤ limits.maximum_merge_entries_per_request

pub record Inv (t : PendingRequestTable) : Type 0 where
  pub arguments : t.total_arguments ≡ sum_of arguments_of t.requests
  pub utf16 : t.total_utf16 ≡ sum_of utf16_of t.requests
  pub entries : t.total_merge_entries ≡ sum_of merge_entry_count t.requests
  pub few : length t.requests ≤ t.limits.maximum_requests
  pub arguments_fit : t.total_arguments ≤ t.limits.maximum_total_arguments
  pub utf16_fit : t.total_utf16 ≤ t.limits.maximum_total_utf16
  pub entries_fit : t.total_merge_entries ≤ t.limits.maximum_total_merge_entries
  pub small : All (IsSmall t.limits) t.requests
  pub unique : Unique t.requests

-- What `insert` demands of a request.
pub record Fits (r : PendingHostRequest) (t : PendingRequestTable) : Type 0 where
  pub new_identity : holds r.identity t.requests ≡ false
  pub room : length t.requests < t.limits.maximum_requests
  pub small : IsSmall t.limits r
  pub arguments : t.total_arguments + length r.arguments ≤ t.limits.maximum_total_arguments
  pub utf16 : t.total_utf16 + length r.utf16 ≤ t.limits.maximum_total_utf16
  pub entries : t.total_merge_entries + merge_entry_count r ≤ t.limits.maximum_total_merge_entries

-- The limits are `usize` values.
pub record Sized (limits : RequestTableLimits) : Type 0 where
  pub arguments : limits.maximum_total_arguments < word
  pub utf16 : limits.maximum_total_utf16 < word
  pub entries : limits.maximum_total_merge_entries < word

abbrev pub inserted : PendingHostRequest → PendingRequestTable → PendingRequestTable
inserted r t = record t {
  requests = t.requests ++ r ∷ [];
  total_arguments = t.total_arguments + length r.arguments;
  total_utf16 = t.total_utf16 + length r.utf16;
  total_merge_entries = t.total_merge_entries + merge_entry_count r;
}

-- `insert` decides `Fits`: it adds the request at the end, or refuses it and changes nothing.
pub insert-Decides :
    (r : PendingHostRequest) (t : PendingRequestTable)
    → Sized t.limits
    → Decides (Fits r t) t tt (inserted r t) (insert r t)
unfolding insert
insert-Decides r t z =
    let l = t.limits in
    guard-Decides (Fits r t) t tt (inserted r t) (not (holds r.identity t.requests))
      duplicate_identity _ (λ f. ground (arith, f.new_identity))
      λ fresh.
        guard-Decides (Fits r t) t tt (inserted r t) (ltb (length t.requests) l.maximum_requests)
          request_limit _ (λ f. ground (arith, f.room))
          λ room.
            guard-Decides (Fits r t) t tt (inserted r t)
              (leb (length r.arguments) l.maximum_arguments_per_request) arguments_per_request_limit
              _ (λ f. ground (arith, f.small.arguments))
              λ few.
                lift-Decides (Fits r t) t tt (inserted r t)
                  (checked_add t.total_arguments (length r.arguments)) total_arguments_limit _
                  (λ f. ground (arith, f.arguments, z.arguments))
                  λ arguments ea.
                    guard-Decides (Fits r t) t tt (inserted r t)
                      (leb arguments l.maximum_total_arguments) total_arguments_limit _
                      (λ f. ground (arith, f.arguments, ea))
                      λ fit_a.
                        guard-Decides (Fits r t) t tt (inserted r t)
                          (leb (length r.bytes) maximum_host_byte_array_bytes)
                          byte_array_per_request_limit _ (λ f. ground (arith, f.small.bytes))
                          λ bytes.
                            guard-Decides (Fits r t) t tt (inserted r t)
                              (leb (length r.utf16) l.maximum_utf16_per_request)
                              utf16_per_request_limit _ (λ f. ground (arith, f.small.utf16))
                              λ short.
                                lift-Decides (Fits r t) t tt (inserted r t)
                                  (checked_add t.total_utf16 (length r.utf16)) total_utf16_limit _
                                  (λ f. ground (arith, f.utf16, z.utf16))
                                  λ utf16 eu.
                                    guard-Decides (Fits r t) t tt (inserted r t)
                                      (leb utf16 l.maximum_total_utf16) total_utf16_limit _
                                      (λ f. ground (arith, f.utf16, eu))
                                      λ fit_u.
                                        guard-Decides (Fits r t) t tt (inserted r t)
                                          (leb (merge_entry_count r)
                                            l.maximum_merge_entries_per_request)
                                          merge_entries_per_request_limit _
                                          (λ f. ground (arith, f.small.entries))
                                          λ small.
                                            lift-Decides (Fits r t) t tt (inserted r t)
                                              (checked_add t.total_merge_entries
                                                (merge_entry_count r))
                                              total_merge_entries_limit _
                                              (λ f. ground (arith, f.entries, z.entries))
                                              λ entries ee.
                                                guard-Decides (Fits r t) t tt (inserted r t)
                                                  (leb entries l.maximum_total_merge_entries)
                                                  total_merge_entries_limit _
                                                  (λ f. ground (arith, f.entries, ee))
                                                  λ fit_e.
                                                    let a =
                                                      (checked_add-some t.total_arguments
                                                        (length r.arguments) arguments ea).0 in
                                                    let u =
                                                      (checked_add-some t.total_utf16
                                                        (length r.utf16) utf16 eu).0 in
                                                    let n =
                                                      (checked_add-some t.total_merge_entries
                                                        (merge_entry_count r) entries ee).0 in
                                                    inl (
                                                      record {
                                                        new_identity = ground (arith, fresh);
                                                        room = ltb→lt _ _ room;
                                                        small = record {
                                                          arguments = leb→le _ _ few;
                                                          bytes = leb→le _ _ bytes;
                                                          utf16 = leb→le _ _ short;
                                                          entries = leb→le _ _ small;
                                                        };
                                                        arguments = rw (← a) (leb→le _ _ fit_a);
                                                        utf16 = rw (← u) (leb→le _ _ fit_u);
                                                        entries = rw (← n) (leb→le _ _ fit_e);
                                                      },
                                                      rw (a, u, n),
                                                    )

sum_of-append :
    (f : PendingHostRequest → ℕ) (xs : List PendingHostRequest) (r : PendingHostRequest)
    → sum_of f (xs ++ r ∷ []) ≡ sum_of f xs + f r
sum_of-append f [] r = omega arith
sum_of-append f (x ∷ xs) r = omega (arith, sum_of-append f xs r)

pub same_comm : (a b : HostRequestIdentity) → same a b ≡ same b a
same_comm a b = ground arith

pub same-eq : (a b : HostRequestIdentity) → same a b ≡ true → a ≡ b
same-eq a b h = ground arith

holds-append :
    (identity : HostRequestIdentity) (xs : List PendingHostRequest) (r : PendingHostRequest)
    → holds identity xs ≡ false
    → same r.identity identity ≡ false
    → holds identity (xs ++ r ∷ []) ≡ false
holds-append identity [] r h k = ground arith
holds-append identity (x ∷ xs) r h k = ground (arith, holds-append identity xs r)

Unique-snoc :
    (xs : List PendingHostRequest) (r : PendingHostRequest)
    → Unique xs
    → holds r.identity xs ≡ false
    → Unique (xs ++ r ∷ [])
Unique-snoc [] r u h = (refl, tt)
Unique-snoc (x ∷ xs) r u h = (
  holds-append x.identity xs r u.0 (ground (arith, same_comm r.identity x.identity)),
  Unique-snoc xs r u.1 (ground arith),
)

pub Inv-inserted :
    (r : PendingHostRequest) (t : PendingRequestTable) → Inv t → Fits r t → Inv (inserted r t)
Inv-inserted r t v f = record {
  arguments = omega (arith, v.arguments, sum_of-append arguments_of t.requests r);
  utf16 = omega (arith, v.utf16, sum_of-append utf16_of t.requests r);
  entries = omega (arith, v.entries, sum_of-append merge_entry_count t.requests r);
  few = omega (arith, f.room, length-append t.requests (r ∷ []));
  arguments_fit = f.arguments;
  utf16_fit = f.utf16;
  entries_fit = f.entries;
  small = All-append (IsSmall t.limits) t.requests (r ∷ []) v.small (f.small, tt);
  unique = Unique-snoc t.requests r v.unique f.new_identity;
}
