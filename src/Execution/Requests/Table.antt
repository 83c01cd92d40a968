-- ===== src/Execution/Requests/Table.antt =====
-- The request table's bookkeeping: its totals, its limits, and one request for each identity.
use compukter_vm.Prelude.{
  ℕ, zero, suc, ◌+◌, ◌≡◌, ◌⊎◌, inl, inr, refl, sym, ap, ◌∙◌, subst, none, some, true, false, List,
  [], ◌∷◌, length, get_elem?, position, All, ok, err, arith, Bool-cases,
}
use compukter_vm.Prelude.Word.{checked_sub-add}
use compukter_vm.Execution.Requests.{
  HostRequestIdentity, same, PendingHostRequest, PendingRequestTable, RequestTableLimits,
  RequestTableError, merge_entry_count, find, get, insert, take, remove, remove_at,
  unknown_identity,
}
use compukter_vm.Execution.Requests.Admission.{
  sum_of, holds, Unique, arguments_of, utf16_of, Sized, IsSmall, Fits, Inv, inserted,
  insert-Decides, same_comm, same-eq, Inv-inserted,
}

-- On a table that keeps its totals, with limits that fit a `usize`, `insert` adds a request exactly when it
-- fits: a new identity, a free place, and every limit kept (per request and in total). The request then stands last and the totals cover it; a request that
-- does not fit is refused, and the table does not change.
pub insert-exact :
    (r : PendingHostRequest) (t : PendingRequestTable)
    → Sized t.limits
    → Inv t
    → (Fits r t × (insert r t ≡ (ok tt, inserted r t)) × Inv (inserted r t))
      ⊎ ((e : RequestTableError) × (¬ Fits r t) × (insert r t ≡ (err e, t)))
insert-exact r t z v = elim (insert-Decides r t z) [
  | inl (f, e) ↦ inl (f, e, Inv-inserted r t v f)
  | inr (e, n, q) ↦ inr (e, n, q)
]

-- What is left when the request at a position is taken out.
pub record Removed (xs : List PendingHostRequest) (i : ℕ) (r : PendingHostRequest)
    (rest : List PendingHostRequest) : Type 0 where
  pub removes : remove_at xs i ≡ some (r, rest)
  pub sums : (f : PendingHostRequest → ℕ) → sum_of f xs ≡ f r + sum_of f rest
  pub shorter : length xs ≡ suc (length rest)
  pub small : (limits : RequestTableLimits) → All (IsSmall limits) xs → All (IsSmall limits) rest
  pub absent :
      (identity : HostRequestIdentity) → holds identity xs ≡ false → holds identity rest ≡ false
  pub unique : Unique xs → Unique rest × (holds r.identity rest ≡ false)
  pub others :
      (identity : HostRequestIdentity)
      → same r.identity identity ≡ false
      → find (λ q. same q.identity identity) rest ≡ find (λ q. same q.identity identity) xs

holds-get :
    (identity : HostRequestIdentity) (xs : List PendingHostRequest) (i : ℕ) (r : PendingHostRequest)
    → holds identity xs ≡ false
    → get_elem? xs i ≡ some r
    → same r.identity identity ≡ false
holds-get identity [] i r h e = absurd (ground arith)
holds-get identity (x ∷ xs) zero r h e = ground arith
holds-get identity (x ∷ xs) (suc i) r h e = holds-get identity xs i r (ground arith) e

pub remove_at-Removed :
    (xs : List PendingHostRequest) (i : ℕ) (r : PendingHostRequest)
    → get_elem? xs i ≡ some r
    → (rest : List PendingHostRequest) × Removed xs i r rest
remove_at-Removed [] i r e = absurd (ground arith)
remove_at-Removed (x ∷ xs) zero r e = (
  xs,
  record {
    removes = ground arith;
    sums = λ f. ground arith;
    shorter = refl;
    small = λ limits a. a.1;
    absent = λ identity h. ground arith;
    unique = λ u. (u.1, ground arith);
    others = λ identity h. ground arith;
  },
)
remove_at-Removed (x ∷ xs) (suc i) r e =
    let (rest, v) = remove_at-Removed xs i r e in
    (
      x ∷ rest,
      record {
        removes = ground (arith, v.removes);
        sums = λ f. omega (arith, v.sums f);
        shorter = ap suc v.shorter;
        small = λ limits a. (a.0, v.small limits a.1);
        absent = λ identity h. ground (arith, v.absent identity);
        unique = λ u. (
          (v.absent x.identity u.0, (v.unique u.1).0),
          ground (
            arith,
            (v.unique u.1).1,
            holds-get x.identity xs i r u.0 e,
            same_comm r.identity x.identity,
          ),
        );
        others = λ identity h. ground (arith, v.others identity h);
      },
    )

abbrev pub with_requests : List PendingHostRequest → PendingRequestTable → PendingRequestTable
with_requests rest t = record t {
  requests = rest;
  total_arguments = sum_of arguments_of rest;
  total_utf16 = sum_of utf16_of rest;
  total_merge_entries = sum_of merge_entry_count rest;
}

-- Under the invariant the totals cover the request that leaves, so nothing panics.
pub remove-Removed :
    (t : PendingRequestTable) (i : ℕ) (r : PendingHostRequest) (rest : List PendingHostRequest)
    → Inv t
    → Removed t.requests i r rest
    → remove i t ≡ (ok r, with_requests rest t)
unfolding remove
remove-Removed t i r rest v m = rw (
  m.removes,
  v.arguments ∙ m.sums arguments_of,
  v.utf16 ∙ m.sums utf16_of,
  v.entries ∙ m.sums merge_entry_count,
  checked_sub-add (length r.arguments) (sum_of arguments_of rest),
  checked_sub-add (length r.utf16) (sum_of utf16_of rest),
  checked_sub-add (merge_entry_count r) (sum_of merge_entry_count rest),
)

pub Removed-Inv :
    (t : PendingRequestTable) (i : ℕ) (r : PendingHostRequest) (rest : List PendingHostRequest)
    → Inv t
    → Removed t.requests i r rest
    → Inv (with_requests rest t)
Removed-Inv t i r rest v m = record {
  arguments = refl;
  utf16 = refl;
  entries = refl;
  few = omega (arith, v.few, m.shorter);
  arguments_fit = omega (arith, v.arguments, v.arguments_fit, m.sums arguments_of);
  utf16_fit = omega (arith, v.utf16, v.utf16_fit, m.sums utf16_of);
  entries_fit = omega (arith, v.entries, v.entries_fit, m.sums merge_entry_count);
  small = m.small t.limits v.small;
  unique = (m.unique v.unique).0;
}

find-absent :
    (identity : HostRequestIdentity) (xs : List PendingHostRequest)
    → holds identity xs ≡ false
    → find (λ q. same q.identity identity) xs ≡ none
find-absent identity [] h = refl
find-absent identity (x ∷ xs) h = ground (arith, find-absent identity xs)

find-position :
    (identity : HostRequestIdentity) (xs : List PendingHostRequest)
    → ((position (λ q. same q.identity identity) xs ≡ none)
        × (find (λ q. same q.identity identity) xs ≡ none))
      ⊎ ((i : ℕ) × (r : PendingHostRequest) × (position (λ q. same q.identity identity) xs ≡ some i)
          × (get_elem? xs i ≡ some r)
          × (find (λ q. same q.identity identity) xs ≡ some r)
          × (same r.identity identity ≡ true))
find-position identity [] = inl (refl, refl)
find-position identity (x ∷ xs) = elim (Bool-cases (same x.identity identity)) [
  | inl here ↦ inr (0, x, ground arith, refl, ground arith, here)
  | inr away ↦ elim (find-position identity xs) [
    | inl (p, f) ↦ inl (ground arith, ground arith)
    | inr (i, r, p, g, f, s) ↦ inr (suc i, r, ground arith, g, ground arith, s)
  ]
]

-- Taking an identity out of a table that keeps its totals returns its request, which is gone afterwards; all other
-- identities keep theirs. An identity that is not there is refused, and nothing changes.
pub take-exact :
    (t : PendingRequestTable) (identity : HostRequestIdentity)
    → Inv t
    → ((r : PendingHostRequest) × (t' : PendingRequestTable) × (take identity t ≡ (ok r, t'))
        × (get t identity ≡ some r)
        × (get t' identity ≡ none)
        × ((other : HostRequestIdentity) → same identity other ≡ false → get t' other ≡ get t other)
        × Inv t')
      ⊎ ((get t identity ≡ none) × (take identity t ≡ (err unknown_identity, t)))
unfolding take get
take-exact t identity v = elim (find-position identity t.requests) [
  | inl (p, f) ↦ inr (f, rw p)
  | inr (i, r, p, g, f, s) ↦
      let (rest, m) = remove_at-Removed t.requests i r g in
      inl (
        r,
        with_requests rest t,
        rw p (remove-Removed t i r rest v m),
        f,
        find-absent identity rest (
            subst (λ (q : HostRequestIdentity). holds q rest ≡ false)
              (same-eq r.identity identity s) (m.unique v.unique).1),
        (λ other away. m.others other (
            subst (λ (q : HostRequestIdentity). same q other ≡ false)
              (sym (same-eq r.identity identity s)) away)),
        Removed-Inv t i r rest v m,
      )
]
