-- ===== src/Execution/Requests/Cancel.antt =====
-- `cancel_task`: the loop removes the requests of a task and returns their identities in order.
use compukter_vm.Prelude.{
  ℕ, zero, suc, ◌+◌, ◌≤◌, ◌≡◌, inl, inr, refl, sym, ap, ◌∙◌, subst, none, some, true, false, List,
  [], ◌∷◌, ◌++◌, length, get_elem?, ok, ◌==◌, if◌then◌else◌, arith, Bool-cases, length-append,
}
use mathlib.Core.List.{append_assoc, append-nil}
use compukter_vm.Execution.Task.{TaskId}
use compukter_vm.Execution.Requests.{
  HostRequestIdentity, PendingHostRequest, PendingRequestTable, remove, remove_at, cancel_loop,
  cancel_task,
}
use compukter_vm.Execution.Requests.Admission.{Inv}
use compukter_vm.Execution.Requests.Table.{
  with_requests, remove_at-Removed, remove-Removed, Removed-Inv,
}

-- The identities that belong to a task, in the table's order.
abbrev pub cancelled : TaskId → List PendingHostRequest → List HostRequestIdentity
cancelled task [] = []
cancelled task (r ∷ rs) =
    if r.identity.task == task then r.identity ∷ cancelled task rs else cancelled task rs

-- The requests of the other tasks, in the table's order.
abbrev pub kept : TaskId → List PendingHostRequest → List PendingHostRequest
kept task [] = []
kept task (r ∷ rs) = if r.identity.task == task then kept task rs else r ∷ kept task rs

get_elem?-append : {A : Type 0} (xs ys : List A) → get_elem? (xs ++ ys) (length xs) ≡ get_elem? ys 0
get_elem?-append [] ys = refl
get_elem?-append (x ∷ xs) ys = get_elem?-append xs ys

remove_at-append :
    (xs ys : List PendingHostRequest) (r : PendingHostRequest)
    → remove_at (xs ++ r ∷ ys) (length xs) ≡ some (r, xs ++ ys)
remove_at-append [] ys r = refl
remove_at-append (x ∷ xs) ys r = ground (arith, remove_at-append xs ys r)

-- The table with the requests before the loop's index, and what is left behind it.
at_index :
    (t : PendingRequestTable) (front rest : List PendingHostRequest) (r : PendingHostRequest)
    → t.requests ≡ front ++ r ∷ rest
    → Inv t
    → (remove (length front) t ≡ (ok r, with_requests (front ++ rest) t))
      × Inv (with_requests (front ++ rest) t)
at_index t front rest r e v =
    let here : get_elem? t.requests (length front) ≡ some r =
      rw (e, get_elem?-append front (r ∷ rest)) in
    let (left, m) = remove_at-Removed t.requests (length front) r here in
    let same_rest : left ≡ front ++ rest =
      cc (m.removes, ap (λ xs. remove_at xs (length front)) e, remove_at-append front rest r) in
    (
      remove-Removed t (length front) r left v m
          ∙ ap (λ (l : List PendingHostRequest). (ok r, with_requests l t)) same_rest,
      subst (λ (l : List PendingHostRequest). Inv (with_requests l t)) same_rest
          (Removed-Inv t (length front) r left v m),
    )

abbrev Cancels :
    ℕ
    → TaskId
    → List HostRequestIdentity
    → List PendingHostRequest
    → List PendingHostRequest
    → PendingRequestTable
    → Type 0
Cancels fuel task acc front rest t =
    (t' : PendingRequestTable) × (cancel_loop fuel task (length front) acc t
      ≡ (ok (acc ++ cancelled task rest), t'))
    × (t'.requests ≡ front ++ kept task rest)
    × (t'.limits ≡ t.limits)
    × Inv t'

module _ (fuel : ℕ) (task : TaskId) (i : ℕ) (acc : List HostRequestIdentity)
    (t : PendingRequestTable) where
  loop-end : get_elem? t.requests i ≡ none → cancel_loop fuel task i acc t ≡ (ok acc, t)
  unfolding cancel_loop
  loop-end e = go fuel
    where
      go : (n : ℕ) → cancel_loop n task i acc t ≡ (ok acc, t)
      go zero = refl
      go (suc n) = ground arith

  loop-other :
      (r : PendingHostRequest)
      → get_elem? t.requests i ≡ some r
      → (r.identity.task == task) ≡ false
      → cancel_loop (suc fuel) task i acc t ≡ cancel_loop fuel task (i + 1) acc t
  unfolding cancel_loop
  loop-other r e other = ground arith

  loop-hit :
      (r : PendingHostRequest) (t' : PendingRequestTable)
      → get_elem? t.requests i ≡ some r
      → (r.identity.task == task) ≡ true
      → remove i t ≡ (ok r, t')
      → cancel_loop (suc fuel) task i acc t ≡ cancel_loop fuel task i (acc ++ r.identity ∷ []) t'
  unfolding cancel_loop
  loop-hit r t' e hit m = ground arith

no_more : {A : Type 0} (xs front : List A) → xs ≡ front ++ [] → get_elem? xs (length front) ≡ none
no_more xs front e = rw (e, get_elem?-append front [])

-- The front grows by a request that stays.
Cancels-other :
    (fuel : ℕ) (task : TaskId) (acc : List HostRequestIdentity)
    (front rest : List PendingHostRequest) (r : PendingHostRequest) (t : PendingRequestTable)
    → t.requests ≡ front ++ r ∷ rest
    → (r.identity.task == task) ≡ false
    → Cancels fuel task acc (front ++ r ∷ []) rest t
    → Cancels (suc fuel) task acc front (r ∷ rest) t
Cancels-other fuel task acc front rest r t e other (t', run, q, l, v) = (
  t',
  loop-other fuel task (length front) acc t r (rw (e, get_elem?-append front (r ∷ rest))) other
      ∙ ap (λ (i : ℕ). cancel_loop fuel task i acc t) (sym (length-append front (r ∷ [])))
      ∙ run
      ∙ ground (arith, other),
  q ∙ rw append_assoc (ground (arith, other)),
  l,
  v,
)

Cancels-hit :
    (fuel : ℕ) (task : TaskId) (acc : List HostRequestIdentity)
    (front rest : List PendingHostRequest) (r : PendingHostRequest) (t : PendingRequestTable)
    → t.requests ≡ front ++ r ∷ rest
    → (r.identity.task == task) ≡ true
    → Inv t
    → Cancels fuel task (acc ++ r.identity ∷ []) front rest (with_requests (front ++ rest) t)
    → Cancels (suc fuel) task acc front (r ∷ rest) t
Cancels-hit fuel task acc front rest r t e hit v (t', run, q, l, w) = (
  t',
  loop-hit fuel task (length front) acc t r (with_requests (front ++ rest) t)
        (rw (e, get_elem?-append front (r ∷ rest))) hit (at_index t front rest r e v).0
      ∙ run
      ∙ rw append_assoc (ground (arith, hit)),
  q ∙ ground (arith, hit),
  l,
  w,
)

cancel_loop_lem :
    (fuel : ℕ) (task : TaskId) (acc : List HostRequestIdentity)
    (front rest : List PendingHostRequest) (t : PendingRequestTable)
    → Inv t
    → t.requests ≡ front ++ rest
    → length rest ≤ fuel
    → Cancels fuel task acc front rest t
cancel_loop_lem fuel task acc front [] t v e h = (
  t,
  loop-end fuel task (length front) acc t (no_more t.requests front e)
      ∙ ap (λ (l : List HostRequestIdentity). (ok l, t)) (sym (append-nil acc)),
  e,
  refl,
  v,
)
cancel_loop_lem zero task acc front (r ∷ rest) t v e h = absurd (omega arith)
cancel_loop_lem (suc fuel) task acc front (r ∷ rest) t v e h =
    elim (Bool-cases (r.identity.task == task)) [
      | inl hit ↦ Cancels-hit fuel task acc front rest r t e hit v (
          cancel_loop_lem fuel task (acc ++ r.identity ∷ []) front rest
            (with_requests (front ++ rest) t) (at_index t front rest r e v).1 refl (omega arith))
      | inr other ↦ Cancels-other fuel task acc front rest r t e other (
          cancel_loop_lem fuel task acc (front ++ r ∷ []) rest t v
            (e ∙ sym (append_assoc front (r ∷ []) rest)) (omega arith))
    ]

-- On a table that keeps its totals, cancelling a task returns the identities of all its requests, in order, and leaves the requests
-- of the other tasks, in order, with the totals that belong to them.
pub cancel_task-exact :
    (t : PendingRequestTable) (task : TaskId)
    → Inv t
    → (t' : PendingRequestTable) × (cancel_task task t ≡ (ok (cancelled task t.requests), t'))
      × (t'.requests ≡ kept task t.requests)
      × (t'.limits ≡ t.limits)
      × Inv t'
unfolding cancel_task
cancel_task-exact t task v =
    cancel_loop_lem (length t.requests) task [] [] t.requests t v refl (omega arith)
