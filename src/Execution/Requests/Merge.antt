-- ===== src/Execution/Requests/Merge.antt =====
-- `reduce_last_write_wins`: for each key the last value that any of the requests writes.
use compukter_vm.Prelude.{
  ℕ, ◌+◌, ◌≤◌, ◌≡◌, inl, inr, refl, sym, ap, ◌∙◌, subst, Option, none, some, false, List, [], ◌∷◌,
  ◌++◌, map, length, All, ok, and_then-ok, ◌==◌, if◌then◌else◌, arith, Bool-cases, length-append,
}
use mathlib.Core.List.{append_assoc, append-nil}
use compukter_vm.Execution.Requests.{
  HostMergeEntry, HostRequestIdentity, HostMergeGroup, HostRequestMerge, ordinary, last_write_wins,
  PendingHostRequest,
}
use compukter_vm.Execution.Requests.Reduction.{
  ReducedHostRequests, merge_entries, sort_by_key, finish, reduce_loop, reduce_last_write_wins,
  other_group,
}
use compukter_vm.Execution.Requests.Writes.{
  value_at, last_value, writes_of, writes, Rising, Keyed, merge_entries-Merged, merge_entries-ok,
}
use compukter_vm.Execution.Requests.Sorting.{value_at-sort, sort-Rising, length-sort}

-- A request that merges into a group.
abbrev pub MergesInto : HostMergeGroup → HostRequestMerge → Type 0
MergesInto group ordinary = ⊥
MergesInto group (last_write_wins g entries) = g ≡ group

abbrev pub InGroup : HostMergeGroup → List PendingHostRequest → Type 0
InGroup group = All (λ r. MergesInto group r.merge)

last_value-append :
    (k : ℕ) (before : Option ℕ) (xs ys : List HostMergeEntry)
    → last_value k before (xs ++ ys) ≡ last_value k (last_value k before xs) ys
last_value-append k before [] ys = refl
last_value-append k before (x ∷ xs) ys =
    last_value-append k (if x.key == k then some x.value else before) xs ys

record Reduced (limit : ℕ) (group : Option HostMergeGroup) (ids : List HostRequestIdentity)
    (entries : List HostMergeEntry) (requests : List PendingHostRequest)
    (result : ReducedHostRequests) : Type 0 where
  identities : result.requests ≡ ids ++ map (λ r. r.identity) requests
  rising : Keyed entries → Rising result.entries
  fits : length entries ≤ limit → length result.entries ≤ limit
  values : (k : ℕ) → value_at k result.entries ≡ last_value k (value_at k entries) (writes requests)
  one_group : (g : HostMergeGroup) → group ≡ some g → InGroup g requests
  some_group : group ≡ none → (g : HostMergeGroup) × InGroup g requests

finish-Reduced :
    (limit : ℕ) (group : Option HostMergeGroup) (ids : List HostRequestIdentity)
    (entries : List HostMergeEntry) (result : ReducedHostRequests)
    → finish group ids entries ≡ ok result
    → Reduced limit group ids entries [] result
unfolding finish
finish-Reduced limit none ids entries result h = absurd (cc h)
finish-Reduced limit (some g) ids entries result h =
    let sorted : result.entries ≡ sort_by_key entries = ground arith in
    record {
      identities = ground (arith, append-nil ids);
      rising = λ k. rw sorted (sort-Rising entries k);
      fits = λ l. rw (sorted, length-sort entries) l;
      values = λ k. rw (sorted, value_at-sort entries k);
      one_group = λ g' e. tt;
      some_group = λ e. (g, tt);
    }

-- What one round of the loop does when it goes on.
abbrev Round :
    ℕ
    → Option HostMergeGroup
    → List HostRequestIdentity
    → List HostMergeEntry
    → PendingHostRequest
    → List PendingHostRequest
    → ReducedHostRequests
    → Type 0
Round limit group ids entries r rs result =
    (g : HostMergeGroup) × (es mid : List HostMergeEntry) × (r.merge ≡ last_write_wins g es)
    × (other_group group g ≡ false)
    × (merge_entries limit es entries ≡ ok mid)
    × (reduce_loop limit (some g) (ids ++ r.identity ∷ []) mid rs ≡ ok result)

reduce_loop-Round :
    (limit : ℕ) (group : Option HostMergeGroup) (ids : List HostRequestIdentity)
    (entries : List HostMergeEntry) (r : PendingHostRequest) (rs : List PendingHostRequest)
    (result : ReducedHostRequests)
    → reduce_loop limit group ids entries (r ∷ rs) ≡ ok result
    → Round limit group ids entries r rs result
unfolding reduce_loop
reduce_loop-Round limit group ids entries r rs result h = go r.merge refl
  where
    go : (m : HostRequestMerge) → r.merge ≡ m → Round limit group ids entries r rs result
    go ordinary e = absurd (ground (arith, e))
    go (last_write_wins g es) e = elim (Bool-cases (other_group group g)) [
      | inl other ↦ absurd (ground (arith, e, other))
      | inr mine ↦
          let (mid, a, b) =
            and_then-ok (merge_entries limit es entries)
              (λ merged. reduce_loop limit (some g) (ids ++ r.identity ∷ []) merged rs) result
              (ground (arith, e, mine)) in
          (g, es, mid, e, mine, a, b)
    ]

reduce_loop-Reduced :
    (limit : ℕ) (group : Option HostMergeGroup) (ids : List HostRequestIdentity)
    (entries : List HostMergeEntry) (requests : List PendingHostRequest)
    (result : ReducedHostRequests)
    → reduce_loop limit group ids entries requests ≡ ok result
    → Reduced limit group ids entries requests result
unfolding reduce_loop
reduce_loop-Reduced limit group ids entries [] result h =
    finish-Reduced limit group ids entries result h
reduce_loop-Reduced limit group ids entries (r ∷ rs) result h =
    let (g, es, mid, kind, mine, one, more) =
      reduce_loop-Round limit group ids entries r rs result h in
    let rest = reduce_loop-Reduced limit (some g) (ids ++ r.identity ∷ []) mid rs result more in
    let merged = merge_entries-Merged limit es entries mid one in
    record {
      identities = rest.identities ∙ append_assoc ids (r.identity ∷ []) (map (λ q. q.identity) rs);
      rising = λ k. rest.rising (merged.keyed k);
      fits = λ l. rest.fits (merged.fits l);
      values = λ k.
          rest.values k
          ∙ ap (λ (o : Option ℕ). last_value k o (writes rs)) (merged.values k)
          ∙ sym (last_value-append k (value_at k entries) es (writes rs))
          ∙ ap
              (λ (m : HostRequestMerge).
                last_value k (value_at k entries) (writes_of m ++ writes rs))
              (sym kind);
      one_group = λ g' e.
          let same : g ≡ g' = ground (arith, mine, e) in
          (subst (MergesInto g') (sym kind) same, rest.one_group g' (ap some same));
      some_group = λ e. (g, (subst (MergesInto g) (sym kind) refl, rest.one_group g refl));
    }

reduce_loop-ok :
    (limit : ℕ) (g : HostMergeGroup) (ids : List HostRequestIdentity)
    (entries : List HostMergeEntry) (requests : List PendingHostRequest)
    → InGroup g requests
    → length entries + length (writes requests) ≤ limit
    → (result : ReducedHostRequests) × (reduce_loop limit (some g) ids entries requests ≡ ok result)
unfolding reduce_loop finish
reduce_loop-ok limit g ids entries [] m h = (_, refl)
reduce_loop-ok limit g ids entries (r ∷ rs) m h =
    go r.merge refl λ ids' entries' l. reduce_loop-ok limit g ids' entries' rs m.1 l
  where
    Succeeds : List HostRequestIdentity → List HostMergeEntry → List PendingHostRequest → Type 0
    Succeeds is es qs =
        (result : ReducedHostRequests) × (reduce_loop limit (some g) is es qs ≡ ok result)

    go :
        (k : HostRequestMerge)
        → r.merge ≡ k
        → ((is : List HostRequestIdentity) (es : List HostMergeEntry)
            → length es + length (writes rs) ≤ limit
            → Succeeds is es rs)
        → Succeeds ids entries (r ∷ rs)
    go ordinary e rec = absurd (subst (MergesInto g) e m.0)
    go (last_write_wins g' es) e rec =
        let mine : g' ≡ g = subst (MergesInto g) e m.0 in
        let size : length (writes (r ∷ rs)) ≡ length es + length (writes rs) =
          ap (λ (k : HostRequestMerge). length (writes_of k ++ writes rs)) e
          ∙ length-append es (writes rs) in
        let (mid, one, l) = merge_entries-ok limit es entries (omega arith) in
        let (result, more) = rec (ids ++ r.identity ∷ []) mid (omega arith) in
        (result, rw (e, reduce_loop, mine) (ground (arith, one, more)))

-- A reduction that succeeds had at least one request, and all of one group. It lists the requests
-- in order; its entries rise strictly by key, are no more than the limit, and hold under each key
-- the last value that any of the requests writes to it, and nothing under any other key.
pub reduce-exact :
    (requests : List PendingHostRequest) (limit : ℕ) (result : ReducedHostRequests)
    → reduce_last_write_wins requests limit ≡ ok result
    → (result.requests ≡ map (λ r. r.identity) requests)
      × Rising result.entries
      × (length result.entries ≤ limit)
      × ((k : ℕ) → value_at k result.entries ≡ last_value k none (writes requests))
      × ((g : HostMergeGroup) × InGroup g requests)
unfolding reduce_last_write_wins
reduce-exact requests limit result h =
    let done = reduce_loop-Reduced limit none [] [] requests result h in
    (done.identities, done.rising tt, done.fits (omega arith), done.values, done.some_group refl)

-- The first request sets the group.
first_group :
    (r : PendingHostRequest) (rs : List PendingHostRequest) (limit : ℕ) (g : HostMergeGroup)
    (result : ReducedHostRequests)
    → InGroup g (r ∷ rs)
    → reduce_loop limit (some g) [] [] (r ∷ rs) ≡ ok result
    → reduce_loop limit none [] [] (r ∷ rs) ≡ ok result
unfolding reduce_loop
first_group r rs limit g result m h =
    let (g', es, mid, kind, mine, one, more) =
      reduce_loop-Round limit (some g) [] [] r rs result h in
    rw (kind, reduce_loop) (ground (arith, one, more))

-- Requests that all merge into one group, with no more writes than the limit, are reduced.
pub reduce-succeeds :
    (r : PendingHostRequest) (rs : List PendingHostRequest) (limit : ℕ) (g : HostMergeGroup)
    → InGroup g (r ∷ rs)
    → length (writes (r ∷ rs)) ≤ limit
    → (result : ReducedHostRequests) × (reduce_last_write_wins (r ∷ rs) limit ≡ ok result)
unfolding reduce_last_write_wins
reduce-succeeds r rs limit g m h =
    let (result, done) = reduce_loop-ok limit g [] [] (r ∷ rs) m (omega arith) in
    (result, first_group r rs limit g result m done)
