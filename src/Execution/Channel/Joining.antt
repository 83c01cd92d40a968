-- ===== src/Execution/Channel/Joining.antt =====
-- The waiters once a task joined a queue.
use native.Mathlib.Decide.{ℕ_discrete}
use compukter_vm.Prelude.{
  ℕ, ◌≤◌, ◌<◌, ◌≡◌, ◌≢◌, ◌⊎◌, ◌∙◌, inl, inr, refl, sym, ap, Option, none, some, true, List, [], ◌∷◌,
  ◌++◌, length, get_elem?, set, arith, get_elem?-lt, get_elem?-set_self, get_elem?-set_ne,
  length-set,
}
use compukter_vm.Execution.Channel.{Waiter, no_slot, is_some}
use compukter_vm.Execution.Channel.Post.{Place}
use compukter_vm.Execution.Channel.Line.{
  Entry, Line, Links, Same, waiter_of, first, last, Links-append,
}
use compukter_vm.Execution.Channel.Shows.{Parks}

pub last-append : (es : List Entry) (n : Entry) → last (es ++ n ∷ []) ≡ n.slot
last-append [] n = refl
last-append (e ∷ []) n = refl
last-append (e ∷ f ∷ es) n = last-append (f ∷ es) n

-- The waiters once `n` is behind `es`, of which `w` is the last.
unfoldable pub joined : List Waiter → List Entry → Entry → List Waiter
joined ws [] n = set ws n.slot (waiter_of n no_slot)
joined ws (e ∷ es) n = elim (get_elem? ws (last (e ∷ es))) [
  | none ↦ ws
  | some w ↦ set (set ws n.slot (waiter_of n no_slot)) (last (e ∷ es)) (record w { next = n.slot })
]

joined_eq :
    (ws : List Waiter) (e n : Entry) (es : List Entry) (w : Waiter)
    → get_elem? ws (last (e ∷ es)) ≡ some w
    → joined ws (e ∷ es) n
      ≡ set (set ws n.slot (waiter_of n no_slot)) (last (e ∷ es)) (record w { next = n.slot })
unfolding joined
joined_eq ws e n es w g = ground (arith, g)

pub last_at :
    (ws : List Waiter) (ps : List (Option Place)) (k : Place) (e : Entry) (es : List Entry)
    → Links ws ps k (e ∷ es)
    → (f : Entry) × (get_elem? ws (last (e ∷ es)) ≡ some (waiter_of f no_slot))
      × (get_elem? ps (last (e ∷ es)) ≡ some (some k))
last_at ws ps k e [] l = (e, l.0, l.1)
last_at ws ps k e (f ∷ es) l = last_at ws ps k f es l.3

length-joined_cons :
    (ws : List Waiter) (e n : Entry) (es : List Entry) (o : Option Waiter)
    → get_elem? ws (last (e ∷ es)) ≡ o
    → length (joined ws (e ∷ es) n) ≡ length ws
unfolding joined
length-joined_cons ws e n es none g = ground (arith, g)
length-joined_cons ws e n es (some w) g =
    rw (joined_eq ws e n es w g)
      (length-set (set ws n.slot (waiter_of n no_slot)) (last (e ∷ es)) _ ∙ length-set ws n.slot _)

pub length-joined :
    (ws : List Waiter) (es : List Entry) (n : Entry) → length (joined ws es n) ≡ length ws
unfolding joined
length-joined ws [] n = length-set ws n.slot (waiter_of n no_slot)
length-joined ws (e ∷ es) n = length-joined_cons ws e n es _ refl

module _ (ws : List Waiter) (ps : List (Option Place)) (k : Place) (n : Entry)
    (free : get_elem? ps n.slot ≡ some none) (lt : n.slot < length ws) where
  last-ne : (e : Entry) (es : List Entry) → Links ws ps k (e ∷ es) → last (e ∷ es) ≢ n.slot
  last-ne e es l q =
      let (f, w, parked) = last_at ws ps k e es l in cc (free, parked, ap (get_elem? ps) q)

  pub joined_self :
      (es : List Entry)
      → Links ws ps k es
      → get_elem? (joined ws es n) n.slot ≡ some (waiter_of n no_slot)
  unfolding joined
  joined_self [] l = get_elem?-set_self ws n.slot _ lt
  joined_self (e ∷ es) l =
      let (f, w, parked) = last_at ws ps k e es l in
      rw (joined_eq ws e n es _ w) (
        get_elem?-set_ne (set ws n.slot (waiter_of n no_slot)) (last (e ∷ es)) n.slot _
          (last-ne e es l)
        ∙ get_elem?-set_self ws n.slot _ lt)

  pub joined_ne :
      (es : List Entry) (x : ℕ)
      → Links ws ps k es
      → x ≢ n.slot
      → x ≢ last es
      → get_elem? (joined ws es n) x ≡ get_elem? ws x
  unfolding joined
  joined_ne [] x l ne other = get_elem?-set_ne ws n.slot x _ (λ q. ne (sym q))
  joined_ne (e ∷ es) x l ne other =
      let (f, w, parked) = last_at ws ps k e es l in
      rw (joined_eq ws e n es _ w) (
        get_elem?-set_ne (set ws n.slot (waiter_of n no_slot)) (last (e ∷ es)) x _
          (λ q. other (sym q))
        ∙ get_elem?-set_ne ws n.slot x _ (λ q. ne (sym q)))

  pub joined-last :
      (es : List Entry) (f : Entry)
      → Links ws ps k es
      → length ws ≤ no_slot
      → get_elem? ws (last es) ≡ some (waiter_of f no_slot)
      → get_elem? (joined ws es n) (last es) ≡ some (waiter_of f n.slot)
  unfolding joined
  joined-last [] f l few g = absurd (omega (arith, get_elem?-lt ws no_slot g))
  joined-last (e ∷ es) f l few g = rw (joined_eq ws e n es _ g) (
      get_elem?-set_self (set ws n.slot (waiter_of n no_slot)) (last (e ∷ es)) _ (
        omega
          (arith, length-set ws n.slot (waiter_of n no_slot), get_elem?-lt ws (last (e ∷ es)) g)))

  joined_cases :
      (es : List Entry) (x : ℕ) (w : Waiter)
      → Links ws ps k es
      → length ws ≤ no_slot
      → get_elem? (joined ws es n) x ≡ some w
      → x ≢ n.slot
      → (get_elem? ws x ≡ some w) ⊎ ((is_some w.task ≡ true) × (get_elem? ps x ≡ some (some k)))
  joined_cases [] x w l few g ne = inl (
      sym (
        joined_ne [] x l ne
          (λ q. (omega (arith, get_elem?-lt (joined ws [] n) x g, length-joined ws [] n))))
      ∙ g)
  joined_cases (e ∷ es) x w l few g ne = elim (ℕ_discrete x (last (e ∷ es))) [
    | yes q ↦
        let (f, at_last, parked) = last_at ws ps k e es l in
        inr (
          ground (
            arith,
            joined-last (e ∷ es) f l few at_last,
            ap (get_elem? (joined ws (e ∷ es) n)) q,
          ),
          ap (get_elem? ps) q ∙ parked,
        )
    | no other ↦ inl (sym (joined_ne (e ∷ es) x l ne other) ∙ g)
  ]

  pub joined-Parks :
      (es : List Entry)
      → Links ws ps k es
      → length ws ≤ no_slot
      → Parks ws ps
      → Parks (joined ws es n) (set ps n.slot (some k))
  joined-Parks es l few parks x w o gw go = elim (ℕ_discrete n.slot x) [
    | yes q ↦ ground (
      arith,
      joined_self es l,
      get_elem?-set_self ps n.slot (some k) (get_elem?-lt ps n.slot free),
      ap (get_elem? (joined ws es n)) q,
      ap (get_elem? (set ps n.slot (some k))) q,
    )
    | no other ↦
        let at_o : get_elem? ps x ≡ some o =
          sym (get_elem?-set_ne ps n.slot x (some k) other) ∙ go in
        elim (joined_cases es x w l few gw (λ q. other (sym q))) [
          | inl old ↦ parks x w o old at_o
          | inr (yes_task, parked) ↦ ground (arith, parked, at_o)
        ]
  ]

  other-ne_last :
      (es : List Entry) (x : ℕ) (k' : Place)
      → k' ≢ k
      → length ps ≤ no_slot
      → Links ws ps k es
      → get_elem? ps x ≡ some (some k')
      → x ≢ last es
  other-ne_last [] x k' ne few l g q = omega (arith, get_elem?-lt ps x g)
  other-ne_last (e ∷ es) x k' ne few l g q =
      let (f, w, parked) = last_at ws ps k e es l in ne (cc (g, parked, ap (get_elem? ps) q))

  pub joined-Same :
      (es : List Entry) (x : ℕ) (k' : Place)
      → k' ≢ k
      → length ps ≤ no_slot
      → Links ws ps k es
      → get_elem? ps x ≡ some (some k')
      → Same ws (joined ws es n) ps (set ps n.slot (some k)) x
  joined-Same es x k' ne few l g =
      let away : x ≢ n.slot = λ q. cc (g, free, ap (get_elem? ps) q) in
      (
        joined_ne es x l away (other-ne_last es x k' ne few l g),
        get_elem?-set_ne ps n.slot x (some k) (λ q. away (sym q)),
      )

  pub joined-Line :
      (es : List Entry)
      → length ws ≤ no_slot
      → Links ws ps k es
      → Line
          (joined ws es n)
          (set ps n.slot (some k))
          k
          (first (es ++ n ∷ []))
          n.slot
          (es ++ n ∷ [])
  joined-Line es few l = record {
    starts = refl;
    ends = sym (last-append es n);
    links =
        Links-append ws (joined ws es n) ps (set ps n.slot (some k)) k es n free (joined_self es l)
          (get_elem?-set_self ps n.slot (some k) (get_elem?-lt ps n.slot free))
          (λ x ne. get_elem?-set_ne ps n.slot x (some k) (λ q. ne (sym q)))
          (λ x ne other. joined_ne es x l ne other) (λ f g. joined-last es f l few g) l;
  }
