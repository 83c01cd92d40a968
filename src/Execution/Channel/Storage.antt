-- ===== src/Execution/Channel/Storage.antt =====
-- Values in and out of a channel's window.
use compukter_vm.Prelude.{
  ℕ, ◌+◌, ◌-◌, ◌%◌, ◌≤◌, ◌<◌, ◌≡◌, ◌∙◌, refl, sym, ap, Option, some, List, [], ◌∷◌, ◌++◌, length,
  get_elem?, get_or, set, ok, arith, get_or-eq, lt-get_elem?, length-set,
}
use compukter_vm.Prelude.Int.{ℤ, pos}
use compukter_vm.Prelude.Ring.{ring, ring-pop, ring-push_at, ring-set_outside, cell-lt, length-ring}
use compukter_vm.Execution.Channel.{Waiter, Channel, ChannelArena, M, take_value, append_value}
use compukter_vm.Execution.Channel.Post.{Mailbox, Place, Post, put_box}
use compukter_vm.Execution.Channel.Shows.{Shows, Spares, Shows-put}

-- The call returns `r`, and the arena then holds `p`.
abbrev pub Leaves : {A : Type 0} → M A → ChannelArena → A → Post → Type 0
Leaves m a r p = (b : ChannelArena) × (m a ≡ (ok r, b)) × Shows b p

Spares-values :
    (i : ℕ) (c : Channel) (values : List ℤ) (q : ℕ) (v : ℤ) (ws : List Waiter)
    (ps : List (Option Place))
    → c.values_start ≤ q
    → q < c.values_start + c.capacity
    → Spares i c values (set values q v) ws ws ps ps
Spares-values i c values q v ws ps lo hi = record {
  same_values = length-set values q v;
  same_waiters = refl;
  same_parked = refl;
  windows = λ d h l apart.
      ring-set_outside (pos 0) values d.values_start d.capacity d.head d.len q v h l
        (ground (arith, apart));
  queues = λ x k ne g. (refl, refl);
}

Spares-refl :
    (i : ℕ) (c : Channel) (values : List ℤ) (ws : List Waiter) (ps : List (Option Place))
    → Spares i c values values ws ws ps ps
Spares-refl i c values ws ps = record {
  same_values = refl;
  same_waiters = refl;
  same_parked = refl;
  windows = λ d h l apart. refl;
  queues = λ x k ne g. (refl, refl);
}

module _ {a : ChannelArena} {p : Post} (s : Shows a p) (i : ℕ) (c : Channel) (m : Mailbox)
    (at_c : get_elem? a.channels i ≡ some c) (at_m : get_elem? p.boxes i ≡ some m) where
  pub length-holds : c.len ≡ length m.values
  length-holds =
      sym (length-ring (pos 0) a.values c.values_start c.capacity c.head c.len)
      ∙ ap length ((s.boxes i c m at_c at_m).holds)

  -- The oldest value leaves.
  pub take_value-Leaves :
      (v : ℤ) (vs : List ℤ)
      → m.values ≡ v ∷ vs
      → Leaves (take_value i) a v (put_box i (record m { values = vs }) p)
  unfolding take_value
  take_value-Leaves v vs e =
      let b = s.boxes i c m at_c at_m in
      let some_len : 0 < c.len = omega (arith, length-holds, ap length e) in
      let popped : v ∷ vs
          ≡ get_or a.values (c.values_start + c.head) (pos 0)
            ∷ ring (pos 0) a.values c.values_start c.capacity ((c.head + 1) % c.capacity)
                (c.len - 1) =
        sym e
        ∙ sym b.holds
        ∙ ring-pop (pos 0) a.values c.values_start c.capacity c.head c.len b.head_ok some_len in
      let c' = record c { head = (c.head + 1) % c.capacity; len = c.len - 1 } in
      (
        record a { channels = set a.channels i c' },
        ground (
          arith,
          at_c,
          get_or-eq a.values (c.values_start + c.head) (pos 0),
          b.fits,
          b.head_ok,
          popped,
        ),
        Shows-put s at_c at_m c' (record m { values = vs }) a.values a.waiters p.parked refl refl
            (Spares-refl i c a.values a.waiters p.parked) s.parks
            (record {
              sized = b.sized;
              head_ok = cell-lt c.capacity c.head 1 (omega (arith, b.head_ok));
              len_ok = omega (arith, b.len_ok);
              fits = b.fits;
              holds = cc popped;
              senders = b.senders;
              receivers = b.receivers;
            }),
      )

  -- A value enters behind the others, where there is room.
  pub append_value-Leaves :
      (v : ℤ)
      → length m.values < m.capacity
      → Leaves (append_value i v) a tt (put_box i (record m { values = m.values ++ v ∷ [] }) p)
  unfolding append_value
  append_value-Leaves v room =
      let b = s.boxes i c m at_c at_m in
      let less : c.len < c.capacity = omega (arith, length-holds, b.sized) in
      let at_q : c.values_start + (c.head + c.len) % c.capacity < length a.values =
        omega (arith, b.fits, cell-lt c.capacity c.head c.len) in
      let c' = record c { len = c.len + 1 } in
      (
        record a {
          channels = set a.channels i c';
          values = set a.values (c.values_start + (c.head + c.len) % c.capacity) v;
        },
        ground (
          arith,
          at_c,
          lt-get_elem? a.values (c.values_start + (c.head + c.len) % c.capacity) at_q,
          b.head_ok,
        ),
        Shows-put s at_c at_m c' (record m { values = m.values ++ v ∷ [] })
            (set a.values (c.values_start + (c.head + c.len) % c.capacity) v) a.waiters p.parked
            refl refl
            (Spares-values i c a.values (c.values_start + (c.head + c.len) % c.capacity) v a.waiters
              p.parked (omega arith) (omega (arith, cell-lt c.capacity c.head c.len)))
            s.parks
            (record {
              sized = b.sized;
              head_ok = b.head_ok;
              len_ok = omega (arith, b.len_ok);
              fits = omega (
                arith,
                b.fits,
                length-set a.values (c.values_start + (c.head + c.len) % c.capacity) v,
              );
              holds =
                  ring-push_at (pos 0) a.values c.values_start c.capacity c.head c.len _ v refl
                    b.head_ok less b.fits
                  ∙ ap (λ xs. xs ++ v ∷ []) b.holds;
              senders = b.senders;
              receivers = b.receivers;
            }),
      )
