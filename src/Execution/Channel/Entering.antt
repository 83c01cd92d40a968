-- ===== src/Execution/Channel/Entering.antt =====
-- `install_waiter` and `push_waiter` of src/execution/channel.rs on an arena that shows mailboxes.
use compukter_vm.Prelude.{
  ℕ, ◌≡◌, ◌≢◌, ◌∙◌, inl, inr, ap, none, some, Bool, List, [], ◌∷◌, ◌++◌, get_elem?, set, ok, err,
  arith, lt-get_elem?, Option-cases, get_elem?-lt, get_elem?-set_ne,
}
use compukter_vm.Execution.Channel.{
  Channel, ChannelArena, no_slot, corrupt_queue, ends, with_ends, install_waiter, push_waiter,
}
use compukter_vm.Execution.Channel.Post.{Place, Post}
use compukter_vm.Execution.Channel.Line.{Entry, Line, waiter_of, first, last}
use compukter_vm.Execution.Channel.Shows.{Shows}
use compukter_vm.Execution.Channel.Joining.{joined, last_at}

module _ {a : ChannelArena} {p : Post} (s : Shows a p) (i : ℕ) (c : Channel)
    (at_c : get_elem? a.channels i ≡ some c) (send : Bool) (k : Place) (n : Entry) where
  pub install_waiter-ok :
      get_elem? p.parked n.slot ≡ some none
      → install_waiter n.slot n.task n.kind a
        ≡ (ok tt, record a { waiters = set a.waiters n.slot (waiter_of n no_slot) })
  unfolding install_waiter
  install_waiter-ok free =
      let (w, g) =
        lt-get_elem? a.waiters n.slot (omega (arith, s.tasks, get_elem?-lt p.parked n.slot free)) in
      ground (arith, g, s.parks n.slot w none g free)

  -- Who waits already, or has no slot, cannot wait.
  pub install_waiter-err :
      get_elem? p.parked n.slot ≢ some none
      → install_waiter n.slot n.task n.kind a ≡ (err corrupt_queue, a)
  unfolding install_waiter
  install_waiter-err taken = elim (Option-cases (get_elem? a.waiters n.slot)) [
    | inl gone ↦ ground (arith, gone)
    | inr (w, g) ↦
        let (o, go) =
          lt-get_elem? p.parked n.slot (omega (arith, s.tasks, get_elem?-lt a.waiters n.slot g)) in
        elim (Option-cases o) [
          | inl unused ↦ absurd (taken (go ∙ ap some unused))
          | inr (k, used) ↦ ground (arith, g, s.parks n.slot w o g go)
        ]
  ]

  pub push_waiter_lem :
      (es : List Entry)
      → get_elem? p.parked n.slot ≡ some none
      → Line a.waiters p.parked k ((ends send c).0) ((ends send c).1) es
      → push_waiter i n.slot send
          (record a { waiters = set a.waiters n.slot (waiter_of n no_slot) })
        ≡ (
          ok tt,
          record a {
            channels = set a.channels i (with_ends send (first (es ++ n ∷ [])) n.slot c);
            waiters = joined a.waiters es n;
          },
        )
  unfolding push_waiter joined
  push_waiter_lem [] free line = ground (arith, at_c, line.starts, line.ends)
  push_waiter_lem (e ∷ es) free line =
      let (f, at_last, parked) = last_at a.waiters p.parked k e es line.links in
      ground (
        arith,
        at_c,
        line.starts,
        line.ends,
        at_last,
        get_elem?-set_ne a.waiters n.slot (last (e ∷ es)) (waiter_of n no_slot)
            (λ q. cc (free, parked, ap (get_elem? p.parked) q)),
        get_elem?-lt a.waiters (last (e ∷ es)) at_last,
        s.few_waiters,
      )
