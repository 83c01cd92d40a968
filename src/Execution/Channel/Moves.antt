-- ===== src/Execution/Channel/Moves.antt =====
-- What a task that leaves or joins a queue does to the mailboxes.
use mathlib.Core.List.{map-append}
use compukter_vm.Prelude.{
  ℕ, ◌≤◌, ◌<◌, ◌≡◌, ◌≢◌, ◌∙◌, refl, ap, subst, Option, none, some, true, false, List, [], ◌∷◌, ◌++◌,
  length, get_elem?, set, map, ◌>>◌, arith, get_elem?-lt, length-set, continue,
}
use compukter_vm.Prelude.Int.{ℤ}
use compukter_vm.Execution.Channel.{
  Waiter, sending, receiving, Channel, ChannelArena, no_slot, empty_waiter, ends, with_ends,
  install_waiter, push_waiter, pop_waiter,
}
use compukter_vm.Execution.Channel.Post.{
  Waiting, Mailbox, Place, Post, sends_to, receives_from, put_box, park,
}
use compukter_vm.Execution.Channel.Line.{Line, Same, first, last, waiter_of}
use compukter_vm.Execution.Channel.Shows.{
  Shows, Spares, Shows-put, Line-frame, sender, receiver, owner,
}
use compukter_vm.Execution.Channel.Storage.{Leaves}
use compukter_vm.Execution.Channel.Queues.{pop_waiter_lem, pop-Line, pop-Parks, pop-Same}
use compukter_vm.Execution.Channel.Entering.{install_waiter-ok, push_waiter_lem}
use compukter_vm.Execution.Channel.Joining.{
  joined, length-joined, joined-Parks, joined-Same, joined-Line,
}

Spares-queues :
    {i : ℕ} {c : Channel} {values : List ℤ} {ws ws' : List Waiter} {ps ps' : List (Option Place)}
    (k : Place)
    → owner k ≡ i
    → length ws' ≡ length ws
    → length ps' ≡ length ps
    → ((x : ℕ) (k' : Place) → k' ≢ k → get_elem? ps x ≡ some (some k') → Same ws ws' ps ps' x)
    → Spares i c values values ws ws' ps ps'
Spares-queues k own lw lp same = record {
  same_values = refl;
  same_waiters = lw;
  same_parked = lp;
  windows = λ d h l apart. refl;
  queues = λ x k' ne g. same x k' (λ q. ne (ap owner q ∙ own)) g;
}

module _ {a : ChannelArena} {p : Post} (s : Shows a p) (i : ℕ) (c : Channel) (m : Mailbox)
    (at_c : get_elem? a.channels i ≡ some c) (at_m : get_elem? p.boxes i ≡ some m) where
  pub pop_sender-Leaves :
      (r : Waiting ℤ) (rest : List (Waiting ℤ))
      → m.senders ≡ r ∷ rest
      → Leaves
          (pop_waiter i true)
          a
          (waiter_of (sender r) (first (map sender rest)))
          (put_box i (record m { senders = rest }) (park r.slot none p))
  unfolding with_ends ends
  pop_sender-Leaves r rest e =
      let b = s.boxes i c m at_c at_m in
      let line : Line a.waiters p.parked (sends_to i) c.send_head c.send_tail
          (map sender (r ∷ rest)) =
        subst (λ t. Line a.waiters p.parked (sends_to i) c.send_head c.send_tail (map sender t)) e
          b.senders in
      (
        _,
        pop_waiter_lem s i c at_c true (sends_to i) (sender r) (map sender rest) line,
        Shows-put s at_c at_m (with_ends true (first (map sender rest)) (last (map sender rest)) c)
            (record m { senders = rest }) a.values (set a.waiters r.slot empty_waiter)
            (set p.parked r.slot none) refl refl
            (Spares-queues (sends_to i) refl (length-set a.waiters r.slot _)
              (length-set p.parked r.slot _)
              (pop-Same s i c at_c true (sends_to i) (sender r) (map sender rest) line))
            (pop-Parks s i c at_c true (sends_to i) (sender r) (map sender rest) line)
            (record {
              sized = b.sized;
              head_ok = b.head_ok;
              len_ok = b.len_ok;
              fits = b.fits;
              holds = b.holds;
              senders = pop-Line s i c at_c true (sends_to i) (sender r) (map sender rest) line;
              receivers =
                  Line-frame (receives_from i)
                    (λ x.
                      pop-Same s i c at_c true (sends_to i) (sender r) (map sender rest) line x
                        (receives_from i) (λ q. cc))
                    b.receivers;
            }),
      )

  pub pop_receiver-Leaves :
      (r : Waiting ℕ) (rest : List (Waiting ℕ))
      → m.receivers ≡ r ∷ rest
      → Leaves
          (pop_waiter i false)
          a
          (waiter_of (receiver r) (first (map receiver rest)))
          (put_box i (record m { receivers = rest }) (park r.slot none p))
  unfolding with_ends ends
  pop_receiver-Leaves r rest e =
      let b = s.boxes i c m at_c at_m in
      let line : Line a.waiters p.parked (receives_from i) c.receive_head c.receive_tail
          (map receiver (r ∷ rest)) =
        subst
          (λ t.
            Line a.waiters p.parked (receives_from i) c.receive_head c.receive_tail
              (map receiver t))
          e b.receivers in
      (
        _,
        pop_waiter_lem s i c at_c false (receives_from i) (receiver r) (map receiver rest) line,
        Shows-put s at_c at_m
            (with_ends false (first (map receiver rest)) (last (map receiver rest)) c)
            (record m { receivers = rest }) a.values (set a.waiters r.slot empty_waiter)
            (set p.parked r.slot none) refl refl
            (Spares-queues (receives_from i) refl (length-set a.waiters r.slot _)
              (length-set p.parked r.slot _)
              (pop-Same s i c at_c false (receives_from i) (receiver r) (map receiver rest) line))
            (pop-Parks s i c at_c false (receives_from i) (receiver r) (map receiver rest) line)
            (record {
              sized = b.sized;
              head_ok = b.head_ok;
              len_ok = b.len_ok;
              fits = b.fits;
              holds = b.holds;
              senders =
                  Line-frame (sends_to i)
                    (λ x.
                      pop-Same s i c at_c false (receives_from i) (receiver r) (map receiver rest)
                        line x (sends_to i) (λ q. cc))
                    b.senders;
              receivers =
                  pop-Line s i c at_c false (receives_from i) (receiver r) (map receiver rest) line;
            }),
      )

  pub wait_sender-Leaves :
      (r : Waiting ℤ)
      → get_elem? p.parked r.slot ≡ some none
      → Leaves
          (install_waiter r.slot r.task (sending r.payload r.resume_block)
            >> push_waiter i r.slot true)
          a
          tt
          (put_box i
            (record m { senders = m.senders ++ r ∷ [] })
            (park r.slot (some (sends_to i)) p))
  unfolding with_ends ends
  wait_sender-Leaves r free =
      let b = s.boxes i c m at_c at_m in
      let es = map sender m.senders in
      let n = sender r in
      let lt : r.slot < length a.waiters =
        omega (arith, s.tasks, get_elem?-lt p.parked r.slot free) in
      let few : length p.parked ≤ no_slot = omega (arith, s.tasks, s.few_waiters) in
      let same : (x : ℕ) (k' : Place)
          → k' ≢ sends_to i
          → get_elem? p.parked x ≡ some (some k')
          → Same a.waiters (joined a.waiters es n) p.parked
              (set p.parked r.slot (some (sends_to i))) x =
        λ x k' ne g.
          joined-Same a.waiters p.parked (sends_to i) n free lt es x k' ne few b.senders.links g in
      let line : Line (joined a.waiters es n) (set p.parked r.slot (some (sends_to i))) (sends_to i)
          (first (es ++ n ∷ [])) r.slot (map sender (m.senders ++ r ∷ [])) =
        rw map-append (
          joined-Line a.waiters p.parked (sends_to i) n free lt es s.few_waiters b.senders.links) in
      (
        _,
        ap (λ o. continue (o.0) (λ _. push_waiter i r.slot true) (o.1))
              (install_waiter-ok s i c at_c true (sends_to i) n free)
            ∙ push_waiter_lem s i c at_c true (sends_to i) n es free b.senders,
        Shows-put s at_c at_m (with_ends true (first (es ++ n ∷ [])) r.slot c)
            (record m { senders = m.senders ++ r ∷ [] }) a.values (joined a.waiters es n)
            (set p.parked r.slot (some (sends_to i))) refl refl
            (Spares-queues (sends_to i) refl (length-joined a.waiters es n)
              (length-set p.parked r.slot _) same)
            (joined-Parks a.waiters p.parked (sends_to i) n free lt es b.senders.links s.few_waiters
              s.parks)
            (record {
              sized = b.sized;
              head_ok = b.head_ok;
              len_ok = b.len_ok;
              fits = b.fits;
              holds = b.holds;
              senders = line;
              receivers =
                  Line-frame (receives_from i) (λ x. same x (receives_from i) (λ q. cc))
                    b.receivers;
            }),
      )

  pub wait_receiver-Leaves :
      (r : Waiting ℕ)
      → get_elem? p.parked r.slot ≡ some none
      → Leaves
          (install_waiter r.slot r.task (receiving r.payload r.resume_block)
            >> push_waiter i r.slot false)
          a
          tt
          (put_box i
            (record m { receivers = m.receivers ++ r ∷ [] })
            (park r.slot (some (receives_from i)) p))
  unfolding with_ends ends
  wait_receiver-Leaves r free =
      let b = s.boxes i c m at_c at_m in
      let es = map receiver m.receivers in
      let n = receiver r in
      let lt : r.slot < length a.waiters =
        omega (arith, s.tasks, get_elem?-lt p.parked r.slot free) in
      let few : length p.parked ≤ no_slot = omega (arith, s.tasks, s.few_waiters) in
      let same : (x : ℕ) (k' : Place)
          → k' ≢ receives_from i
          → get_elem? p.parked x ≡ some (some k')
          → Same a.waiters (joined a.waiters es n) p.parked
              (set p.parked r.slot (some (receives_from i))) x =
        λ x k' ne g.
          joined-Same a.waiters p.parked (receives_from i) n free lt es x k' ne few
            b.receivers.links g in
      let line : Line (joined a.waiters es n) (set p.parked r.slot (some (receives_from i)))
          (receives_from i) (first (es ++ n ∷ [])) r.slot (map receiver (m.receivers ++ r ∷ [])) =
        rw map-append (
          joined-Line a.waiters p.parked (receives_from i) n free lt es s.few_waiters
            b.receivers.links) in
      (
        _,
        ap (λ o. continue (o.0) (λ _. push_waiter i r.slot false) (o.1))
              (install_waiter-ok s i c at_c false (receives_from i) n free)
            ∙ push_waiter_lem s i c at_c false (receives_from i) n es free b.receivers,
        Shows-put s at_c at_m (with_ends false (first (es ++ n ∷ [])) r.slot c)
            (record m { receivers = m.receivers ++ r ∷ [] }) a.values (joined a.waiters es n)
            (set p.parked r.slot (some (receives_from i))) refl refl
            (Spares-queues (receives_from i) refl (length-joined a.waiters es n)
              (length-set p.parked r.slot _) same)
            (joined-Parks a.waiters p.parked (receives_from i) n free lt es b.receivers.links
              s.few_waiters s.parks)
            (record {
              sized = b.sized;
              head_ok = b.head_ok;
              len_ok = b.len_ok;
              fits = b.fits;
              holds = b.holds;
              receivers = line;
              senders = Line-frame (sends_to i) (λ x. same x (sends_to i) (λ q. cc)) b.senders;
            }),
      )
