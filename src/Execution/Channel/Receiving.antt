-- ===== src/Execution/Channel/Receiving.antt =====
-- `receive` of src/execution/channel.rs does to the arena what it does to the mailboxes that the arena
-- shows, errors included.
use compukter_vm.Prelude.{
  zero, ℕ, suc, ◌<◌, ◌≡◌, ◌∙◌, ◌>>◌, pure, inl, inr, refl, ap, subst, none, some, false, List, [],
  ◌∷◌, ◌++◌, length, get_elem?, set, ok, err, arith, get_elem?-lt, get_elem?-set_self, Option-cases,
}
use compukter_vm.Prelude.Int.{ℤ}
use compukter_vm.Execution.Task.{TaskId}
use compukter_vm.Execution.Channel
use compukter_vm.Execution.Channel.{
  Woken, admit_sender, take_value, ChannelArena, ChannelError, Channel, SendResult, ReceiveResult,
  WaitKind, M, channel_index, invalid_handle, corrupt_queue, no_slot, complete, wake_receiver,
  received, sending, receiving, install_waiter, push_waiter, pop_waiter,
}
use compukter_vm.Execution.Channel.Post
use compukter_vm.Execution.Channel.Post.{
  Waiting, Mailbox, Post, Place, find, put_box, park, sends_to, receives_from, send_box,
  receive_box, wait_at,
}
use compukter_vm.Execution.Channel.Shows.{Shows}
use compukter_vm.Execution.Channel.Storage.{
  Leaves, length-holds, take_value-Leaves, append_value-Leaves,
}
use compukter_vm.Execution.Channel.Moves.{pop_sender-Leaves, wait_receiver-Leaves}
use compukter_vm.Execution.Channel.Replies.{
  Refines, channel_index-none, channel_index-some, channel_of, no_sender, some_sender,
  waits-Refines,
}

set-set {ℓ} : {A : Type ℓ} (xs : List A) (i : ℕ) (a b : A) → set (set xs i a) i b ≡ set xs i b
set-set [] i a b = refl
set-set (x ∷ xs) zero a b = refl
set-set (x ∷ xs) (suc i) a b = ap (λ t. x ∷ t) (set-set xs i a b)

module _ {a : ChannelArena} {p : Post} (s : Shows a p) (i : ℕ) (m : Mailbox)
    (at_m : get_elem? p.boxes i ≡ some m) where
  no_admission : m.senders ≡ [] → admit_sender i a ≡ (ok none, a)
  unfolding admit_sender
  no_admission e =
      let (c, at_c) = channel_of s i m at_m in ground (arith, at_c, no_sender s i c m at_c at_m e)

  -- The first sender leaves its queue, and its value enters behind the others.
  admission :
      (r : Waiting ℤ) (rest : List (Waiting ℤ))
      → m.senders ≡ r ∷ rest
      → length m.values < m.capacity
      → Leaves (admit_sender i) a (some (r.task, r.resume_block)) (
          put_box i
            (record m { values = m.values ++ r.payload ∷ []; senders = rest })
            (park r.slot none p))
  unfolding admit_sender
  admission r rest e room =
      let (c, at_c) = channel_of s i m at_m in
      let (b, popped, shows) = pop_sender-Leaves s i c m at_c at_m r rest e in
      let m1 = record m { senders = rest } in
      let at_m1 = get_elem?-set_self p.boxes i m1 (get_elem?-lt p.boxes i at_m) in
      let (c1, at_c1) = channel_of shows i m1 at_m1 in
      let (d, appended, shown) = append_value-Leaves shows i c1 m1 at_c1 at_m1 r.payload room in
      (
        d,
        ground (arith, at_c, some_sender s i c m at_c at_m r rest e, popped, appended),
        subst (λ bs. Shows d (record p { boxes = bs; parked = set p.parked r.slot none }))
            (set-set p.boxes i m1 _) shown,
      )

module _ {a : ChannelArena} {p : Post} (s : Shows a p) (i : ℕ) (c : Channel) (m : Mailbox)
    (at_c : get_elem? a.channels i ≡ some c) (at_m : get_elem? p.boxes i ≡ some m) (handle : ℤ)
    (found : channel_index handle a ≡ ok i) (slot : ℕ) (task : TaskId) (destination : ℕ)
    (block : ℕ) where
  -- There is no value: the receiver waits.
  receive_waits :
      m.values ≡ []
      → (Channel.receive handle slot task destination block a
          ≡ (install_waiter slot task (receiving destination block)
                >> (push_waiter i slot false >> pure ReceiveResult.suspend))
              a)
        × (receive_box i slot task destination block m p
            ≡ wait_at slot
                (receives_from i)
                ReceiveResult.suspend
                (record m {
                  receivers =
                      m.receivers
                      ++ (record {
                        slot = slot;
                        task = task;
                        payload = destination;
                        resume_block = block;
                      })
                        ∷ [];
                })
                i
                p)
  unfolding Channel.receive receive_box
  receive_waits e = ground (arith, found, at_c, e, length-holds s i c m at_c at_m ∙ ap length e)

  -- What is left of a call once the value is out.
  receive_takes :
      (v : ℤ) (vs : List ℤ) (b d : ChannelArena) (w : Woken)
      → m.values ≡ v ∷ vs
      → take_value i a ≡ (ok v, b)
      → admit_sender i b ≡ (ok w, d)
      → Channel.receive handle slot task destination block a ≡ (ok (received v w), d)
  unfolding Channel.receive
  receive_takes v vs b d w e takes admits =
      ground (arith, found, at_c, length-holds s i c m at_c at_m, ap length e, takes, admits)

  receive_some :
      (v : ℤ) (vs : List ℤ) (ss : List (Waiting ℤ))
      → m.values ≡ v ∷ vs
      → m.senders ≡ ss
      → Refines
          (Channel.receive handle slot task destination block a)
          (receive_box i slot task destination block m p)
  unfolding receive_box
  receive_some v vs ss e f =
      let (b, takes, shows) = take_value-Leaves s i c m at_c at_m v vs e in
      let m1 = record m { values = vs } in
      let at_m1 = get_elem?-set_self p.boxes i m1 (get_elem?-lt p.boxes i at_m) in
      go ss b takes shows at_m1 f
    where
      go :
          (ss : List (Waiting ℤ)) (b : ChannelArena)
          → take_value i a ≡ (ok v, b)
          → Shows b (put_box i (record m { values = vs }) p)
          → get_elem? (set p.boxes i (record m { values = vs })) i ≡ some (record m { values = vs })
          → m.senders ≡ ss
          → Refines
              (Channel.receive handle slot task destination block a)
              (receive_box i slot task destination block m p)
      go [] b takes shows at_m1 f =
          rw (receive_takes v vs b b none e takes (no_admission shows i _ at_m1 f))
            (ground (arith, e, f, shows))
      go (r ∷ rest) b takes shows at_m1 f =
          let (d, admits, shown) = admission shows i _ at_m1 r rest f (
            omega (
              arith,
              length-holds s i c m at_c at_m,
              ap length e,
              (s.boxes i c m at_c at_m).sized,
              (s.boxes i c m at_c at_m).len_ok,
            )) in
          rw (receive_takes v vs b d (some (r.task, r.resume_block)) e takes admits) (
            ground (
              arith,
              e,
              f,
              shown,
              set-set p.boxes i (record m { values = vs })
                  (record m { values = vs ++ r.payload ∷ []; senders = rest }),
            ))

  receive-Refines_box :
      (vs : List ℤ)
      → m.values ≡ vs
      → Refines
          (Channel.receive handle slot task destination block a)
          (receive_box i slot task destination block m p)
  receive-Refines_box (v ∷ vs) e = receive_some v vs m.senders e refl
  receive-Refines_box [] e =
      let (code, box) = receive_waits e in
      rw (code, box)
        (waits-Refines s i c at_c slot task (receiving destination block) false (receives_from i)
          ReceiveResult.suspend _
          (wait_receiver-Leaves s i c m at_c at_m
            (record { slot = slot; task = task; payload = destination; resume_block = block })))

pub receive_found :
    (handle : ℤ) (slot : ℕ) (task : TaskId) (destination : ℕ) (block i : ℕ) (m : Mailbox) (p : Post)
    → find handle p ≡ some (i, m)
    → Post.receive handle slot task destination block p
      ≡ receive_box i slot task destination block m p
unfolding Post.receive
receive_found handle slot task destination block i m p f = ground (arith, f)

pub receive_lost :
    (handle : ℤ) (slot : ℕ) (task : TaskId) (value : ℕ) (block : ℕ) (p : Post)
    → find handle p ≡ none
    → Post.receive handle slot task value block p ≡ (err invalid_handle, p)
unfolding Post.receive
receive_lost handle slot task value block p f = ground (arith, f)

-- For an arena that shows mailboxes, `receive` answers as they do, errors included, and the arena then
-- shows what they then are.
pub receive-Refines :
    {a : ChannelArena} {p : Post}
    → Shows a p
    → (handle : ℤ) (slot : ℕ) (task : TaskId) (destination : ℕ) (block : ℕ)
    → Refines
        (Channel.receive handle slot task destination block a)
        (Post.receive handle slot task destination block p)
unfolding Channel.receive Post.receive
receive-Refines {a} {p} s handle slot task destination block = elim (Option-cases (find handle p)) [
  | inl gone ↦ ground (arith, gone, channel_index-none s handle gone, s)
  | inr ((i, m), f) ↦
      let (found, at_m) = channel_index-some s handle i m f in
      let (c, at_c) = channel_of s i m at_m in
      rw (receive_found handle slot task destination block i m p f) (
        receive-Refines_box s i c m at_c at_m handle found slot task destination block m.values
          refl)
]
