-- ===== src/Execution/Channel/Sending.antt =====
-- `send` of src/execution/channel.rs does to the arena what it does to the mailboxes that the arena
-- shows, errors included.
use compukter_vm.Prelude.{
  ℕ, ◌≡◌, ◌>>◌, pure, inl, inr, refl, none, some, true, false, List, [], ◌∷◌, ◌++◌, length,
  get_elem?, ok, err, arith, ltb, Option-cases, Bool-cases, ltb→lt,
}
use compukter_vm.Prelude.Int.{ℤ}
use compukter_vm.Execution.Task.{TaskId}
use compukter_vm.Execution.Channel
use compukter_vm.Execution.Channel.{
  ChannelArena, ChannelError, Channel, SendResult, ReceiveResult, WaitKind, M, channel_index,
  invalid_handle, corrupt_queue, no_slot, complete, wake_receiver, received, sending, receiving,
  install_waiter, push_waiter, pop_waiter,
}
use compukter_vm.Execution.Channel.Post
use compukter_vm.Execution.Channel.Post.{
  Waiting, Mailbox, Post, Place, find, put_box, park, sends_to, receives_from, send_box,
  receive_box, wait_at,
}
use compukter_vm.Execution.Channel.Shows.{Shows}
use compukter_vm.Execution.Channel.Storage.{length-holds, append_value-Leaves}
use compukter_vm.Execution.Channel.Moves.{pop_receiver-Leaves, wait_sender-Leaves}
use compukter_vm.Execution.Channel.Replies.{
  Refines, channel_index-none, channel_index-some, channel_of, no_receiver, some_receiver,
  waits-Refines,
}

module _ {a : ChannelArena} {p : Post} (s : Shows a p) (i : ℕ) (c : Channel) (m : Mailbox)
    (at_c : get_elem? a.channels i ≡ some c) (at_m : get_elem? p.boxes i ≡ some m) where
  module _ (handle : ℤ) (found : channel_index handle a ≡ ok i) (slot : ℕ) (task : TaskId)
      (value : ℤ) (block : ℕ) where
    -- Nobody receives and the window is full: the sender waits.
    send_waits :
        m.receivers ≡ []
        → ltb (length m.values) m.capacity ≡ false
        → (Channel.send handle slot task value block a
            ≡ (install_waiter slot task (sending value block)
                  >> (push_waiter i slot true >> pure SendResult.suspend))
                a)
          × (send_box i slot task value block m p
              ≡ wait_at slot
                  (sends_to i)
                  SendResult.suspend
                  (record m {
                    senders =
                        m.senders
                        ++ (record {
                          slot = slot;
                          task = task;
                          payload = value;
                          resume_block = block;
                        })
                          ∷ [];
                  })
                  i
                  p)
    unfolding Channel.send send_box
    send_waits e full = ground (
      arith,
      found,
      at_c,
      e,
      no_receiver s i c m at_c at_m e,
      full,
      length-holds s i c m at_c at_m,
      (s.boxes i c m at_c at_m).sized,
    )

    send-Refines_box :
        (rs : List (Waiting ℕ))
        → m.receivers ≡ rs
        → Refines
            (Channel.send handle slot task value block a)
            (send_box i slot task value block m p)
    unfolding Channel.send send_box
    send-Refines_box (r ∷ rest) e =
        let (b, popped, shows) = pop_receiver-Leaves s i c m at_c at_m r rest e in
        ground (arith, found, at_c, e, some_receiver s i c m at_c at_m r rest e, popped, shows)
    send-Refines_box [] e = elim (Bool-cases (ltb (length m.values) m.capacity)) [
      | inl room ↦
          let (b, appended, shows) =
            append_value-Leaves s i c m at_c at_m value (ltb→lt _ _ room) in
          ground (
            arith,
            found,
            at_c,
            e,
            no_receiver s i c m at_c at_m e,
            room,
            length-holds s i c m at_c at_m,
            (s.boxes i c m at_c at_m).sized,
            appended,
            shows,
          )
      | inr full ↦
          let (code, box) = send_waits e full in
          rw (code, box)
            (waits-Refines s i c at_c slot task (sending value block) true (sends_to i)
              SendResult.suspend _
              (wait_sender-Leaves s i c m at_c at_m
                (record { slot = slot; task = task; payload = value; resume_block = block })))
    ]

pub send_found :
    (handle : ℤ) (slot : ℕ) (task : TaskId) (value : ℤ) (block i : ℕ) (m : Mailbox) (p : Post)
    → find handle p ≡ some (i, m)
    → Post.send handle slot task value block p ≡ send_box i slot task value block m p
unfolding Post.send
send_found handle slot task value block i m p f = ground (arith, f)

pub send_lost :
    (handle : ℤ) (slot : ℕ) (task : TaskId) (value : ℤ) (block : ℕ) (p : Post)
    → find handle p ≡ none
    → Post.send handle slot task value block p ≡ (err invalid_handle, p)
unfolding Post.send
send_lost handle slot task value block p f = ground (arith, f)

-- For an arena that shows mailboxes, `send` answers as they do, errors included, and the arena then
-- shows what they then are.
pub send-Refines :
    {a : ChannelArena} {p : Post}
    → Shows a p
    → (handle : ℤ) (slot : ℕ) (task : TaskId) (value : ℤ) (block : ℕ)
    → Refines
        (Channel.send handle slot task value block a)
        (Post.send handle slot task value block p)
unfolding Channel.send Post.send
send-Refines {a} {p} s handle slot task value block = elim (Option-cases (find handle p)) [
  | inl gone ↦ ground (arith, gone, channel_index-none s handle gone, s)
  | inr ((i, m), f) ↦
      let (found, at_m) = channel_index-some s handle i m f in
      let (c, at_c) = channel_of s i m at_m in
      rw (send_found handle slot task value block i m p f)
        (send-Refines_box s i c m at_c at_m handle found slot task value block m.receivers refl)
]
