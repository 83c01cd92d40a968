-- ===== src/Execution/Channel/Tests.antt =====
-- Channels on concrete calls: those of the tests in src/execution/channel.rs.
use compukter_vm.Prelude.{
  ◌≡◌, refl, none, some, true, List, [], ◌∷◌, ◌++◌, get_elem?, ok, err, arith,
}
use compukter_vm.Prelude.Int.{ℤ, pos}
use compukter_vm.Execution.Channel
use compukter_vm.Execution.Channel.Post
use compukter_vm.Execution.Channel.{
  ChannelArena, SendResult, ReceiveResult, new, empty_channel, empty_waiter, complete,
  wake_receiver, received, corrupt_queue, invalid_handle, no_capacity,
}
use compukter_vm.Execution.Channel.Post.{Mailbox, Waiting, open_post}
use compukter_vm.Execution.Channel.Histories.{
  Call, create, send, receive, created, sent, got, call, calls, ask, asks, new-calls,
}
use compukter_vm.Execution.Channel.Delivery.{transit}
use compukter_vm.Execution.Channel.Passage.{all_accepted, all_delivered, WokenIn}
use compukter_vm.Execution.Channel.Service.{calls-delivery, calls-wake}

-- One channel at most, two cells, three tasks.
abbrev arena : ChannelArena
arena = record {
  channels = empty_channel ∷ [];
  values = pos 0 ∷ pos 0 ∷ [];
  waiters = empty_waiter ∷ empty_waiter ∷ empty_waiter ∷ [];
  channel_count = 0;
  value_count = 0;
}

arena-new : new (true, true, true) 1 2 3 ≡ ok arena
unfolding new
arena-new = refl

abbrev sends : List Call
sends =
    create (pos 2)
    ∷ send (pos 1) 0 1 (pos 11) 7
    ∷ send (pos 1) 1 2 (pos 22) 8
    ∷ send (pos 1) 2 3 (pos 33) 9
    ∷ []

abbrev takes : List Call
takes = receive (pos 1) 0 1 0 10 ∷ receive (pos 1) 0 1 0 10 ∷ receive (pos 1) 0 1 0 10 ∷ []

-- Senders are woken in the order in which they came.
sends-takes :
    (calls (sends ++ takes) arena).0
    ≡ created (ok (pos 1))
      ∷ sent (ok complete)
      ∷ sent (ok complete)
      ∷ sent (ok SendResult.suspend)
      ∷ got (ok (received (pos 11) (some (3, 9))))
      ∷ got (ok (received (pos 22) none))
      ∷ got (ok (received (pos 33) none))
      ∷ []
unfolding calls call Channel.create Channel.send Channel.receive
sends-takes = refl

-- A receiver that waits is served by the next sender.
served :
    (calls (create (pos 1) ∷ receive (pos 1) 1 2 4 12 ∷ send (pos 1) 0 1 (pos 42) 13 ∷ []) arena).0
    ≡ created (ok (pos 1)) ∷ got (ok ReceiveResult.suspend) ∷ sent (ok (wake_receiver 2 4 12)) ∷ []
unfolding calls call Channel.create Channel.send Channel.receive
served = refl

refusals :
    (calls
      (create (pos 3)
        ∷ create (pos 1)
        ∷ create (pos 1)
        ∷ send (pos 2) 0 1 (pos 5) 7
        ∷ receive (pos 1) 1 2 0 7
        ∷ receive (pos 1) 1 2 0 7
        ∷ receive (pos 1) 3 4 0 7
        ∷ [])
      arena).0
    ≡ created (err no_capacity)
      ∷ created (ok (pos 1))
      ∷ created (err no_capacity)
      ∷ sent (err invalid_handle)
      ∷ got (ok ReceiveResult.suspend)
      ∷ got (err corrupt_queue)
      ∷ got (err corrupt_queue)
      ∷ []
unfolding calls call Channel.create Channel.send Channel.receive
refusals = refl

new-calls_example : (calls (sends ++ takes) arena).0 ≡ (asks (sends ++ takes) (open_post 1 2 3)).0
new-calls_example =
    new-calls 1 2 3 arena (sends ++ takes) (omega arith) (omega arith) (omega arith) arena-new

-- The last sender.
abbrev third : Waiting ℤ
third = record { slot = 2; task = 3; payload = pos 33; resume_block = 9 }

-- The channel after the sends.
abbrev crowded : Mailbox
crowded = record {
  capacity = 2;
  values = pos 11 ∷ pos 22 ∷ [];
  senders = third ∷ [];
  receivers = [];
}

made : get_elem? ((asks sends (open_post 1 2 3)).1.boxes) 0 ≡ some crowded
unfolding asks ask Post.create Post.send open_post
made = refl

calls-delivery_example :
    let (rs, _) = calls takes (calls sends arena).1 in
    let (_, q) = asks takes (asks sends (open_post 1 2 3)).1 in
    (m' : Mailbox) × (get_elem? q.boxes 0 ≡ some m')
    × (transit crowded ++ all_accepted 0 takes rs ≡ all_delivered 0 takes rs ++ transit m')
calls-delivery_example =
    calls-delivery 1 2 3 arena sends 0 crowded (omega arith) (omega arith) (omega arith) arena-new
      made takes

calls-wake_example : WokenIn third ((calls takes (calls sends arena).1).0)
calls-wake_example =
    calls-wake 1 2 3 arena sends 0 crowded (omega arith) (omega arith) (omega arith) arena-new made
      takes 0 third refl (omega arith)
