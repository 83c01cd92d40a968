-- ===== src/Execution/Channel/Post.antt =====
-- What the channels of src/execution/channel.rs are for: mailboxes of a bounded number of values,
-- with the tasks that wait to send or to receive in the order in which they came.
use compukter_vm.Prelude.{
  ℕ, ◌+◌, ◌-◌, Option, none, some, List, [], ◌∷◌, ◌++◌, length, get_elem?, set, replicate, Result,
  ok, err, ltb, ◌==◌, if◌then◌else◌,
}
use compukter_vm.Prelude.Int.{ℤ, pos, negsuc}
use compukter_vm.Execution.Task.{TaskId}
use compukter_vm.Execution.Channel.{
  ChannelError, SendResult, ReceiveResult, invalid_capacity, invalid_handle, no_capacity,
  corrupt_queue, complete, wake_receiver, received,
}

-- A task that waits, with the value that it sends or the register that it receives into.
pub record Waiting (A : Type 0) : Type 0 where
  pub slot : ℕ
  pub task : TaskId
  pub payload : A
  pub resume_block : ℕ

pub record Mailbox : Type 0 where
  pub capacity : ℕ
  pub values : List ℤ
  pub senders : List (Waiting ℤ)
  pub receivers : List (Waiting ℕ)

pub data Place : Type 0 where
  sends_to : ℕ → Place
  receives_from : ℕ → Place

-- `parked` tells of each task where it waits, if it does; `room` cells are not given away yet.
pub record Post : Type 0 where
  pub limit : ℕ
  pub room : ℕ
  pub parked : List (Option Place)
  pub boxes : List Mailbox

unfoldable pub open_post : ℕ → ℕ → ℕ → Post
open_post channels values tasks = record {
  limit = channels;
  room = values;
  parked = replicate (if channels == 0 then 0 else tasks) none;
  boxes = [];
}

abbrev pub put_box : ℕ → Mailbox → Post → Post
put_box i m p = record p { boxes = set p.boxes i m }

abbrev pub park : ℕ → Option Place → Post → Post
park slot place p = record p { parked = set p.parked slot place }

abbrev pub new_box : ℕ → Mailbox
new_box capacity = record { capacity = capacity; values = []; senders = []; receivers = [] }

unfoldable pub create : ℤ → Post → Result ChannelError ℤ × Post
create (negsuc n) p = (err invalid_capacity, p)
create (pos n) p =
    if n == 0
    then (err no_capacity, p)
    else if length p.boxes == p.limit
    then (err no_capacity, p)
    else if ltb p.room n
    then (err no_capacity, p)
    else (
      ok (pos (length p.boxes + 1)),
      record p { room = p.room - n; boxes = p.boxes ++ new_box n ∷ [] },
    )

-- A handle is the number of a mailbox, from 1 on.
unfoldable pub find : ℤ → Post → Option (ℕ × Mailbox)
find (negsuc n) p = none
find (pos n) p =
    if n == 0
    then none
    else elim (get_elem? p.boxes (n - 1)) [ none ↦ none | some m ↦ some (n - 1, m) ]

-- A task that waits already, or that does not exist, cannot wait.
abbrev pub wait_at :
    {A : Type 0} → ℕ → Place → A → Mailbox → ℕ → Post → Result ChannelError A × Post
wait_at slot place a m i p = elim (get_elem? p.parked slot) [
  | some none ↦ (ok a, put_box i m (park slot (some place) p))
  | _ ↦ (err corrupt_queue, p)
]

unfoldable pub send_box :
    ℕ → ℕ → TaskId → ℤ → ℕ → Mailbox → Post → Result ChannelError SendResult × Post
send_box i slot task value resume_block m p = elim (m.receivers) [
  | r ∷ rest ↦ (
    ok (wake_receiver r.task r.payload r.resume_block),
    put_box i (record m { receivers = rest }) (park r.slot none p),
  )
  | [] ↦
      if ltb (length m.values) m.capacity
      then (ok complete, put_box i (record m { values = m.values ++ value ∷ [] }) p)
      else wait_at slot (sends_to i) SendResult.suspend
          (record m {
            senders =
                m.senders
                ++ (record {
                  slot = slot;
                  task = task;
                  payload = value;
                  resume_block = resume_block;
                })
                  ∷ [];
          })
          i p
]

unfoldable pub receive_box :
    ℕ → ℕ → TaskId → ℕ → ℕ → Mailbox → Post → Result ChannelError ReceiveResult × Post
receive_box i slot task destination resume_block m p = elim (m.values) [
  | v ∷ values ↦ elim (m.senders) [
    | [] ↦ (ok (received v none), put_box i (record m { values = values }) p)
    | s ∷ rest ↦ (
      ok (received v (some (s.task, s.resume_block))),
      put_box i (record m { values = values ++ s.payload ∷ []; senders = rest })
          (park s.slot none p),
    )
  ]
  | [] ↦
      wait_at slot (receives_from i) ReceiveResult.suspend
        (record m {
          receivers =
              m.receivers
              ++ (record {
                slot = slot;
                task = task;
                payload = destination;
                resume_block = resume_block;
              })
                ∷ [];
        })
        i p
]

unfoldable pub send : ℤ → ℕ → TaskId → ℤ → ℕ → Post → Result ChannelError SendResult × Post
unfolding find send_box
send handle slot task value resume_block p = elim (find handle p) [
  | none ↦ (err invalid_handle, p)
  | some (i, m) ↦ send_box i slot task value resume_block m p
]

unfoldable pub receive : ℤ → ℕ → TaskId → ℕ → ℕ → Post → Result ChannelError ReceiveResult × Post
unfolding find receive_box
receive handle slot task destination resume_block p = elim (find handle p) [
  | none ↦ (err invalid_handle, p)
  | some (i, m) ↦ receive_box i slot task destination resume_block m p
]
