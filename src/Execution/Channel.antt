-- ===== src/Execution/Channel.antt =====
-- src/execution/channel.rs: bounded channels between the tasks of a program. All channels share one
-- array of values, cut into windows, and one array with a waiter for each task, linked into a queue
-- of senders and a queue of receivers for each channel. A `TaskId` is a number; an `i32` is a ℤ.
-- The sizes of the three types in memory depend on the target and are parameters.
pub mod Post
pub mod Line
pub mod Shows
pub mod Queues
pub mod Joining
pub mod Entering
pub mod Moves
pub mod Storage
pub mod Creating
pub mod Replies
pub mod Sending
pub mod Receiving
pub mod Histories
pub mod Delivery
pub mod Turns
pub mod Passage
pub mod Service
mod Tests
use compukter_vm.Prelude.{
  ℕ, ◌+◌, ◌-◌, ◌*◌, ◌%◌, Option, none, some, Bool, true, false, List, length, get_elem?, set,
  replicate, Result, ok, err, panic, ok_or, expect, Method, ◌>>=◌, ◌>>◌, pure, raise, lift, gets,
  modify, guard, ltb, leb, ◌==◌, if◌then◌else◌, not,
}
use compukter_vm.Prelude.Int.{ℤ, pos, negsuc}
use compukter_vm.Prelude.Word.{checked_add}
use compukter_vm.Execution.Task.{TaskId, i32_max}

-- `NONE`, which is `usize::MAX`
abbrev pub no_slot : ℕ
no_slot = 18446744073709551615

pub data ChannelError : Type 0 where
  invalid_capacity invalid_handle no_capacity corrupt_queue : ChannelError

pub data SendResult : Type 0 where
  complete : SendResult
  wake_receiver : (task : TaskId) (destination resume_block : ℕ) → SendResult
  suspend : SendResult

-- A sender that can go on, and the block at which it does.
abbrev pub Woken : Type 0
Woken = Option (TaskId × ℕ)

pub data ReceiveResult : Type 0 where
  received : (value : ℤ) (wake_sender : Woken) → ReceiveResult
  suspend : ReceiveResult

pub data WaitKind : Type 0 where
  idle : WaitKind
  sending : (value : ℤ) (resume_block : ℕ) → WaitKind
  receiving : (destination resume_block : ℕ) → WaitKind

pub record Waiter : Type 0 where
  pub task : Option TaskId
  pub next : ℕ
  pub kind : WaitKind

abbrev pub empty_waiter : Waiter
empty_waiter = record { task = none; next = no_slot; kind = idle }

pub record Channel : Type 0 where
  pub values_start : ℕ
  pub capacity : ℕ
  pub head : ℕ
  pub len : ℕ
  pub send_head : ℕ
  pub send_tail : ℕ
  pub receive_head : ℕ
  pub receive_tail : ℕ

abbrev pub empty_channel : Channel
empty_channel = record {
  values_start = 0;
  capacity = 0;
  head = 0;
  len = 0;
  send_head = no_slot;
  send_tail = no_slot;
  receive_head = no_slot;
  receive_tail = no_slot;
}

pub record ChannelArena : Type 0 where
  pub channels : List Channel
  pub values : List ℤ
  pub waiters : List Waiter
  pub channel_count : ℕ
  pub value_count : ℕ

abbrev pub M : Type 0 → Type 0
M = Method ChannelArena ChannelError

-- `granted` says of each of the three allocations whether the allocator serves it.
unfoldable pub new : (granted : Bool × Bool × Bool) → ℕ → ℕ → ℕ → Result ChannelError ChannelArena
new (channels, values, waiters) channel_capacity value_capacity task_capacity =
    if not channels
    then err no_capacity
    else if not values
    then err no_capacity
    else if not waiters
    then err no_capacity
    else ok (record {
      channels = replicate channel_capacity empty_channel;
      values = replicate value_capacity (pos 0);
      waiters = replicate (if channel_capacity == 0 then 0 else task_capacity) empty_waiter;
      channel_count = 0;
      value_count = 0;
    })

-- `usize::try_from(value)`
abbrev pub to_usize : ℤ → Option ℕ
to_usize (pos n) = some n
to_usize (negsuc n) = none

-- `self.channels[index]`
unfoldable pub channel_at : ℕ → M Channel
channel_at index s = (expect (get_elem? s.channels index), s)

-- `self.channels[index] = channel`, after it was read
abbrev pub put_channel : ℕ → Channel → M (Unit {0})
put_channel index c = modify (λ s. record s { channels = set s.channels index c })

-- The end of a window of `capacity` cells behind those in use.
unfoldable pub window_end : ℕ → ChannelArena → Option ℕ
window_end capacity s = elim (checked_add s.value_count capacity) [
  | none ↦ none
  | some end ↦ if leb end (length s.values) then some end else none
]

unfoldable pub create : ℤ → M ℤ
unfolding channel_at window_end
create capacity = do
  capacity ← lift (ok_or (to_usize capacity) invalid_capacity)
  count ← gets (λ s. s.channel_count)
  limit ← gets (λ s. length s.channels)
  guard (not (capacity == 0)) no_capacity
  guard (not (count == limit)) no_capacity
  end ← λ s. (ok_or (window_end capacity s) no_capacity, s)
  start ← gets (λ s. s.value_count)
  channel_at count
  put_channel count (record empty_channel { values_start = start; capacity = capacity })
  modify (λ s. record s { channel_count = count + 1; value_count = end })
  guard (leb (count + 1) i32_max) no_capacity
  pure (pos (count + 1))

unfoldable pub channel_index : ℤ → ChannelArena → Result ChannelError ℕ
channel_index (negsuc n) s = err invalid_handle
channel_index (pos n) s =
    if ltb n 1
    then err invalid_handle
    else if ltb (n - 1) s.channel_count
    then ok (n - 1)
    else err invalid_handle

unfoldable pub waiter_at : ℕ → M Waiter
waiter_at slot s = (ok_or (get_elem? s.waiters slot) corrupt_queue, s)

abbrev pub put_waiter : ℕ → Waiter → M (Unit {0})
put_waiter slot w = modify (λ s. record s { waiters = set s.waiters slot w })

abbrev pub is_some {ℓ} : {A : Type ℓ} → Option A → Bool
is_some none = false
is_some (some a) = true

unfoldable pub install_waiter : ℕ → TaskId → WaitKind → M (Unit {0})
unfolding waiter_at
install_waiter slot task kind = do
  waiter ← waiter_at slot
  guard (not (is_some waiter.task)) corrupt_queue
  put_waiter slot (record { task = some task; next = no_slot; kind = kind })

-- The head and the tail that `send` selects.
unfoldable pub ends : Bool → Channel → ℕ × ℕ
ends send c = if send then (c.send_head, c.send_tail) else (c.receive_head, c.receive_tail)

unfoldable pub with_ends : Bool → ℕ → ℕ → Channel → Channel
with_ends true head tail c = record c { send_head = head; send_tail = tail }
with_ends false head tail c = record c { receive_head = head; receive_tail = tail }

-- The first waiter of an empty queue becomes its head; otherwise the last one points to it.
unfoldable pub link : ℕ → ℕ → M (Unit {0})
unfolding waiter_at
link tail slot s =
    if tail == no_slot
    then (ok tt, s)
    else (waiter_at tail >>= λ waiter. put_waiter tail (record waiter { next = slot })) s

unfoldable pub push_waiter : ℕ → ℕ → Bool → M (Unit {0})
unfolding channel_at ends with_ends link
push_waiter index slot send = do
  channel ← channel_at index
  link ((ends send channel).1) slot
  put_channel index (
      with_ends send (if (ends send channel).1 == no_slot then slot else (ends send channel).0) slot
        channel)

unfoldable pub pop_waiter : ℕ → Bool → M Waiter
unfolding channel_at ends with_ends waiter_at
pop_waiter index send = do
  channel ← channel_at index
  waiter ← waiter_at ((ends send channel).0)
  put_channel index (
      with_ends send waiter.next (if waiter.next == no_slot then no_slot else (ends send channel).1)
        channel)
  put_waiter ((ends send channel).0) empty_waiter
  pure waiter

-- `(channel.head + offset) % channel.capacity`, which panics where the capacity is 0
unfoldable pub cell_at : Channel → ℕ → M ℕ
cell_at channel offset =
    lift (if channel.capacity == 0 then panic else ok ((channel.head + offset) % channel.capacity))

-- `self.values[channel.values_start + tail] = value; channel.len += 1`
unfoldable pub append_value : ℕ → ℤ → M (Unit {0})
unfolding channel_at cell_at
append_value index value = do
  channel ← channel_at index
  tail ← cell_at channel channel.len
  values ← gets (λ s. s.values)
  lift (expect (get_elem? values (channel.values_start + tail)))
  modify (λ s. record s { values = set s.values (channel.values_start + tail) value })
  put_channel index (record channel { len = channel.len + 1 })

unfoldable pub wake_receiver_of : Waiter → M SendResult
wake_receiver_of waiter = elim (waiter.kind) [
  | receiving destination resume_block ↦ do
    task ← lift (ok_or waiter.task corrupt_queue)
    pure (wake_receiver task destination resume_block)
  | _ ↦ raise corrupt_queue
]

unfoldable pub send : ℤ → ℕ → TaskId → ℤ → ℕ → M SendResult
unfolding channel_index channel_at pop_waiter wake_receiver_of append_value install_waiter
    push_waiter
send handle task_slot task value resume_block = do
  index ← λ s. (channel_index handle s, s)
  channel ← channel_at index
  if not (channel.receive_head == no_slot)
      then pop_waiter index false >>= wake_receiver_of
      else if ltb channel.len channel.capacity
      then append_value index value >> pure complete
      else (do
        install_waiter task_slot task (sending value resume_block)
        push_waiter index task_slot true
        pure suspend)

-- `self.values[channel.values_start + channel.head]`, and the next cell becomes the head
unfoldable pub take_value : ℕ → M ℤ
unfolding channel_at cell_at
take_value index = do
  channel ← channel_at index
  values ← gets (λ s. s.values)
  value ← lift (expect (get_elem? values (channel.values_start + channel.head)))
  head ← cell_at channel 1
  put_channel index (record channel { head = head; len = channel.len - 1 })
  pure value

-- The value of the sender that waited longest moves into the room that was made.
unfoldable pub admit : ℕ → Waiter → M Woken
unfolding append_value
admit index waiter = elim (waiter.kind) [
  | sending value resume_block ↦ do
    append_value index value
    task ← lift (ok_or waiter.task corrupt_queue)
    pure (some (task, resume_block))
  | _ ↦ raise corrupt_queue
]

unfoldable pub admit_sender : ℕ → M Woken
unfolding channel_at pop_waiter admit
admit_sender index = do
  channel ← channel_at index
  if channel.send_head == no_slot then pure none else pop_waiter index true >>= admit index

unfoldable pub receive : ℤ → ℕ → TaskId → ℕ → ℕ → M ReceiveResult
unfolding channel_index channel_at take_value admit_sender install_waiter push_waiter
receive handle task_slot task destination resume_block = do
  index ← λ s. (channel_index handle s, s)
  channel ← channel_at index
  if not (channel.len == 0)
      then (do
        value ← take_value index
        wake_sender ← admit_sender index
        pure (received value wake_sender))
      else (do
        install_waiter task_slot task (receiving destination resume_block)
        push_waiter index task_slot false
        pure ReceiveResult.suspend)
