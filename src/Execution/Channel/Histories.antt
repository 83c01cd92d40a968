-- ===== src/Execution/Channel/Histories.antt =====
-- Histories of calls of src/execution/channel.rs: the arena against the mailboxes.
use compukter_vm.Prelude.{ℕ, ◌≤◌, ◌≡◌, refl, ap, ap₂, true, List, [], ◌∷◌, Result, ok}
use compukter_vm.Prelude.Int.{ℤ}
use compukter_vm.Execution.Task.{TaskId, i32_max}
use compukter_vm.Execution.Channel
use compukter_vm.Execution.Channel.{
  ChannelArena, ChannelError, SendResult, ReceiveResult, new, no_slot,
}
use compukter_vm.Execution.Channel.Post
use compukter_vm.Execution.Channel.Post.{Post, open_post}
use compukter_vm.Execution.Channel.Shows.{Shows}
use compukter_vm.Execution.Channel.Creating.{new-Shows, create-Refines}
use compukter_vm.Execution.Channel.Sending.{send-Refines}
use compukter_vm.Execution.Channel.Receiving.{receive-Refines}

pub data Call : Type 0 where
  create : (capacity : ℤ) → Call
  send : (handle : ℤ) (slot : ℕ) (task : TaskId) (value : ℤ) (resume_block : ℕ) → Call
  receive : (handle : ℤ) (slot : ℕ) (task : TaskId) (destination resume_block : ℕ) → Call

pub data Reply : Type 0 where
  created : Result ChannelError ℤ → Reply
  sent : Result ChannelError SendResult → Reply
  got : Result ChannelError ReceiveResult → Reply

module _ {A B S : Type 0} where
  abbrev pub first_as : (A → B) → A × S → B × S
  first_as f (x, s) = (f x, s)

-- One call on the arena.
unfoldable pub call : Call → ChannelArena → Reply × ChannelArena
call (create capacity) a = first_as created (Channel.create capacity a)
call (send handle slot task value block) a =
    first_as sent (Channel.send handle slot task value block a)
call (receive handle slot task destination block) a =
    first_as got (Channel.receive handle slot task destination block a)

-- The same call on the mailboxes.
unfoldable pub ask : Call → Post → Reply × Post
ask (create capacity) p = first_as created (Post.create capacity p)
ask (send handle slot task value block) p = first_as sent (Post.send handle slot task value block p)
ask (receive handle slot task destination block) p =
    first_as got (Post.receive handle slot task destination block p)

unfoldable pub calls : List Call → ChannelArena → List Reply × ChannelArena
calls [] a = ([], a)
calls (c ∷ cs) a = let (r, b) = call c a in let (rs, d) = calls cs b in (r ∷ rs, d)

unfoldable pub asks : List Call → Post → List Reply × Post
asks [] p = ([], p)
asks (c ∷ cs) p = let (r, q) = ask c p in let (rs, t) = asks cs q in (r ∷ rs, t)

call-Refines :
    (c : Call) {a : ChannelArena} {p : Post}
    → Shows a p
    → ((call c a).0 ≡ (ask c p).0) × Shows ((call c a).1) ((ask c p).1)
unfolding call ask
call-Refines (create capacity) s = let (e, t) = create-Refines s capacity in (ap created e, t)
call-Refines (send handle slot task value block) s =
    let (e, t) = send-Refines s handle slot task value block in (ap sent e, t)
call-Refines (receive handle slot task destination block) s =
    let (e, t) = receive-Refines s handle slot task destination block in (ap got e, t)

-- An arena that shows mailboxes answers every sequence of calls as the mailboxes do, errors
-- included, and shows what they are in the end.
pub calls-Refines :
    (cs : List Call) {a : ChannelArena} {p : Post}
    → Shows a p
    → ((calls cs a).0 ≡ (asks cs p).0) × Shows ((calls cs a).1) ((asks cs p).1)
unfolding calls asks
calls-Refines [] s = (refl, s)
calls-Refines (c ∷ cs) s =
    let (e, t) = call-Refines c s in let (es, ts) = calls-Refines cs t in (ap₂ ◌∷◌ e es, ts)

-- A new arena, of at most `i32::MAX` channels and of cells and tasks that a `usize` counts, answers
-- every sequence of calls as new mailboxes do, whether the calls succeed, suspend or fail, and it
-- never panics where they do not.
pub new-calls :
    (channels values tasks : ℕ) (a : ChannelArena) (cs : List Call)
    → channels ≤ i32_max
    → values ≤ no_slot
    → tasks ≤ no_slot
    → new (true, true, true) channels values tasks ≡ ok a
    → (calls cs a).0 ≡ (asks cs (open_post channels values tasks)).0
new-calls channels values tasks a cs hc hv ht e =
    (calls-Refines cs (new-Shows channels values tasks a hc hv ht e)).0
