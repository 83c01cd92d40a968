-- ===== src/Execution/Channel/Service.antt =====
-- What a new arena of src/execution/channel.rs promises of a channel, after any history.
use compukter_vm.Prelude.{
  ℕ, ◌≤◌, ◌<◌, ◌≡◌, ◌⊎◌, inl, inr, refl, subst, some, true, List, [], ◌∷◌, ◌++◌, length, count,
  get_elem?, ok, arith, lt-get_elem?, get_elem?-lt, get_elem?-snoc, length-set, Option-cases,
}
use compukter_vm.Prelude.Int.{ℤ, pos, negsuc}
use compukter_vm.Execution.Task.{TaskId, i32_max}
use compukter_vm.Execution.Channel.{ChannelArena, new, no_slot}
use compukter_vm.Execution.Channel.Post
use compukter_vm.Execution.Channel.Post.{Waiting, Mailbox, Post, open_post, new_box}
use compukter_vm.Execution.Channel.Shows.{Shows}
use compukter_vm.Execution.Channel.Creating.{new-Shows}
use compukter_vm.Execution.Channel.Histories.{
  Call, create, send, receive, ask, asks, calls, calls-Refines,
}
use compukter_vm.Execution.Channel.Delivery.{Coherent, transit, receives}
use compukter_vm.Execution.Channel.Passage.{
  all_accepted, all_delivered, WokenIn, ask-Progress, asks-flow, asks-wakes,
}

-- All mailboxes of a post are coherent.
abbrev Sane : Post → Type 0
Sane p = (i : ℕ) (m : Mailbox) → get_elem? p.boxes i ≡ some m → Coherent m

new_box-Coherent : (n : ℕ) → 0 < n → Coherent (new_box n)
new_box-Coherent n h = record {
  some_room = h;
  bounded = omega arith;
  eager = inl refl;
  full = inl refl;
}

create-old :
    (capacity : ℤ) (p : Post) (i : ℕ) (m : Mailbox)
    → get_elem? ((Post.create capacity p).1.boxes) i ≡ some m
    → ((n : Mailbox) × (get_elem? p.boxes i ≡ some n)) ⊎ Coherent m
unfolding Post.create
create-old (negsuc n) p i m g = inl (m, g)
create-old (pos n) p i m g = elim (Option-cases (get_elem? p.boxes i)) [
  | inr old ↦ inl old
  | inl fresh ↦
      let e : (m ≡ new_box n) × (0 < n) =
        ground (arith, fresh, get_elem?-snoc p.boxes (new_box n) i) in
      inr (rw (e.0) (new_box-Coherent n e.1))
]

length-send :
    (handle : ℤ) (slot : ℕ) (task : TaskId) (value : ℤ) (block : ℕ) (p : Post)
    → length ((Post.send handle slot task value block p).1.boxes) ≡ length p.boxes
unfolding Post.send
length-send handle slot task value block p = grind (arith, length-set)

length-receive :
    (handle : ℤ) (slot : ℕ) (task : TaskId) (destination : ℕ) (block : ℕ) (p : Post)
    → length ((Post.receive handle slot task destination block p).1.boxes) ≡ length p.boxes
unfolding Post.receive
length-receive handle slot task destination block p = grind (arith, length-set)

ask-old :
    (c : Call) (p : Post) (i : ℕ) (m : Mailbox)
    → get_elem? ((ask c p).1.boxes) i ≡ some m
    → ((n : Mailbox) × (get_elem? p.boxes i ≡ some n)) ⊎ Coherent m
unfolding ask
ask-old (create capacity) p i m g = create-old capacity p i m g
ask-old (send handle slot task value block) p i m g = inl (
    lt-get_elem? p.boxes i
      (omega (arith, get_elem?-lt _ i g, length-send handle slot task value block p)))
ask-old (receive handle slot task destination block) p i m g = inl (
    lt-get_elem? p.boxes i
      (omega (arith, get_elem?-lt _ i g, length-receive handle slot task destination block p)))

ask-Sane : (c : Call) (p : Post) → Sane p → Sane ((ask c p).1)
ask-Sane c p h i m g = elim (ask-old c p i m g) [
  | inl (n, at_n) ↦
      let s = ask-Progress i n p at_n (h i n at_n) c in subst Coherent (cc (s.stands, g)) s.coherent
  | inr fresh ↦ fresh
]

asks-Sane : (cs : List Call) (p : Post) → Sane p → Sane ((asks cs p).1)
unfolding asks
asks-Sane [] p h = h
asks-Sane (c ∷ cs) p h = asks-Sane cs ((ask c p).1) (ask-Sane c p h)

open-Sane : (channels values tasks : ℕ) → Sane (open_post channels values tasks)
unfolding open_post
open-Sane channels values tasks i m g = absurd (ground arith)

-- A new arena, after the calls `before`, with the channel `i` among its channels.
module _ (channels values tasks : ℕ) (a : ChannelArena) (before : List Call) (i : ℕ) (m : Mailbox)
    (few_channels : channels ≤ i32_max) (few_values : values ≤ no_slot)
    (few_tasks : tasks ≤ no_slot) (opened : new (true, true, true) channels values tasks ≡ ok a)
    (made : get_elem? ((asks before (open_post channels values tasks)).1.boxes) i ≡ some m) where
  abbrev then_post : Post
  then_post = (asks before (open_post channels values tasks)).1

  abbrev then_arena : ChannelArena
  then_arena = (calls before a).1

  then-Shows : Shows then_arena then_post
  then-Shows =
      (calls-Refines before
        (new-Shows channels values tasks a few_channels few_values few_tasks opened)).1

  -- Values are delivered in the order in which they were accepted, none is lost and none is made up.
  pub calls-delivery :
      (after : List Call)
      → let (rs, _) = calls after then_arena in
        let (_, q) = asks after then_post in
        (m' : Mailbox) × (get_elem? q.boxes i ≡ some m')
        × (transit m ++ all_accepted i after rs ≡ all_delivered i after rs ++ transit m')
  calls-delivery after = rw (calls-Refines after then-Shows).0 (
      asks-flow i after m then_post made
        (asks-Sane before _ (open-Sane channels values tasks) i m made))

  -- The sender that waits in place `n` is woken in the course of `n + 1` calls to receive.
  pub calls-wake :
      (after : List Call) (n : ℕ) (w : Waiting ℤ)
      → get_elem? m.senders n ≡ some w
      → n < count (receives i) after
      → WokenIn w ((calls after then_arena).0)
  calls-wake after n w g lt = rw (calls-Refines after then-Shows).0 (
      asks-wakes i after m then_post n w made
        (asks-Sane before _ (open-Sane channels values tasks) i m made) g lt)
