-- ===== src/Execution/Channel/Shows.antt =====
-- When the arena of src/execution/channel.rs holds given mailboxes: the windows of values lie side
-- by side, the queues are linked, and a waiter is in use just where the task is parked.
use compukter_vm.Prelude.{
  ℕ, ◌+◌, ◌∙◌, sym, ◌≤◌, ◌<◌, ◌≡◌, ◌≢◌, ◌⊎◌, Option, some, List, length, get_elem?, set, map, arith,
  get_elem?-lt, get_elem?-set, length-set,
}
use native.Mathlib.Decide.{ℕ_discrete}
use compukter_vm.Prelude.Int.{ℤ, pos}
use compukter_vm.Prelude.Ring.{ring}
use compukter_vm.Execution.Task.{i32_max}
use compukter_vm.Execution.Channel.{
  Waiter, Channel, ChannelArena, no_slot, is_some, sending, receiving,
}
use compukter_vm.Execution.Channel.Post.{
  Waiting, Mailbox, Place, Post, sends_to, receives_from, put_box,
}
use compukter_vm.Execution.Channel.Line.{Entry, Line, Same, Links-frame, Links-Same}

abbrev pub sender : Waiting ℤ → Entry
sender w = record { slot = w.slot; task = w.task; kind = sending w.payload w.resume_block }

abbrev pub receiver : Waiting ℕ → Entry
receiver w = record { slot = w.slot; task = w.task; kind = receiving w.payload w.resume_block }

-- The values in a channel's window, the oldest first.
abbrev pub contents : List ℤ → Channel → List ℤ
contents values c = ring (pos 0) values c.values_start c.capacity c.head c.len

pub record BoxShows (values : List ℤ) (ws : List Waiter) (ps : List (Option Place)) (i : ℕ)
    (c : Channel) (m : Mailbox) : Type 0 where
  pub sized : c.capacity ≡ m.capacity
  pub head_ok : c.head < c.capacity
  pub len_ok : c.len ≤ c.capacity
  pub fits : c.values_start + c.capacity ≤ length values
  pub holds : contents values c ≡ m.values
  pub senders : Line ws ps (sends_to i) c.send_head c.send_tail (map sender m.senders)
  pub receivers :
      Line ws ps (receives_from i) c.receive_head c.receive_tail (map receiver m.receivers)

-- One window ends before the other starts.
abbrev pub Apart : Channel → Channel → Type 0
Apart c d =
    (c.values_start + c.capacity ≤ d.values_start) ⊎ (d.values_start + d.capacity ≤ c.values_start)

abbrev pub Parks : List Waiter → List (Option Place) → Type 0
Parks ws ps =
    (x : ℕ) (w : Waiter) (o : Option Place)
    → get_elem? ws x ≡ some w
    → get_elem? ps x ≡ some o
    → is_some w.task ≡ is_some o

pub record Shows (a : ChannelArena) (p : Post) : Type 0 where
  pub few_values : length a.values ≤ no_slot
  pub few_waiters : length a.waiters ≤ no_slot
  pub few_channels : length a.channels ≤ i32_max
  pub limited : length a.channels ≡ p.limit
  pub counted : a.channel_count ≡ length p.boxes
  pub count_ok : length p.boxes ≤ p.limit
  pub roomy : a.value_count + p.room ≡ length a.values
  pub tasks : length a.waiters ≡ length p.parked
  pub parks : Parks a.waiters p.parked
  pub boxes :
      (i : ℕ) (c : Channel) (m : Mailbox)
      → get_elem? a.channels i ≡ some c
      → get_elem? p.boxes i ≡ some m
      → BoxShows a.values a.waiters p.parked i c m
  pub below :
      (i : ℕ) (c : Channel) (m : Mailbox)
      → get_elem? a.channels i ≡ some c
      → get_elem? p.boxes i ≡ some m
      → c.values_start + c.capacity ≤ a.value_count
  pub apart :
      (i j : ℕ) (c d : Channel) (m n : Mailbox)
      → i ≢ j
      → get_elem? a.channels i ≡ some c
      → get_elem? a.channels j ≡ some d
      → get_elem? p.boxes i ≡ some m
      → get_elem? p.boxes j ≡ some n
      → Apart c d

-- The mailbox of a place.
abbrev pub owner : Place → ℕ
owner (sends_to i) = i
owner (receives_from i) = i

-- What an operation on mailbox `i` leaves alone: the other windows and the other queues.
pub record Spares (i : ℕ) (c : Channel) (values values' : List ℤ) (ws ws' : List Waiter)
    (ps ps' : List (Option Place)) : Type 0 where
  pub same_values : length values' ≡ length values
  pub same_waiters : length ws' ≡ length ws
  pub same_parked : length ps' ≡ length ps
  pub windows :
      (d : Channel)
      → d.head < d.capacity
      → d.len ≤ d.capacity
      → Apart c d
      → contents values' d ≡ contents values d
  pub queues :
      (x : ℕ) (k : Place) → owner k ≢ i → get_elem? ps x ≡ some (some k) → Same ws ws' ps ps' x

pub Line-frame :
    {ws ws' : List Waiter} {ps ps' : List (Option Place)} (k : Place) {head tail : ℕ}
    {es : List Entry}
    → ((x : ℕ) → get_elem? ps x ≡ some (some k) → Same ws ws' ps ps' x)
    → Line ws ps k head tail es
    → Line ws' ps' k head tail es
Line-frame {ws} {ws'} {ps} {ps'} k {es = es} same l = record {
  starts = l.starts;
  ends = l.ends;
  links = Links-frame ws ws' ps ps' k es (Links-Same ws ws' ps ps' k es same l.links) l.links;
}

BoxShows-frame :
    {values values' : List ℤ} {ws ws' : List Waiter} {ps ps' : List (Option Place)} {i j : ℕ}
    {c d : Channel} {m : Mailbox}
    → j ≢ i
    → Apart c d
    → Spares i c values values' ws ws' ps ps'
    → BoxShows values ws ps j d m
    → BoxShows values' ws' ps' j d m
BoxShows-frame {j = j} {d = d} ne apart spares b = record {
  sized = b.sized;
  head_ok = b.head_ok;
  len_ok = b.len_ok;
  fits = omega (arith, b.fits, spares.same_values);
  holds = spares.windows d b.head_ok b.len_ok apart ∙ b.holds;
  senders = Line-frame (sends_to j) (λ x. spares.queues x (sends_to j) ne) b.senders;
  receivers = Line-frame (receives_from j) (λ x. spares.queues x (receives_from j) ne) b.receivers;
}

module _ {a : ChannelArena} {p : Post} (s : Shows a p) {i : ℕ} {c : Channel} {m : Mailbox}
    (at_c : get_elem? a.channels i ≡ some c) (at_m : get_elem? p.boxes i ≡ some m) (c' : Channel)
    (m' : Mailbox) (values' : List ℤ) (ws' : List Waiter) (ps' : List (Option Place)) where
  -- The other mailboxes are shown as before.
  pub Shows-put :
      c'.values_start ≡ c.values_start
      → c'.capacity ≡ c.capacity
      → Spares i c a.values values' a.waiters ws' p.parked ps'
      → Parks ws' ps'
      → BoxShows values' ws' ps' i c' m'
      → Shows
          (record a { channels = set a.channels i c'; values = values'; waiters = ws' })
          (record (put_box i m' p) { parked = ps' })
  Shows-put start size spares parks box = record {
    few_values = omega (arith, s.few_values, spares.same_values);
    few_waiters = omega (arith, s.few_waiters, spares.same_waiters);
    few_channels = omega (arith, s.few_channels, length-set a.channels i c');
    limited = omega (arith, s.limited, length-set a.channels i c');
    counted = omega (arith, s.counted, length-set p.boxes i m');
    count_ok = omega (arith, s.count_ok, length-set p.boxes i m');
    roomy = omega (arith, s.roomy, spares.same_values);
    tasks = omega (arith, s.tasks, spares.same_waiters, spares.same_parked);
    parks = parks;
    boxes = λ j d n gd gn. elim (ℕ_discrete j i) [
      | yes same ↦
          let ec : d ≡ c' =
            ground (arith, get_elem?-set a.channels i j c' (get_elem?-lt a.channels i at_c)) in
          let em : n ≡ m' =
            ground (arith, get_elem?-set p.boxes i j m' (get_elem?-lt p.boxes i at_m)) in
          rw (same, ec, em) box
      | no other ↦
          let gc : get_elem? a.channels j ≡ some d =
            ground (arith, get_elem?-set a.channels i j c' (get_elem?-lt a.channels i at_c)) in
          let gm : get_elem? p.boxes j ≡ some n =
            ground (arith, get_elem?-set p.boxes i j m' (get_elem?-lt p.boxes i at_m)) in
          BoxShows-frame other (s.apart i j c d m n (λ e. other (sym e)) at_c gc at_m gm) spares
            (s.boxes j d n gc gm)
    ];
    below = λ j d n gd gn. ground (
      arith,
      get_elem?-set a.channels i j c' (get_elem?-lt a.channels i at_c),
      get_elem?-set p.boxes i j m' (get_elem?-lt p.boxes i at_m),
      s.below i c m at_c at_m,
      s.below j d n,
    );
    apart = λ j k d e n o ne gd ge gn go. ground (
      arith,
      get_elem?-set a.channels i j c' (get_elem?-lt a.channels i at_c),
      get_elem?-set a.channels i k c' (get_elem?-lt a.channels i at_c),
      get_elem?-set p.boxes i j m' (get_elem?-lt p.boxes i at_m),
      get_elem?-set p.boxes i k m' (get_elem?-lt p.boxes i at_m),
      s.apart i k c e m o,
      s.apart j i d c n m,
      s.apart j k d e n o,
    );
  }
