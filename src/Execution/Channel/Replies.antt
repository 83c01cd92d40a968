-- ===== src/Execution/Channel/Replies.antt =====
-- Handles, the heads of the queues, and tasks that wait, in src/execution/channel.rs.
use compukter_vm.Prelude.{
  panic, continue, ℕ, ◌-◌, ◌≡◌, ◌≢◌, ◌⊎◌, ◌∙◌, ◌>>◌, pure, inl, inr, refl, sym, ap, subst, Option,
  none, some, Bool, List, [], ◌∷◌, get_elem?, map, Result, ok, err, arith, ltb, lt-get_elem?,
  get_elem?-lt, Option-cases, Bool-cases,
}
use compukter_vm.Prelude.Int.{ℤ, pos, negsuc}
use compukter_vm.Execution.Task.{TaskId}
use compukter_vm.Execution.Channel.{
  ChannelArena, ChannelError, Channel, WaitKind, M, channel_index, invalid_handle, corrupt_queue,
  no_slot, install_waiter, push_waiter,
}
use compukter_vm.Execution.Channel.Post.{
  Waiting, Mailbox, Post, Place, find, put_box, park, sends_to, receives_from, wait_at,
}
use compukter_vm.Execution.Channel.Line.{Line, first}
use compukter_vm.Execution.Channel.Shows.{Shows, sender, receiver}
use compukter_vm.Execution.Channel.Storage.{Leaves}
use compukter_vm.Execution.Channel.Queues.{first-ne}
use compukter_vm.Execution.Channel.Entering.{install_waiter-err}

-- The call answers as the mailboxes do, and what the arena then holds is what they then are.
abbrev pub Refines :
    {A : Type 0} → Result ChannelError A × ChannelArena → Result ChannelError A × Post → Type 0
Refines (r, b) (t, q) = (r ≡ t) × Shows b q

-- Two steps that succeed are followed by the result.
pub then_pure :
    {A : Type 0} (m n : M (Unit {0})) (x : A) (a b : ChannelArena)
    → (m >> n) a ≡ (ok tt, b)
    → (m >> (n >> pure x)) a ≡ (ok x, b)
then_pure m n x a b e = go (m a) e
  where
    go :
        (o : Result ChannelError (Unit {0}) × ChannelArena)
        → continue (o.0) (λ _. n) (o.1) ≡ (ok tt, b)
        → continue (o.0) (λ _. n >> pure x) (o.1) ≡ (ok x, b)
    go (ok u, t) e = ap (λ o. continue (o.0) (λ _. pure x) (o.1)) e
    go (err z, t) e = absurd (cc e)
    go (panic, t) e = absurd (cc e)

pub stops :
    {A : Type 0} (m : M (Unit {0})) (n : M A) (a : ChannelArena) (z : ChannelError)
    → m a ≡ (err z, a)
    → (m >> n) a ≡ (err z, a)
stops m n a z e = ap (λ o. continue (o.0) (λ _. n) (o.1)) e

pub free-cases : (o : Option (Option Place)) → (o ≡ some none) ⊎ (o ≢ some none)
free-cases none = inr (λ e. cc)
free-cases (some none) = inl refl
free-cases (some (some k)) = inr (λ e. cc)

pub admitted :
    {A : Type 0} (slot : ℕ) (k : Place) (x : A) (m : Mailbox) (i : ℕ) (p : Post)
    → get_elem? p.parked slot ≡ some none
    → wait_at slot k x m i p ≡ (ok x, put_box i m (park slot (some k) p))
admitted slot k x m i p free = ground (arith, free)

pub refused :
    {A : Type 0} (slot : ℕ) (k : Place) (x : A) (m : Mailbox) (i : ℕ) (p : Post)
    → get_elem? p.parked slot ≢ some none
    → wait_at slot k x m i p ≡ (err corrupt_queue, p)
refused slot k x m i p taken = elim (Option-cases (get_elem? p.parked slot)) [
  | inl gone ↦ ground (arith, gone)
  | inr (o, g) ↦ elim (Option-cases o) [
    | inl unused ↦ absurd (taken (g ∙ ap some unused))
    | inr (j, used) ↦ ground (arith, g, used)
  ]
]

module _ {a : ChannelArena} {p : Post} (s : Shows a p) where
  pub channel_index-none :
      (handle : ℤ) → find handle p ≡ none → channel_index handle a ≡ err invalid_handle
  unfolding find channel_index
  channel_index-none (negsuc n) e = refl
  channel_index-none (pos n) e = elim (Bool-cases (ltb (n - 1) a.channel_count)) [
    | inl low ↦
        let (m, g) = lt-get_elem? p.boxes (n - 1) (ground (arith, s.counted)) in ground (arith, g)
    | inr high ↦ ground arith
  ]

  pub channel_index-some :
      (handle : ℤ) (i : ℕ) (m : Mailbox)
      → find handle p ≡ some (i, m)
      → (channel_index handle a ≡ ok i) × (get_elem? p.boxes i ≡ some m)
  unfolding find channel_index
  channel_index-some (negsuc n) i m e = absurd (ground arith)
  channel_index-some (pos n) i m e = elim (Option-cases (get_elem? p.boxes (n - 1))) [
    | inl gone ↦ absurd (ground (arith, gone))
    | inr (m', g) ↦ ground (arith, g, get_elem?-lt p.boxes (n - 1) g, s.counted)
  ]

  pub channel_of :
      (i : ℕ) (m : Mailbox)
      → get_elem? p.boxes i ≡ some m
      → (c : Channel) × (get_elem? a.channels i ≡ some c)
  channel_of i m g =
      lt-get_elem? a.channels i (omega (arith, s.limited, s.count_ok, get_elem?-lt p.boxes i g))

  -- A task that waits does so in the arena as among the mailboxes, and is refused in both.
  pub waits-Refines :
      {A : Type 0} (i : ℕ) (c : Channel)
      → get_elem? a.channels i ≡ some c
      → (slot : ℕ) (task : TaskId) (kind : WaitKind) (send : Bool) (k : Place) (x : A)
        (m' : Mailbox)
      → (get_elem? p.parked slot ≡ some none
          → Leaves
              (install_waiter slot task kind >> push_waiter i slot send)
              a
              tt
              (put_box i m' (park slot (some k) p)))
      → Refines
          ((install_waiter slot task kind >> (push_waiter i slot send >> pure x)) a)
          (wait_at slot k x m' i p)
  waits-Refines i c at_c slot task kind send k x m' waits =
      elim (free-cases (get_elem? p.parked slot)) [
        | inl free ↦
            let (b, done, shows) = waits free in
            rw
              (
                then_pure (install_waiter slot task kind) (push_waiter i slot send) x a b done,
                admitted slot k x m' i p free,
              )
              (refl, shows)
        | inr taken ↦
            rw
              (
                stops (install_waiter slot task kind) (push_waiter i slot send >> pure x) a
                    corrupt_queue
                    (install_waiter-err s i c at_c send k
                      (record { slot = slot; task = task; kind = kind }) taken),
                refused slot k x m' i p taken,
              )
              (refl, s)
      ]

  module _ (i : ℕ) (c : Channel) (m : Mailbox) (at_c : get_elem? a.channels i ≡ some c)
      (at_m : get_elem? p.boxes i ≡ some m) where
    -- The heads tell whether someone waits.
    pub no_receiver : m.receivers ≡ [] → c.receive_head ≡ no_slot
    no_receiver e = (s.boxes i c m at_c at_m).receivers.starts ∙ ap (λ t. first (map receiver t)) e

    pub no_sender : m.senders ≡ [] → c.send_head ≡ no_slot
    no_sender e = (s.boxes i c m at_c at_m).senders.starts ∙ ap (λ t. first (map sender t)) e

    pub some_receiver :
        (r : Waiting ℕ) (rest : List (Waiting ℕ))
        → m.receivers ≡ r ∷ rest
        → c.receive_head ≢ no_slot
    some_receiver r rest e q =
        let line =
          subst
            (λ t.
              Line a.waiters p.parked (receives_from i) c.receive_head c.receive_tail
                (map receiver t))
            e (s.boxes i c m at_c at_m).receivers in
        (first-ne a.waiters p.parked (receives_from i) (receiver r) (map receiver rest)
            s.few_waiters line.links).0
          (sym line.starts ∙ q)

    pub some_sender :
        (r : Waiting ℤ) (rest : List (Waiting ℤ)) → m.senders ≡ r ∷ rest → c.send_head ≢ no_slot
    some_sender r rest e q =
        let line =
          subst (λ t. Line a.waiters p.parked (sends_to i) c.send_head c.send_tail (map sender t)) e
            (s.boxes i c m at_c at_m).senders in
        (first-ne a.waiters p.parked (sends_to i) (sender r) (map sender rest) s.few_waiters
            line.links).0
          (sym line.starts ∙ q)
