-- ===== src/Execution/Channel/Delivery.antt =====
-- What passes through one mailbox of src/execution/channel.rs: values in the order in which they were
-- sent, and senders in the order in which they came.
use mathlib.Core.List.{append-nil}
use compukter_vm.Prelude.{
  ℕ, suc, ◌+◌, ◌≤◌, ◌<◌, ◌≡◌, ◌⊎◌, some, Bool, true, false, List, [], ◌∷◌, ◌++◌, map, length,
  get_elem?, ok, ◌==◌, if◌then◌else◌,
}
use compukter_vm.Prelude.Int.{ℤ, pos, negsuc}
use compukter_vm.Execution.Channel.{wake_receiver, received}
use compukter_vm.Execution.Channel.Post.{Waiting, Mailbox, Post}
use compukter_vm.Execution.Channel.Histories.{Call, Reply, send, receive, sent, got}

-- Nobody waits to receive while there is a value or a sender, nor to send while there is room.
pub record Coherent (m : Mailbox) : Type 0 where
  pub some_room : 0 < m.capacity
  pub bounded : length m.values ≤ m.capacity
  pub eager : (m.receivers ≡ []) ⊎ ((m.values ≡ []) × (m.senders ≡ []))
  pub full : (m.senders ≡ []) ⊎ (length m.values ≡ m.capacity)

-- The values that were sent and not yet received.
abbrev pub transit : Mailbox → List ℤ
transit m = m.values ++ map (λ w. w.payload) m.senders

abbrev pub is_handle : ℕ → ℤ → Bool
is_handle i (pos n) = n == i + 1
is_handle i (negsuc n) = false

-- What a call on mailbox `i` puts in.
abbrev pub accepted : ℕ → Call → Reply → List ℤ
accepted i (send handle slot task value block) (sent (ok r)) =
    if is_handle i handle then value ∷ [] else []
accepted i _ _ = []

-- And what comes out.
abbrev pub delivered : ℕ → Call → Reply → List ℤ
delivered i (send handle slot task value block) (sent (ok (wake_receiver t d b))) =
    if is_handle i handle then value ∷ [] else []
delivered i (receive handle slot task destination block) (got (ok (received v w))) =
    if is_handle i handle then v ∷ [] else []
delivered i _ _ = []

abbrev pub receives : ℕ → Call → Bool
receives i (receive handle slot task destination block) = is_handle i handle
receives i _ = false

abbrev pub Wakes : Waiting ℤ → Reply → Type 0
Wakes w (got (ok (received v (some (t, b))))) = (t ≡ w.task) × (b ≡ w.resume_block)
Wakes w _ = ⊥

-- What one call does to mailbox `i`.
pub record Progress (i : ℕ) (m : Mailbox) (c : Call) (r : Reply) (q : Post) : Type 0 where
  pub after : Mailbox
  pub stands : get_elem? q.boxes i ≡ some after
  pub coherent : Coherent after
  pub flow : transit m ++ accepted i c r ≡ delivered i c r ++ transit after
  pub advance :
      (n : ℕ) (w : Waiting ℤ)
      → get_elem? m.senders n ≡ some w
      → (receives i c ≡ true
          → Wakes w r ⊎ ((k : ℕ) × (n ≡ suc k) × (get_elem? after.senders k ≡ some w)))
        × (receives i c ≡ false → get_elem? after.senders n ≡ some w)

-- A call that leaves the mailbox alone.
pub Progress-still :
    (i : ℕ) (m : Mailbox) (c : Call) (r : Reply) (q : Post)
    → get_elem? q.boxes i ≡ some m
    → Coherent m
    → accepted i c r ≡ []
    → delivered i c r ≡ []
    → receives i c ≡ false
    → Progress i m c r q
Progress-still i m c r q at_m h a d other = record {
  after = m;
  stands = at_m;
  coherent = h;
  flow = rw (a, d) (append-nil (transit m));
  advance = λ n w g. ((λ yes_it. absurd (cc)), λ _. g);
}
