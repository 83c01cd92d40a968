-- ===== src/Execution/Channel/Passage.antt =====
-- Whole histories of one mailbox of src/execution/channel.rs.
use mathlib.Core.List.{append_assoc, append-nil}
use compukter_vm.Prelude.{
  count, ℕ, ◌-◌, ◌<◌, ◌≡◌, ◌≢◌, ◌⊎◌, inl, inr, ◌∙◌, refl, sym, ap, Option, some, Bool, true, false,
  List, [], ◌∷◌, ◌++◌, get_elem?, Result, ok, err, panic, arith, get_elem?-snoc, get_elem?-lt,
  get_elem?-set_ne, Option-cases, Bool-cases,
}
use compukter_vm.Prelude.Int.{ℤ, pos, negsuc}
use compukter_vm.Execution.Task.{TaskId}
use compukter_vm.Execution.Channel.{
  ChannelError, SendResult, ReceiveResult, complete, wake_receiver, received,
}
use compukter_vm.Execution.Channel.Post
use compukter_vm.Execution.Channel.Post.{
  park, sends_to, receives_from, new_box, Waiting, Mailbox, Post, find, send_box, receive_box,
  put_box, wait_at,
}
use compukter_vm.Execution.Channel.Sending.{send_found, send_lost}
use compukter_vm.Execution.Channel.Receiving.{receive_found, receive_lost}
use compukter_vm.Execution.Channel.Histories.{
  Call, Reply, create, send, receive, created, sent, got, ask, asks,
}
use compukter_vm.Execution.Channel.Turns.{send-Progress, receive-Progress}
use compukter_vm.Execution.Channel.Delivery.{
  Coherent, Progress, Progress-still, transit, is_handle, accepted, delivered, receives, Wakes,
}

-- A handle is that of mailbox `i`, or it is another's, or nobody's.
find_mine :
    (i : ℕ) (handle : ℤ) (m : Mailbox) (p : Post)
    → is_handle i handle ≡ true
    → get_elem? p.boxes i ≡ some m
    → find handle p ≡ some (i, m)
unfolding find
find_mine i (negsuc n) m p e g = absurd (cc e)
find_mine i (pos n) m p e g =
    let k : n - 1 ≡ i = ground arith in
    ground
      (arith, g, ap (get_elem? p.boxes) k, ap {B = Option (ℕ × Mailbox)} (λ (t : ℕ). some (t, m)) k)

find_other :
    (i j : ℕ) (handle : ℤ) (m : Mailbox) (p : Post)
    → is_handle i handle ≡ false
    → find handle p ≡ some (j, m)
    → j ≢ i
unfolding find
find_other i j (negsuc n) m p e f = absurd (ground arith)
find_other i j (pos n) m p e f = elim (Option-cases (get_elem? p.boxes (n - 1))) [
  | inl gone ↦ absurd (ground (arith, gone))
  | inr (m', g) ↦ ground (arith, g)
]

send_box-other :
    (i j slot : ℕ) (task : TaskId) (value : ℤ) (block : ℕ) (m : Mailbox) (p : Post)
    → j ≢ i
    → get_elem? ((send_box j slot task value block m p).1.boxes) i ≡ get_elem? p.boxes i
unfolding send_box
send_box-other i j slot task value block m p ne = grind (arith, get_elem?-set_ne p.boxes j i)

receive_box-other :
    (i j slot : ℕ) (task : TaskId) (destination block : ℕ) (m : Mailbox) (p : Post)
    → j ≢ i
    → get_elem? ((receive_box j slot task destination block m p).1.boxes) i ≡ get_elem? p.boxes i
unfolding receive_box
receive_box-other i j slot task destination block m p ne =
    grind (arith, get_elem?-set_ne p.boxes j i)

-- What another mailbox takes or gives does not count.
none_sent :
    (i : ℕ) (handle : ℤ) (slot : ℕ) (task : TaskId) (value : ℤ) (block : ℕ)
    → is_handle i handle ≡ false
    → (r : Result ChannelError SendResult)
    → (accepted i (send handle slot task value block) (sent r) ≡ [])
      × (delivered i (send handle slot task value block) (sent r) ≡ [])
none_sent i handle slot task value block e (ok complete) = (rw e refl, refl)
none_sent i handle slot task value block e (ok (wake_receiver t d b)) = (rw e refl, rw e refl)
none_sent i handle slot task value block e (ok SendResult.suspend) = (rw e refl, refl)
none_sent i handle slot task value block e (err z) = (refl, refl)
none_sent i handle slot task value block e panic = (refl, refl)

none_got :
    (i : ℕ) (handle : ℤ) (slot : ℕ) (task : TaskId) (destination block : ℕ)
    → is_handle i handle ≡ false
    → (r : Result ChannelError ReceiveResult)
    → delivered i (receive handle slot task destination block) (got r) ≡ []
none_got i handle slot task destination block e (ok (received v w)) = rw e refl
none_got i handle slot task destination block e (ok ReceiveResult.suspend) = refl
none_got i handle slot task destination block e (err z) = refl
none_got i handle slot task destination block e panic = refl

-- Every call on the mailboxes is a step of mailbox `i`.
module _ (i : ℕ) (m : Mailbox) (p : Post) (at_m : get_elem? p.boxes i ≡ some m)
    (h : Coherent m) where
  create-Progress :
      (capacity : ℤ)
      → let (r, q) = Post.create capacity p in Progress i m (create capacity) (created r) q
  unfolding Post.create
  create-Progress capacity =
      Progress-still i m (create capacity) _ _ (stays capacity) h refl refl refl
    where
      stays : (capacity : ℤ) → get_elem? ((Post.create capacity p).1.boxes) i ≡ some m
      stays (negsuc n) = at_m
      stays (pos n) =
          ground (arith, get_elem?-snoc p.boxes (new_box n) i, get_elem?-lt p.boxes i at_m, at_m)

  send-Progress_any :
      (handle : ℤ) (slot : ℕ) (task : TaskId) (value : ℤ) (block : ℕ) (mine : Bool)
      → is_handle i handle ≡ mine
      → let (r, q) = Post.send handle slot task value block p in
        Progress i m (send handle slot task value block) (sent r) q
  unfolding Post.send
  send-Progress_any handle slot task value block true e =
      rw (send_found handle slot task value block i m p (find_mine i handle m p e at_m))
        (send-Progress i m p at_m h handle e slot task block value m.receivers refl)
  send-Progress_any handle slot task value block false e = elim (Option-cases (find handle p)) [
    | inl gone ↦
        rw (send_lost handle slot task value block p gone)
          (Progress-still i m _ _ p at_m h refl refl refl)
    | inr ((j, n), f) ↦ rw (send_found handle slot task value block j n p f) (
        Progress-still i m (send handle slot task value block)
          (sent (send_box j slot task value block n p).0) _
          (send_box-other i j slot task value block n p (find_other i j handle n p e f) ∙ at_m) h
          ((none_sent i handle slot task value block e (send_box j slot task value block n p).0).0)
          ((none_sent i handle slot task value block e (send_box j slot task value block n p).0).1)
          refl)
  ]

  receive-Progress_any :
      (handle : ℤ) (slot : ℕ) (task : TaskId) (destination block : ℕ) (mine : Bool)
      → is_handle i handle ≡ mine
      → let (r, q) = Post.receive handle slot task destination block p in
        Progress i m (receive handle slot task destination block) (got r) q
  unfolding Post.receive
  receive-Progress_any handle slot task destination block true e =
      rw (receive_found handle slot task destination block i m p (find_mine i handle m p e at_m)) (
        receive-Progress i m p at_m h handle e slot task block destination m.values m.senders refl
          refl)
  receive-Progress_any handle slot task destination block false e =
      elim (Option-cases (find handle p)) [
        | inl gone ↦
            rw (receive_lost handle slot task destination block p gone) (
              Progress-still i m (receive handle slot task destination block) _ p at_m h refl refl
                e)
        | inr ((j, n), f) ↦ rw (receive_found handle slot task destination block j n p f) (
            Progress-still i m (receive handle slot task destination block)
              (got (receive_box j slot task destination block n p).0) _
              (receive_box-other i j slot task destination block n p (find_other i j handle n p e f)
                ∙ at_m)
              h refl
              (none_got i handle slot task destination block e
                (receive_box j slot task destination block n p).0)
              e)
      ]

  pub ask-Progress : (c : Call) → Progress i m c ((ask c p).0) ((ask c p).1)
  unfolding ask
  ask-Progress (create capacity) = create-Progress capacity
  ask-Progress (send handle slot task value block) =
      send-Progress_any handle slot task value block (is_handle i handle) refl
  ask-Progress (receive handle slot task destination block) =
      receive-Progress_any handle slot task destination block (is_handle i handle) refl

-- What a history puts into mailbox `i`, and what comes out.
abbrev pub all_accepted : ℕ → List Call → List Reply → List ℤ
all_accepted i (c ∷ cs) (r ∷ rs) = accepted i c r ++ all_accepted i cs rs
all_accepted i _ _ = []

abbrev pub all_delivered : ℕ → List Call → List Reply → List ℤ
all_delivered i (c ∷ cs) (r ∷ rs) = delivered i c r ++ all_delivered i cs rs
all_delivered i _ _ = []

flow_twice :
    (t t' t'' a a' d d' : List ℤ)
    → t ++ a ≡ d ++ t'
    → t' ++ a' ≡ d' ++ t''
    → t ++ (a ++ a') ≡ (d ++ d') ++ t''
flow_twice t t' t'' a a' d d' h k =
    sym (append_assoc t a a')
    ∙ ap (λ x. x ++ a') h
    ∙ append_assoc d t' a'
    ∙ ap (λ x. d ++ x) k
    ∙ sym (append_assoc d d' t'')

pub asks-flow :
    (i : ℕ) (cs : List Call) (m : Mailbox) (p : Post)
    → get_elem? p.boxes i ≡ some m
    → Coherent m
    → (m' : Mailbox) × (get_elem? ((asks cs p).1.boxes) i ≡ some m')
      × (transit m ++ all_accepted i cs ((asks cs p).0)
          ≡ all_delivered i cs ((asks cs p).0) ++ transit m')
unfolding asks
asks-flow i [] m p at_m h = (m, at_m, append-nil (transit m))
asks-flow i (c ∷ cs) m p at_m h =
    let g = ask-Progress i m p at_m h c in
    let (m', at_m', flow) = asks-flow i cs g.after ((ask c p).1) g.stands g.coherent in
    (m', at_m', flow_twice (transit m) (transit g.after) (transit m') _ _ _ _ g.flow flow)

-- A sender is woken by one of the replies.
abbrev pub WokenIn : Waiting ℤ → List Reply → Type 0
WokenIn w [] = ⊥
WokenIn w (r ∷ rs) = Wakes w r ⊎ WokenIn w rs

pub asks-wakes :
    (i : ℕ) (cs : List Call) (m : Mailbox) (p : Post) (n : ℕ) (w : Waiting ℤ)
    → get_elem? p.boxes i ≡ some m
    → Coherent m
    → get_elem? m.senders n ≡ some w
    → n < count (receives i) cs
    → WokenIn w ((asks cs p).0)
unfolding asks
asks-wakes i [] m p n w at_m h g lt = absurd (omega arith)
asks-wakes i (c ∷ cs) m p n w at_m h g lt =
    let s = ask-Progress i m p at_m h c in
    elim (Bool-cases (receives i c)) [
      | inl takes ↦ elim ((s.advance n w g).0 takes) [
        | inl now ↦ inl now
        | inr (k, e, g') ↦
            inr (asks-wakes i cs s.after ((ask c p).1) k w s.stands s.coherent g' (ground arith))
      ]
      | inr other ↦ inr (
          asks-wakes i cs s.after ((ask c p).1) n w s.stands s.coherent ((s.advance n w g).1 other)
            (ground arith))
    ]
