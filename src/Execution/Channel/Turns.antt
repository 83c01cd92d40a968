-- ===== src/Execution/Channel/Turns.antt =====
-- What `send` and `receive` of src/execution/channel.rs do to the mailbox that they name.
use mathlib.Core.List.{append_assoc, append-nil, map-append}
use compukter_vm.Prelude.{
  ℕ, zero, suc, ◌≡◌, ◌⊎◌, inl, inr, ◌∙◌, refl, sym, ap, none, some, true, List, [], ◌∷◌, ◌++◌, map,
  length, get_elem?, set, ok, err, arith, ltb, ltb→lt, get_elem?-snoc, get_elem?-lt,
  get_elem?-set_self, length-append, Bool-cases,
}
use compukter_vm.Prelude.Int.{ℤ}
use compukter_vm.Execution.Task.{TaskId}
use compukter_vm.Execution.Channel.{
  corrupt_queue, SendResult, ReceiveResult, complete, wake_receiver, received,
}
use compukter_vm.Execution.Channel.Post.{
  park, sends_to, receives_from, Waiting, Mailbox, Post, send_box, receive_box, put_box,
}
use compukter_vm.Execution.Channel.Replies.{free-cases, refused}
use compukter_vm.Execution.Channel.Histories.{send, receive, sent, got}
use compukter_vm.Execution.Channel.Delivery.{Coherent, Progress, Progress-still, transit, is_handle}

first_or_later :
    (n : ℕ) (s : Waiting ℤ) (rest : List (Waiting ℤ)) (w : Waiting ℤ)
    → get_elem? (s ∷ rest) n ≡ some w
    → ((s.task ≡ w.task) × (s.resume_block ≡ w.resume_block))
      ⊎ ((k : ℕ) × (n ≡ suc k) × (get_elem? rest k ≡ some w))
first_or_later zero s rest w g =
    let e : s ≡ w = cc g in inl (ap (λ t. t.task) e, ap (λ t. t.resume_block) e)
first_or_later (suc n) s rest w g = inr (n, refl, g)

module _ (i : ℕ) (m : Mailbox) (p : Post) (at_m : get_elem? p.boxes i ≡ some m)
    (h : Coherent m) where
  put_stands : (m' : Mailbox) → get_elem? (set p.boxes i m') i ≡ some m'
  put_stands m' = get_elem?-set_self p.boxes i m' (get_elem?-lt p.boxes i at_m)

  eager_receivers :
      (r : Waiting ℕ) (rest : List (Waiting ℕ))
      → m.receivers ≡ r ∷ rest
      → (m.values ≡ []) × (m.senders ≡ [])
  eager_receivers r rest e = elim (h.eager) [ inl q ↦ absurd (cc (e, q)) | inr q ↦ q ]

  module _ (handle : ℤ) (mine : is_handle i handle ≡ true) (slot : ℕ) (task : TaskId)
      (block : ℕ) where
    pub send-Progress :
        (value : ℤ) (rs : List (Waiting ℕ))
        → m.receivers ≡ rs
        → let (r, q) = send_box i slot task value block m p in
          Progress i m (send handle slot task value block) (sent r) q
    unfolding send_box
    send-Progress value (r ∷ rest) e =
        let idle = eager_receivers r rest e in
        let box : send_box i slot task value block m p ≡ (
          ok (wake_receiver r.task r.payload r.resume_block),
          put_box i (record m { receivers = rest }) (park r.slot none p),
        ) =
          ground (arith, e) in
        rw box (record {
          after = record m { receivers = rest };
          stands = put_stands (record m { receivers = rest });
          coherent = record {
            some_room = h.some_room;
            bounded = h.bounded;
            eager = inr idle;
            full = h.full;
          };
          flow = rw (mine, idle.0, idle.1) refl;
          advance = λ n w g. ((λ y. absurd (cc y)), λ _. g);
        })
    send-Progress value [] e = elim (Bool-cases (ltb (length m.values) m.capacity)) [
      | inl room ↦
          let nobody : m.senders ≡ [] = ground (arith, h.full, room) in
          let m' = record m { values = m.values ++ value ∷ [] } in
          let box : send_box i slot task value block m p ≡ (ok complete, put_box i m' p) =
            ground (arith, e, room) in
          rw box (record {
            after = m';
            stands = put_stands m';
            coherent = record {
              some_room = h.some_room;
              bounded = omega (arith, length-append m.values (value ∷ []), ltb→lt _ _ room);
              eager = inl e;
              full = inl nobody;
            };
            flow =
                rw (mine, nobody)
                  (ap (λ t. t ++ value ∷ []) (append-nil m.values)
                    ∙ sym (append-nil (m.values ++ value ∷ [])));
            advance = λ n w g. ((λ y. absurd (cc y)), λ _. g);
          })
      | inr crowded ↦ elim (free-cases (get_elem? p.parked slot)) [
        | inl free ↦
            let x : Waiting ℤ = record {
              slot = slot;
              task = task;
              payload = value;
              resume_block = block;
            } in
            let m' = record m { senders = m.senders ++ x ∷ [] } in
            let box : send_box i slot task value block m p
                ≡ (ok SendResult.suspend, put_box i m' (park slot (some (sends_to i)) p)) =
              ground (arith, e, crowded, free) in
            rw box (record {
              after = m';
              stands = put_stands m';
              coherent = record {
                some_room = h.some_room;
                bounded = h.bounded;
                eager = inl e;
                full = inr (ground (arith, crowded, h.bounded));
              };
              flow = rw (mine, map-append, append_assoc) refl;
              advance = λ n w g. (
                (λ y. absurd (cc y)),
                λ _. ground (arith, get_elem?-snoc m.senders x n, get_elem?-lt m.senders n g, g),
              );
            })
        | inr taken ↦
            let box : send_box i slot task value block m p ≡ (err corrupt_queue, p) = ground (
              arith,
              e,
              crowded,
              refused slot (sends_to i) SendResult.suspend
                  (record m {
                    senders =
                        m.senders
                        ++ (record {
                          slot = slot;
                          task = task;
                          payload = value;
                          resume_block = block;
                        })
                          ∷ [];
                  })
                  i p taken,
            ) in
            rw box (
              Progress-still i m (send handle slot task value block) (sent (err corrupt_queue)) p
                at_m h refl refl refl)
      ]
    ]

    pub receive-Progress :
        (destination : ℕ) (vs : List ℤ) (ss : List (Waiting ℤ))
        → m.values ≡ vs
        → m.senders ≡ ss
        → let (r, q) = receive_box i slot task destination block m p in
          Progress i m (receive handle slot task destination block) (got r) q
    unfolding receive_box
    receive-Progress destination (v ∷ vs) [] e f =
        let m' = record m { values = vs } in
        let box : receive_box i slot task destination block m p
            ≡ (ok (received v none), put_box i m' p) =
          ground (arith, e, f) in
        rw box (record {
          after = m';
          stands = put_stands m';
          coherent = record {
            some_room = h.some_room;
            bounded = omega (arith, h.bounded, ap length e);
            eager = inl no_receivers;
            full = inl f;
          };
          flow = rw (mine, e) (append-nil _);
          advance = λ n w g. absurd (ground (arith, f, g));
        })
      where
        no_receivers : m.receivers ≡ []
        no_receivers = elim (h.eager) [ inl q ↦ q | inr q ↦ absurd (cc (e, q.0)) ]
    receive-Progress destination (v ∷ vs) (s ∷ rest) e f =
        let m' = record m { values = vs ++ s.payload ∷ []; senders = rest } in
        let box : receive_box i slot task destination block m p
            ≡ (ok (received v (some (s.task, s.resume_block))), put_box i m' (park s.slot none p)) =
          ground (arith, e, f) in
        rw box (record {
          after = m';
          stands = put_stands m';
          coherent = record {
            some_room = h.some_room;
            bounded = omega (arith, h.bounded, ap length e, length-append vs (s.payload ∷ []));
            eager = inl no_receivers;
            full = inr (omega (arith, at_capacity, ap length e, length-append vs (s.payload ∷ [])));
          };
          flow =
              rw (mine, e, f)
                (append-nil _
                  ∙ ap (λ t. v ∷ t)
                      (sym (append_assoc vs (s.payload ∷ []) (map (λ w. w.payload) rest))));
          advance = λ n w g. (
            (λ _. first_or_later n s rest w (ap (λ t. get_elem? t n) (sym f) ∙ g)),
            λ y. absurd (cc (mine, y)),
          );
        })
      where
        no_receivers : m.receivers ≡ []
        no_receivers = elim (h.eager) [ inl q ↦ q | inr q ↦ absurd (cc (e, q.0)) ]

        at_capacity : length m.values ≡ m.capacity
        at_capacity = elim (h.full) [ inl q ↦ absurd (cc (f, q)) | inr q ↦ q ]
    receive-Progress destination [] ss e f = elim (free-cases (get_elem? p.parked slot)) [
      | inl free ↦
          let x : Waiting ℕ = record {
            slot = slot;
            task = task;
            payload = destination;
            resume_block = block;
          } in
          let m' = record m { receivers = m.receivers ++ x ∷ [] } in
          let box : receive_box i slot task destination block m p
              ≡ (ok ReceiveResult.suspend, put_box i m' (park slot (some (receives_from i)) p)) =
            ground (arith, e, free) in
          rw box (record {
            after = m';
            stands = put_stands m';
            coherent = record {
              some_room = h.some_room;
              bounded = h.bounded;
              eager = inr (e, nobody);
              full = h.full;
            };
            flow = append-nil (transit m);
            advance = λ n w g. absurd (ground (arith, nobody, g));
          })
      | inr taken ↦
          let box : receive_box i slot task destination block m p ≡ (err corrupt_queue, p) =
            ground (
              arith,
              e,
              refused slot (receives_from i) ReceiveResult.suspend
                  (record m {
                    receivers =
                        m.receivers
                        ++ (record {
                          slot = slot;
                          task = task;
                          payload = destination;
                          resume_block = block;
                        })
                          ∷ [];
                  })
                  i p taken,
            ) in
          rw box (record {
            after = m;
            stands = at_m;
            coherent = h;
            flow = append-nil (transit m);
            advance = λ n w g. absurd (ground (arith, nobody, g));
          })
    ]
      where
        nobody : m.senders ≡ []
        nobody = elim (h.full) [
          | inl q ↦ q
          | inr q ↦ absurd (omega (arith, q, ap length e, h.some_room))
        ]
