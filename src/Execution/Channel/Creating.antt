-- ===== src/Execution/Channel/Creating.antt =====
-- `new` and `create` of src/execution/channel.rs, against the mailboxes.
use compukter_vm.Prelude.{
  ℕ, zero, suc, ◌+◌, ◌-◌, ◌≤◌, ◌<◌, ◌≡◌, ◌≢◌, ◌⊎◌, inl, inr, ◌∙◌, refl, sym, ap, subst, Option,
  none, some, true, List, [], ◌∷◌, ◌++◌, length, get_elem?, set, replicate, ok, arith, ltb, ◌==◌,
  if◌then◌else◌, get_elem?-snoc, lt-get_elem?, get_elem?-set, length-set, length-append,
  length-replicate, Bool-cases,
}
use native.Mathlib.Decide.{ℕ_discrete}
use compukter_vm.Prelude.Int.{ℤ, pos, negsuc}
use compukter_vm.Prelude.Ring.{ring}
use compukter_vm.Execution.Task.{i32_max}
use compukter_vm.Execution.Channel
use compukter_vm.Execution.Channel.{
  Channel, ChannelArena, Waiter, new, no_slot, no_capacity, invalid_capacity, empty_channel,
  empty_waiter, is_some,
}
use compukter_vm.Execution.Channel.Post
use compukter_vm.Execution.Channel.Post.{
  Mailbox, Post, Place, open_post, new_box, sends_to, receives_from,
}
use compukter_vm.Execution.Channel.Shows.{Shows, BoxShows}
use compukter_vm.Execution.Channel.Replies.{Refines}

get_elem?-replicate {ℓ} :
    {A : Type ℓ} (n i : ℕ) (x y : A) → get_elem? (replicate n x) i ≡ some y → y ≡ x
get_elem?-replicate zero i x y g = absurd (ground arith)
get_elem?-replicate (suc n) zero x y g = ground arith
get_elem?-replicate (suc n) (suc i) x y g = get_elem?-replicate n i x y g

-- A new arena has no mailboxes, the given number of cells, and nobody waits.
pub new-Shows :
    (channels values tasks : ℕ) (a : ChannelArena)
    → channels ≤ i32_max
    → values ≤ no_slot
    → tasks ≤ no_slot
    → new (true, true, true) channels values tasks ≡ ok a
    → Shows a (open_post channels values tasks)
unfolding new open_post
new-Shows channels values tasks a hc hv ht e =
    subst
      (λ r. elim r as (λ _. Type 0) [ ok b ↦ Shows b (open_post channels values tasks) | _ ↦ Unit ])
      e
      (record {
        few_values = omega (arith, length-replicate values (pos 0));
        few_waiters = ground (arith, length-replicate tasks empty_waiter);
        few_channels = omega (arith, length-replicate channels empty_channel);
        limited = length-replicate channels empty_channel;
        counted = refl;
        count_ok = omega arith;
        roomy = omega (arith, length-replicate values (pos 0));
        tasks =
            length-replicate (if channels == 0 then 0 else tasks) empty_waiter
            ∙ sym (length-replicate (if channels == 0 then 0 else tasks) none);
        parks = λ x w o gw go.
            ground
              (arith, get_elem?-replicate _ x empty_waiter w gw, get_elem?-replicate _ x none o go);
        boxes = λ i c m gc gm. absurd (ground arith);
        below = λ i c m gc gm. absurd (ground arith);
        apart = λ i j c d m n ne gc gd gm gn. absurd (ground arith);
      })

fresh_box :
    (values : List ℤ) (ws : List Waiter) (ps : List (Option Place)) (i start n : ℕ)
    → 0 < n
    → start + n ≤ length values
    → BoxShows values ws ps i
        (record empty_channel { values_start = start; capacity = n })
        (new_box n)
unfolding ring
fresh_box values ws ps i start n some_cell fits = record {
  sized = refl;
  head_ok = some_cell;
  len_ok = omega arith;
  fits = fits;
  holds = refl;
  senders = record { starts = refl; ends = refl; links = tt };
  receivers = record { starts = refl; ends = refl; links = tt };
}

module _ {a : ChannelArena} {p : Post} (s : Shows a p) (n : ℕ) (some_cell : 0 < n)
    (slot_left : length p.boxes ≢ p.limit) (room : n ≤ p.room) where
  abbrev c' : Channel
  c' = record empty_channel { values_start = a.value_count; capacity = n }

  abbrev boxes' : List Mailbox
  boxes' = p.boxes ++ new_box n ∷ []

  -- The channel and the mailbox at `j` are the new ones, or both are old.
  cases_at :
      (j : ℕ) (d : Channel) (m : Mailbox)
      → get_elem? (set a.channels a.channel_count c') j ≡ some d
      → get_elem? boxes' j ≡ some m
      → ((j ≡ a.channel_count) × (d ≡ c') × (m ≡ new_box n))
        ⊎ ((j ≢ a.channel_count)
            × (get_elem? a.channels j ≡ some d)
            × (get_elem? p.boxes j ≡ some m))
  cases_at j d m gd gm = elim (ℕ_discrete j a.channel_count) [
    | yes q ↦ inl (
      q,
      ground (
        arith,
        get_elem?-set a.channels a.channel_count j c'
            (omega (arith, s.counted, s.count_ok, s.limited)),
      ),
      ground (arith, get_elem?-snoc p.boxes (new_box n) j, s.counted),
    )
    | no q ↦ inr (
      q,
      ground (
        arith,
        get_elem?-set a.channels a.channel_count j c'
            (omega (arith, s.counted, s.count_ok, s.limited)),
      ),
      ground (arith, get_elem?-snoc p.boxes (new_box n) j, s.counted),
    )
  ]

  create-Shows :
      Shows
        (record a {
          channels = set a.channels a.channel_count c';
          channel_count = a.channel_count + 1;
          value_count = a.value_count + n;
        })
        (record p { room = p.room - n; boxes = boxes' })
  create-Shows = record {
    few_values = s.few_values;
    few_waiters = s.few_waiters;
    few_channels = omega (arith, s.few_channels, length-set a.channels a.channel_count c');
    limited = length-set a.channels a.channel_count c' ∙ s.limited;
    counted = omega (arith, s.counted, length-append p.boxes (new_box n ∷ []));
    count_ok = omega (arith, s.count_ok, length-append p.boxes (new_box n ∷ []));
    roomy = omega (arith, s.roomy);
    tasks = s.tasks;
    parks = s.parks;
    boxes = λ j d m gd gm. elim (cases_at j d m gd gm) [
      | inl (q, ed, em) ↦
          rw (ed, em)
            (fresh_box a.values a.waiters p.parked j a.value_count n some_cell
              (omega (arith, s.roomy)))
      | inr (q, gd', gm') ↦ s.boxes j d m gd' gm'
    ];
    below = λ j d m gd gm. elim (cases_at j d m gd gm) [
      | inl (q, ed, em) ↦ rw ed (omega arith)
      | inr (q, gd', gm') ↦ omega (arith, s.below j d m gd' gm')
    ];
    apart = λ j k d e m o ne gd ge gm go. elim (cases_at j d m gd gm) [
      | inl (q, ed, em) ↦ elim (cases_at k e o ge go) [
        | inl (r, ee, eo) ↦ absurd (ne (q ∙ sym r))
        | inr (r, ge', go') ↦ rw ed (inr (s.below k e o ge' go'))
      ]
      | inr (q, gd', gm') ↦ elim (cases_at k e o ge go) [
        | inl (r, ee, eo) ↦ rw ee (inl (s.below j d m gd' gm'))
        | inr (r, ge', go') ↦ s.apart j k d e m o ne gd' ge' gm' go'
      ]
    ];
  }

  create_code : Channel.create (pos n) a ≡ (
    ok (pos (a.channel_count + 1)),
    record a {
      channels = set a.channels a.channel_count c';
      channel_count = a.channel_count + 1;
      value_count = a.value_count + n;
    },
  )
  unfolding Channel.create
  create_code =
      let (d, at_d) =
        lt-get_elem? a.channels a.channel_count (omega (arith, s.counted, s.count_ok, s.limited)) in
      ground (
        arith, some_cell, slot_left, room, s.counted, s.limited, s.count_ok, s.few_channels,
        s.roomy, s.few_values, at_d,
      )

  create_box :
      Post.create (pos n) p
      ≡ (ok (pos (length p.boxes + 1)), record p { room = p.room - n; boxes = boxes' })
  unfolding Post.create
  create_box = ground (arith, some_cell, slot_left, room)

  create-Refines_box : Refines (Channel.create (pos n) a) (Post.create (pos n) p)
  create-Refines_box =
      rw (create_code, create_box) (ap (λ (t : ℕ). ok (pos (t + 1))) s.counted, create-Shows)

-- For an arena that shows mailboxes, `create` answers as they do, errors included, and the arena then
-- shows what they then are.
pub create-Refines :
    {a : ChannelArena} {p : Post}
    → Shows a p
    → (capacity : ℤ) → Refines (Channel.create capacity a) (Post.create capacity p)
unfolding Channel.create Post.create
create-Refines {a} {p} s (negsuc n) = (refl, s)
create-Refines {a} {p} s (pos n) = elim (ℕ_discrete n 0) [
  | yes none_asked ↦ ground (arith, none_asked, s)
  | no some_asked ↦ elim (ℕ_discrete (length p.boxes) p.limit) [
    | yes used ↦ ground (arith, some_asked, used, s.counted, s.limited, s)
    | no slot_left ↦ elim (Bool-cases (ltb p.room n)) [
      | inl short ↦
          ground
            (arith, some_asked, slot_left, short, s.counted, s.limited, s.roomy, s.few_values, s)
      | inr room ↦ create-Refines_box s n (omega arith) slot_left (ground arith)
    ]
  ]
]
