-- ===== src/Execution/Channel/Queues.antt =====
-- Tasks in and out of the queues of waiters.
use compukter_vm.Prelude.{
  ℕ, ◌≤◌, ◌<◌, ◌≡◌, ◌≢◌, refl, sym, ap, Option, none, some, Bool, List, [], ◌∷◌, All, length,
  get_elem?, set, ok, arith, ◌==◌, if◌then◌else◌, get_elem?-lt, get_elem?-set, get_elem?-set_ne,
}
use compukter_vm.Execution.Channel.{
  Waiter, Channel, ChannelArena, no_slot, empty_waiter, is_some, ends, with_ends, pop_waiter,
}
use compukter_vm.Execution.Channel.Post.{Place, Post}
use compukter_vm.Execution.Channel.Line.{
  Entry, Line, Links, Same, Away, waiter_of, first, last, Links-frame,
}
use compukter_vm.Execution.Channel.Shows.{Shows, Parks}

-- A slot of a waiter is not `NONE`.
pub first-ne :
    (ws : List Waiter) (ps : List (Option Place)) (k : Place) (e : Entry) (es : List Entry)
    → length ws ≤ no_slot
    → Links ws ps k (e ∷ es)
    → (first (e ∷ es) ≢ no_slot) × (last (e ∷ es) ≢ no_slot)
first-ne ws ps k e [] few l =
    let lt = get_elem?-lt ws e.slot l.0 in (omega (arith, lt), omega (arith, lt))
first-ne ws ps k e (f ∷ es) few l =
    (omega (arith, get_elem?-lt ws e.slot l.0), (first-ne ws ps k f es few l.3).1)

-- The last waiter that leaves is the tail too.
new_tail :
    (ws : List Waiter) (ps : List (Option Place)) (k : Place) (e : Entry) (es : List Entry)
    → length ws ≤ no_slot
    → Links ws ps k (e ∷ es)
    → (if first es == no_slot then no_slot else last (e ∷ es)) ≡ last es
new_tail ws ps k e [] few l = refl
new_tail ws ps k e (f ∷ es) few l = ground (arith, first-ne ws ps k f es few l.3)

Away-Same :
    (ws : List Waiter) (ps : List (Option Place)) (x : ℕ) (w : Waiter) (o : Option Place)
    (es : List Entry)
    → Away x es
    → All (λ e. Same ws (set ws x w) ps (set ps x o) e.slot) es
Away-Same ws ps x w o [] a = tt
Away-Same ws ps x w o (e ∷ es) a = (
  (
    get_elem?-set_ne ws x e.slot w (λ q. a.0 (sym q)),
    get_elem?-set_ne ps x e.slot o (λ q. a.0 (sym q)),
  ),
  Away-Same ws ps x w o es a.1,
)

Parks-set :
    (ws : List Waiter) (ps : List (Option Place)) (x : ℕ) (w : Waiter) (o : Option Place)
    → Parks ws ps
    → x < length ws
    → x < length ps
    → is_some w.task ≡ is_some o
    → Parks (set ws x w) (set ps x o)
Parks-set ws ps x w o h lw lp e y v q gv gq =
    ground (arith, get_elem?-set ws x y w lw, get_elem?-set ps x y o lp, h y v q)

module _ {a : ChannelArena} {p : Post} (s : Shows a p) (i : ℕ) (c : Channel)
    (at_c : get_elem? a.channels i ≡ some c) (send : Bool) (k : Place) where
  -- The first waiter leaves its queue.
  module _ (e : Entry) (es : List Entry)
      (line : Line a.waiters p.parked k ((ends send c).0) ((ends send c).1) (e ∷ es)) where
    pub pop_waiter_lem : pop_waiter i send a ≡ (
      ok (waiter_of e (first es)),
      record a {
        channels = set a.channels i (with_ends send (first es) (last es) c);
        waiters = set a.waiters e.slot empty_waiter;
      },
    )
    unfolding pop_waiter
    pop_waiter_lem = ground (
      arith,
      at_c,
      line.starts,
      line.ends,
      line.links.0,
      new_tail a.waiters p.parked k e es s.few_waiters line.links,
    )

    pub pop-Line :
        Line
          (set a.waiters e.slot empty_waiter)
          (set p.parked e.slot none)
          k
          (first es)
          (last es)
          es
    pop-Line = record {
      starts = refl;
      ends = refl;
      links =
          Links-frame _ _ _ _ k es
            (Away-Same a.waiters p.parked e.slot empty_waiter none es line.links.2) line.links.3;
    }

    pub pop-Parks : Parks (set a.waiters e.slot empty_waiter) (set p.parked e.slot none)
    pop-Parks =
        Parks-set a.waiters p.parked e.slot empty_waiter none s.parks
          (get_elem?-lt a.waiters e.slot line.links.0) (get_elem?-lt p.parked e.slot line.links.1)
          refl

    pub pop-Same :
        (x : ℕ) (k' : Place)
        → k' ≢ k
        → get_elem? p.parked x ≡ some (some k')
        → Same a.waiters (set a.waiters e.slot empty_waiter) p.parked (set p.parked e.slot none) x
    pop-Same x k' ne g =
        let away : e.slot ≢ x = λ q. ne (cc (g, line.links.1, ap (get_elem? p.parked) q)) in
        (
          get_elem?-set_ne a.waiters e.slot x empty_waiter away,
          get_elem?-set_ne p.parked e.slot x none away,
        )
