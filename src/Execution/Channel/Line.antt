-- ===== src/Execution/Channel/Line.antt =====
-- The queues of waiters: entries that are linked through `next` over the array of waiters.
use compukter_vm.Prelude.{
  ℕ, ◌≡◌, ◌≢◌, sym, Option, none, some, List, [], ◌∷◌, ◌++◌, ◌∙◌, get_elem?, All, All-append, ap,
}
use compukter_vm.Execution.Task.{TaskId}
use compukter_vm.Execution.Channel.{WaitKind, Waiter, no_slot}
use compukter_vm.Execution.Channel.Post.{Place}

pub record Entry : Type 0 where
  pub slot : ℕ
  pub task : TaskId
  pub kind : WaitKind

abbrev pub first : List Entry → ℕ
first [] = no_slot
first (e ∷ es) = e.slot

abbrev pub last : List Entry → ℕ
last [] = no_slot
last (e ∷ []) = e.slot
last (e ∷ f ∷ es) = last (f ∷ es)

abbrev pub waiter_of : Entry → ℕ → Waiter
waiter_of e next = record { task = some e.task; next = next; kind = e.kind }

abbrev pub Away : ℕ → List Entry → Type 0
Away x = All (λ e. e.slot ≢ x)

-- The entries stand in their slots, each one points to the next, and all wait at `k`.
abbrev pub Links : List Waiter → List (Option Place) → Place → List Entry → Type 0
Links ws ps k [] = Unit
Links ws ps k (e ∷ es) =
    (get_elem? ws e.slot ≡ some (waiter_of e (first es)))
    × (get_elem? ps e.slot ≡ some (some k))
    × Away e.slot es
    × Links ws ps k es

pub record Line (ws : List Waiter) (ps : List (Option Place)) (k : Place) (head tail : ℕ)
    (es : List Entry) : Type 0 where
  pub starts : head ≡ first es
  pub ends : tail ≡ last es
  pub links : Links ws ps k es

-- The slot `x` is as it was.
abbrev pub Same : (ws ws' : List Waiter) (ps ps' : List (Option Place)) → ℕ → Type 0
Same ws ws' ps ps' x = (get_elem? ws' x ≡ get_elem? ws x) × (get_elem? ps' x ≡ get_elem? ps x)

-- Who waits elsewhere is not in the queue.
pub Links-Away :
    (ws : List Waiter) (ps : List (Option Place)) (k : Place) (x : ℕ) (o : Option Place)
    (es : List Entry)
    → get_elem? ps x ≡ some o
    → o ≢ some k
    → Links ws ps k es
    → Away x es
Links-Away ws ps k x o [] g n l = tt
Links-Away ws ps k x o (e ∷ es) g n l =
    ((λ q. n (cc (g, l.1, ap (get_elem? ps) q))), Links-Away ws ps k x o es g n l.3)

Away-last : {x : ℕ} (e : Entry) (es : List Entry) → Away x (e ∷ es) → last (e ∷ es) ≢ x
Away-last e [] a = a.0
Away-last e (f ∷ es) a = Away-last f es a.1

module _ (ws ws' : List Waiter) (ps ps' : List (Option Place)) (k : Place) where
  -- A queue survives changes to the slots of others.
  pub Links-frame :
      (es : List Entry)
      → All (λ e. Same ws ws' ps ps' e.slot) es
      → Links ws ps k es
      → Links ws' ps' k es
  Links-frame [] same l = tt
  Links-frame (e ∷ es) same l = (same.0.0 ∙ l.0, same.0.1 ∙ l.1, l.2, Links-frame es same.1 l.3)

  pub Links-Same :
      (es : List Entry)
      → ((x : ℕ) → get_elem? ps x ≡ some (some k) → Same ws ws' ps ps' x)
      → Links ws ps k es
      → All (λ e. Same ws ws' ps ps' e.slot) es
  Links-Same [] same l = tt
  Links-Same (e ∷ es) same l = (same e.slot l.1, Links-Same es same l.3)

  -- An entry is added behind the last one, which now points to it.
  pub Links-append :
      (es : List Entry) (n : Entry)
      → get_elem? ps n.slot ≡ some none
      → get_elem? ws' n.slot ≡ some (waiter_of n no_slot)
      → get_elem? ps' n.slot ≡ some (some k)
      → ((x : ℕ) → x ≢ n.slot → get_elem? ps' x ≡ get_elem? ps x)
      → ((x : ℕ) → x ≢ n.slot → x ≢ last es → get_elem? ws' x ≡ get_elem? ws x)
      → ((e : Entry)
          → get_elem? ws (last es) ≡ some (waiter_of e no_slot)
          → get_elem? ws' (last es) ≡ some (waiter_of e n.slot))
      → Links ws ps k es
      → Links ws' ps' k (es ++ n ∷ [])
  Links-append [] n free new parked others same tail l = (new, parked, tt, tt)
  Links-append (e ∷ []) n free new parked others same tail l = (
    tail e l.0,
    others e.slot (λ q. cc (l.1, free, ap (get_elem? ps) q)) ∙ l.1,
    ((λ q. cc (l.1, free, ap (get_elem? ps) q)), tt),
    (new, parked, tt, tt),
  )
  Links-append (e ∷ f ∷ es) n free new parked others same tail l =
      let apart : e.slot ≢ n.slot = λ q. cc (l.1, free, ap (get_elem? ps) q) in
      (
        same e.slot apart (λ q. Away-last f es l.2 (sym q)) ∙ l.0,
        others e.slot apart ∙ l.1,
        All-append (λ g. g.slot ≢ e.slot) (f ∷ es) (n ∷ []) l.2 ((λ q. apart (sym q)), tt),
        Links-append (f ∷ es) n free new parked others same tail l.3,
      )
