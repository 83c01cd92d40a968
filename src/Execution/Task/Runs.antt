-- ===== src/Execution/Task/Runs.antt =====
-- Histories of the scheduler: any sequence of calls after `TaskScheduler::new`.
use compukter_vm.Prelude.{
  ℕ, zero, suc, ◌≤◌, ◌<◌, ◌≡◌, inl, inr, refl, sym, ap, subst, none, some, true, false, List, [],
  ◌∷◌, length, get_elem?, replicate, count, arith, Result, ok, length-replicate,
}
use compukter_vm.Prelude.Ring.{ring}
use compukter_vm.Execution.Task.{
  TaskId, RequestId, TaskState, TaskScheduler, TaskError, i32_max, empty, is_vacant, is_ready,
  is_running, waits_host, waits_channel, new, no_slot,
}
use compukter_vm.Execution.Task.Calls.{
  start_root, spawn, suspend_host, suspend_channel, join, complete_current, complete_host,
  complete_channel, activate_next, cancel_all,
}
use compukter_vm.Execution.Task.Invariant.{Inv}
use compukter_vm.Execution.Task.Operations.{
  Sound, suspend-Sound, wake-Sound, spawn-Sound, start_root-Sound, activate_next-Sound,
}
use compukter_vm.Execution.Task.Joins.{complete_current-Sound, join-Sound}

pub data Call : Type 0 where
  starts spawns completes activates cancels_all : Call
  suspends_host : RequestId → Call
  suspends_channel : ℕ → Call
  joins : TaskId → Call
  completes_host : TaskId → RequestId → Call
  completes_channel : TaskId → ℕ → Call

-- The scheduler after a call, whatever its result.
unfoldable pub step : TaskScheduler → Call → TaskScheduler
step s starts = (start_root s).1
step s spawns = (spawn s).1
step s completes = (complete_current s).1
step s activates = (activate_next s).1
step s cancels_all = cancel_all s
step s (suspends_host r) = (suspend_host r s).1
step s (suspends_channel c) = (suspend_channel c s).1
step s (joins t) = (join t s).1
step s (completes_host t r) = (complete_host t r s).1
step s (completes_channel t c) = (complete_channel t c s).1

unfoldable pub run : TaskScheduler → List Call → TaskScheduler
run s [] = s
run s (c ∷ cs) = run (step s c) cs

-- The promise of `Operations` for the call's own operation.
abbrev pub Accepts : TaskScheduler → Call → Type 0
Accepts s starts = Sound s (start_root s)
Accepts s spawns = Sound s (spawn s)
Accepts s completes = Sound s (complete_current s)
Accepts s activates = Sound s (activate_next s)
Accepts s cancels_all = Inv (cancel_all s)
Accepts s (suspends_host r) = Sound s (suspend_host r s)
Accepts s (suspends_channel c) = Sound s (suspend_channel c s)
Accepts s (joins t) = Sound s (join t s)
Accepts s (completes_host t r) = Sound s (complete_host t r s)
Accepts s (completes_channel t c) = Sound s (complete_channel t c s)

replicate-get : {A : Type 0} (n i : ℕ) (a b : A) → get_elem? (replicate n a) i ≡ some b → b ≡ a
replicate-get zero i a b e = absurd (ground arith)
replicate-get (suc n) zero a b e = ground arith
replicate-get (suc n) (suc i) a b e = replicate-get n i a b e

count-replicate : (n : ℕ) → count (λ t. is_ready t.state) (replicate n empty) ≡ 0
count-replicate zero = refl
count-replicate (suc n) = count-replicate n

blank-Inv :
    (s : TaskScheduler) (n : ℕ)
    → s.tasks ≡ replicate n empty
    → s.ready_slots ≡ replicate n no_slot
    → s.ready_head ≡ 0
    → s.ready_len ≡ 0
    → s.active ≡ none
    → 0 < n
    → 2 ≤ s.next_id
    → s.next_id ≤ suc i32_max
    → Inv s
blank-Inv s n t r h l a pos lo hi = record {
  sized = rw (t, r, length-replicate n empty, length-replicate n no_slot);
  head_ok = rw (h, t, length-replicate n empty) pos;
  next_lo = lo;
  next_hi = hi;
  active_lt = λ i e. cc;
  counted = rw (t, l, count-replicate n);
  queued = unfold ring in rw l tt;
  distinct = unfold ring in rw l tt;
  records = record {
    owned = λ i u g. inl (ground (arith, replicate-get n i empty u (rw t at g)));
    runs = λ i u g. ground (arith, replicate-get n i empty u (rw t at g));
    unique =
        λ i j u w k gi gj ui wj. absurd (ground (arith, replicate-get n i empty u (rw t at gi)));
  };
  rooted = λ e i u g. ground (arith, replicate-get n i empty u (rw t at g));
}

cancel_all-Inv : (s : TaskScheduler) → Inv s → Inv (cancel_all s)
unfolding cancel_all
cancel_all-Inv s v =
    blank-Inv _ (length s.tasks) refl (rw v.sized) refl refl refl (omega (arith, v.head_ok))
      v.next_lo v.next_hi

host_waits :
    (r : RequestId) (st : TaskState)
    → waits_host r st ≡ true
    → (is_ready st ≡ false) × (is_running st ≡ false) × (is_vacant st ≡ false)
host_waits r st h = ground arith

channel_waits :
    (c : ℕ) (st : TaskState)
    → waits_channel c st ≡ true
    → (is_ready st ≡ false) × (is_running st ≡ false) × (is_vacant st ≡ false)
channel_waits c st h = ground arith

-- Every call but `cancel_all` on a well-formed scheduler returns, without a panic and without `CorruptQueue`. If it
-- succeeds, the scheduler stays well formed and its ready queue changed at its ends alone (slots
-- joined at the back, or the front one left); if it fails, the scheduler is as it was.
pub call-Sound : (s : TaskScheduler) (c : Call) → Inv s → Accepts s c
unfolding suspend_host suspend_channel complete_host complete_channel
call-Sound s starts v = start_root-Sound s v
call-Sound s spawns v = spawn-Sound s v
call-Sound s completes v = complete_current-Sound s v
call-Sound s activates v = activate_next-Sound s v
call-Sound s cancels_all v = cancel_all-Inv s v
call-Sound s (suspends_host r) v = suspend-Sound s _ v
call-Sound s (suspends_channel c) v = suspend-Sound s _ v
call-Sound s (joins t) v = join-Sound s t v
call-Sound s (completes_host t r) v = wake-Sound s (waits_host r) t (host_waits r) v
call-Sound s (completes_channel t c) v = wake-Sound s (waits_channel c) t (channel_waits c) v

Sound-Inv :
    {A : Type 0} (s : TaskScheduler) (out : Result TaskError A × TaskScheduler)
    → Inv s
    → Sound s out
    → Inv out.1
Sound-Inv s out v (inl (a, e, w, f)) = w
Sound-Inv s out v (inr (x, e, n)) = subst Inv (sym (ap (λ o. o.1) e)) v

step-Inv : (s : TaskScheduler) (c : Call) → Inv s → Inv (step s c)
unfolding step
step-Inv s starts v = Sound-Inv s _ v (call-Sound s starts v)
step-Inv s spawns v = Sound-Inv s _ v (call-Sound s spawns v)
step-Inv s completes v = Sound-Inv s _ v (call-Sound s completes v)
step-Inv s activates v = Sound-Inv s _ v (call-Sound s activates v)
step-Inv s cancels_all v = cancel_all-Inv s v
step-Inv s (suspends_host r) v = Sound-Inv s _ v (call-Sound s (suspends_host r) v)
step-Inv s (suspends_channel c) v = Sound-Inv s _ v (call-Sound s (suspends_channel c) v)
step-Inv s (joins t) v = Sound-Inv s _ v (call-Sound s (joins t) v)
step-Inv s (completes_host t r) v = Sound-Inv s _ v (call-Sound s (completes_host t r) v)
step-Inv s (completes_channel t c) v = Sound-Inv s _ v (call-Sound s (completes_channel t c) v)

pub run-Inv : (s : TaskScheduler) (cs : List Call) → Inv s → Inv (run s cs)
unfolding run
run-Inv s [] v = v
run-Inv s (c ∷ cs) v = run-Inv (step s c) cs (step-Inv s c v)

pub new-Inv : (capacity : ℕ) (s : TaskScheduler) → new true capacity ≡ ok s → Inv s
unfolding new
new-Inv capacity s e =
    blank-Inv s capacity (ground arith) (ground arith) (ground arith) (ground arith) (ground arith)
      (ground arith) (ground arith) (ground arith)

-- After `new` and any calls, successful or not, a further call returns without a panic and without
-- `CorruptQueue`. If it succeeds, the scheduler is well formed and its ready queue changed at its ends
-- alone (slots joined at the back, or the front one left); if it fails, the scheduler is as it
-- was. `cancel_all` leaves a well-formed scheduler.
pub history-Sound :
    (capacity : ℕ) (s : TaskScheduler) (cs : List Call) (c : Call)
    → new true capacity ≡ ok s
    → Accepts (run s cs) c
history-Sound capacity s cs c e = call-Sound (run s cs) c (run-Inv s cs (new-Inv capacity s e))
