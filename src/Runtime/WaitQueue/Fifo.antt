-- ===== src/Runtime/WaitQueue/Fifo.antt =====
-- The wait queue is a bounded first-in first-out queue.
use nix_os.Prelude.{
  ℕ, zero, suc, ◌+◌, ◌-◌, ◌≡◌, refl, ap, Option, none, some, List, [], ◌∷◌, ◌++◌, arith, length,
  set, replicate, slot, is_none, is_some, position, Result, ok, err, ◌==◌, if◌then◌else◌,
}
use nix_os.Runtime.Scheduler.{TaskId, SchedulerError}
use nix_os.Runtime.WaitQueue.{WaitQueue, new, push, shift_down, pop}

-- The array that holds the tasks `ts`, oldest first, and `free` empty places behind them.
pub holding : List TaskId → ℕ → WaitQueue
holding [] free = replicate free none
holding (t ∷ ts) free = some t ∷ holding ts free

length-holding : (ts : List TaskId) (free : ℕ) → length (holding ts free) ≡ length ts + free
unfolding holding
length-holding [] zero = omega arith
length-holding [] (suc free) = omega (arith, length-holding [] free)
length-holding (t ∷ ts) free = omega (arith, length-holding ts free)

first_free :
    (ts : List TaskId) (free : ℕ)
    → position is_none (holding ts free) ≡ (if free == 0 then none else some (length ts))
unfolding holding position
first_free [] zero = refl
first_free [] (suc free) = ground arith
first_free (t ∷ ts) free = ground (arith, first_free ts free)

set_free :
    (ts : List TaskId) (t : TaskId) (free : ℕ)
    → set (holding ts (suc free)) (length ts) (some t) ≡ holding (ts ++ t ∷ []) free
unfolding holding
set_free [] t free = refl
set_free (u ∷ ts) t free = ap (λ q. some u ∷ q) (set_free ts t free)

-- `push` on a queue of `ts` with `free` places: `Full`, with nothing changed, exactly if there is none.
pub push-holding :
    (t : TaskId) (ts : List TaskId) (free : ℕ)
    → push t (holding ts free) ≡ (
        if free == 0
        then (err SchedulerError.full, holding ts free)
        else (ok tt, holding (ts ++ t ∷ []) (free - 1)))
unfolding push
push-holding t ts zero = ground (arith, first_free ts 0)
push-holding t ts (suc free) = ground (arith, first_free ts (suc free), set_free ts t free)

push-holding_free :
    (t : TaskId) (ts : List TaskId) (free : ℕ)
    → push t (holding ts (suc free)) ≡ (ok tt, holding (ts ++ t ∷ []) free)
push-holding_free t ts free = ground (arith, push-holding t ts (suc free))

-- The loop of `pop`, one place further on.
shift_down-cons :
    (n i : ℕ) (x : Option TaskId) (q : WaitQueue)
    → shift_down n (suc i) (x ∷ q) ≡ x ∷ shift_down n i q
unfolding shift_down
shift_down-cons zero i x q = refl
shift_down-cons (suc n) i x q =
    let e : suc i + 1 ≡ suc (i + 1) = omega arith in
    rw e (shift_down-cons n (i + 1) x (set q i (slot q (i + 1))))

shift_all :
    (x : Option TaskId) (q : WaitQueue)
    → set (shift_down (length q) 0 (x ∷ q)) (length q) none ≡ q ++ none ∷ []
unfolding shift_down
shift_all x [] = refl
shift_all x (y ∷ q) = rw shift_down-cons (ap (λ r. y ∷ r) (shift_all y q))

holding-free : (ts : List TaskId) (free : ℕ) → holding ts free ++ none ∷ [] ≡ holding ts (suc free)
unfolding holding
holding-free [] zero = refl
holding-free [] (suc free) = ap (λ q. none ∷ q) (holding-free [] free)
holding-free (t ∷ ts) free = ap (λ q. some t ∷ q) (holding-free ts free)

no_waiter : (free : ℕ) → position is_some (holding [] free) ≡ none
unfolding holding position
no_waiter zero = refl
no_waiter (suc free) = ground (arith, no_waiter free)

pub pop-holding :
    (t : TaskId) (ts : List TaskId) (free : ℕ)
    → pop (holding (t ∷ ts) free) ≡ (some t, holding ts (suc free))
unfolding pop position holding
pop-holding t ts free =
    let last : suc (length (holding ts free)) - 1 ≡ length (holding ts free) = omega arith in
    let rounds : suc (length (holding ts free)) - 1 - 0 ≡ length (holding ts free) = omega arith in
    ground (arith, last, rounds, shift_all (some t) (holding ts free), holding-free ts free)

pub pop-holding_nil : (free : ℕ) → pop (holding [] free) ≡ (none, holding [] free)
unfolding pop
pop-holding_nil free = ground (arith, no_waiter free)

pub data Call : Type 0 where
  pushes : TaskId → Call
  pops : Call

pub data Reply : Type 0 where
  accepted refused : Reply
  popped : Option TaskId → Reply

abbrev pub reply_to_push : Result SchedulerError Unit → Reply
reply_to_push (ok u) = accepted
reply_to_push (err e) = refused

-- The replies of a queue to a row of calls.
unfoldable pub run : List Call → WaitQueue → List Reply
run [] q = []
run (pushes t ∷ cs) q = let (r, q') = push t q in reply_to_push r ∷ run cs q'
run (pops ∷ cs) q = let (r, q') = pop q in popped r ∷ run cs q'

-- What a first-in first-out queue of the tasks `ts` answers, with room for `free` more.
pub expected : List Call → List TaskId → ℕ → List Reply
expected [] ts free = []
expected (pushes t ∷ cs) ts zero = refused ∷ expected cs ts zero
expected (pushes t ∷ cs) ts (suc free) = accepted ∷ expected cs (ts ++ t ∷ []) free
expected (pops ∷ cs) [] free = popped none ∷ expected cs [] free
expected (pops ∷ cs) (t ∷ ts) free = popped (some t) ∷ expected cs ts (suc free)

run-holding :
    (cs : List Call) (ts : List TaskId) (free : ℕ) → run cs (holding ts free) ≡ expected cs ts free
unfolding run expected
run-holding [] ts free = refl
run-holding (pushes t ∷ cs) ts zero =
    rw (push-holding t ts 0) (ap (λ r. refused ∷ r) (run-holding cs ts 0))
run-holding (pushes t ∷ cs) ts (suc free) =
    rw (push-holding_free t ts free) (ap (λ r. accepted ∷ r) (run-holding cs (ts ++ t ∷ []) free))
run-holding (pops ∷ cs) [] free =
    rw (pop-holding_nil free) (ap (λ r. popped none ∷ r) (run-holding cs [] free))
run-holding (pops ∷ cs) (t ∷ ts) free =
    rw (pop-holding t ts free) (ap (λ r. popped (some t) ∷ r) (run-holding cs ts (suc free)))

-- No row of calls tells a new wait queue from a first-in first-out queue of `waiters` places: tasks
-- come out in the order they went in, and a push is refused exactly when the queue is full.
pub wait_queue-IsFifo :
    (waiters : ℕ) (cs : List Call) → run cs (new waiters) ≡ expected cs [] waiters
unfolding new holding
wait_queue-IsFifo waiters cs = run-holding cs [] waiters
