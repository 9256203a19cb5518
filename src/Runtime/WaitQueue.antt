-- ===== src/Runtime/WaitQueue.antt =====
-- crates/nexos-runtime/src/scheduler.rs: `WaitQueue<WAITERS>`, tasks that wait for an event.
pub mod Fifo
mod Tests
use nix_os.Prelude.{
  ℕ, zero, suc, ◌+◌, ◌-◌, ◌%◌, Option, none, some, List, [], ◌∷◌, length, set, replicate, slot,
  is_none, is_some, position, Result, ok, err, ◌==◌, if◌then◌else◌,
}
use nix_os.Runtime.Scheduler.{TaskId, SchedulerError, full}

-- `[Option<TaskId>; WAITERS]`
abbrev pub WaitQueue : Type 0
WaitQueue = List (Option TaskId)

pub new : ℕ → WaitQueue
new waiters = replicate waiters none

pub push : TaskId → WaitQueue → Result SchedulerError Unit × WaitQueue
push task q = elim (position is_none q) [
  | none ↦ (err full, q)
  | some i ↦ (ok tt, set q i (some task))
]

-- `for position in index..WAITERS - 1 { waiters[position] = waiters[position + 1] }`, with the number
-- of rounds left.
pub shift_down : ℕ → ℕ → WaitQueue → WaitQueue
shift_down zero i q = q
shift_down (suc n) i q = shift_down n (i + 1) (set q i (slot q (i + 1)))

pub pop : WaitQueue → Option TaskId × WaitQueue
pop q = elim (position is_some q) [
  | none ↦ (none, q)
  | some i ↦
      let shifted = shift_down (length q - 1 - i) i q in
      (slot q i, if length q == 0 then shifted else set shifted (length q - 1) none)
]
