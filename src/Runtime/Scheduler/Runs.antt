-- ===== src/Runtime/Scheduler/Runs.antt =====
-- Whole runs of the scheduler: any sequence of calls, from an empty table.
use nix_os.Prelude.{
  ℕ, ◌+◌, ◌^◌, ◌≤◌, ◌<◌, ◌≡◌, refl, Option, none, some, List, [], ◌∷◌, arith, length,
}
use nix_os.Prelude.Int.{ℤ}
use nix_os.Runtime.Scheduler.{
  TaskId, CpuContext, Scheduler, with_quantum, spawn, schedule, tick, sleep_current, block_current,
  exit_current, wake, exit_task, reap,
}
use nix_os.Runtime.Scheduler.Valid.{IsValid, with_quantum-IsValid}
use nix_os.Runtime.Scheduler.Steps.{Returns, schedule-Returns, tick-Returns, stop_current-Returns}
use nix_os.Runtime.Scheduler.Table.{spawn-IsValid, wake-IsValid, reap-IsValid, exit_task-Returns}

-- The calls that the kernel makes on its scheduler.
pub data Call : Type 0 where
  spawns : ℕ → CpuContext → Call
  schedules ticks sleeps : ℕ → Call
  blocks : Call
  exits : ℤ → Call
  wakes reaps : TaskId → Call
  ends : TaskId → ℤ → Call

-- The scheduler after a call; `none` is a panic.
abbrev after_panic : {A : Type 0} → Option (A × Scheduler) → Option Scheduler
after_panic none = none
after_panic (some (a, s)) = some s

pub call : Call → Scheduler → Option Scheduler
call (spawns process_id context) s = some (spawn process_id context s).1
call (schedules now) s = after_panic (schedule now s)
call (ticks now) s = after_panic (tick now s)
call (sleeps wake_tick) s = after_panic (sleep_current wake_tick s)
call blocks s = after_panic (block_current s)
call (exits status) s = after_panic (exit_current status s)
call (wakes id) s = some (wake id s).1
call (reaps id) s = some (reap id s).1
call (ends id status) s = after_panic (exit_task id status s)

pub calls : List Call → Scheduler → Option Scheduler
calls [] s = some s
calls (c ∷ cs) s = elim (call c s) [ none ↦ none | some s' ↦ calls cs s' ]

record Survives (before : ℕ) (m : Option Scheduler) : Type 0 where
  after : Scheduler
  returned : m ≡ some after
  valid : IsValid after
  ids_used : after.next_id ≤ before + 1

Survives-Returns :
    {A : Type 0} (n : ℕ) (m : Option (A × Scheduler)) → Returns n m → Survives n (after_panic m)
Survives-Returns n m r = record {
  after = r.after;
  returned = rw r.returned;
  valid = r.valid;
  ids_used = omega (arith, r.next);
}

next_id-spawn :
    (process_id : ℕ) (context : CpuContext) (s : Scheduler)
    → (spawn process_id context s).1.next_id ≤ s.next_id + 1
unfolding spawn
next_id-spawn process_id context s = ground arith

next_id-wake : (id : TaskId) (s : Scheduler) → (wake id s).1.next_id ≡ s.next_id
unfolding wake
next_id-wake id s = ground arith

next_id-reap : (id : TaskId) (s : Scheduler) → (reap id s).1.next_id ≡ s.next_id
unfolding reap
next_id-reap id s = ground arith

call-Survives :
    {s : Scheduler} (c : Call) → s.next_id + 1 < 2 ^ 32 → IsValid s → Survives s.next_id (call c s)
unfolding call sleep_current block_current exit_current
call-Survives {s} (spawns p x) small v = record {
  after = (spawn p x s).1;
  returned = refl;
  valid = spawn-IsValid p x small v;
  ids_used = next_id-spawn p x s;
}
call-Survives {s} (schedules now) small v = Survives-Returns _ _ (schedule-Returns now v)
call-Survives {s} (ticks now) small v = Survives-Returns _ _ (tick-Returns now v)
call-Survives {s} (sleeps n) small v = Survives-Returns _ _ (stop_current-Returns _ refl v)
call-Survives {s} blocks small v = Survives-Returns _ _ (stop_current-Returns _ refl v)
call-Survives {s} (exits status) small v = Survives-Returns _ _ (stop_current-Returns _ refl v)
call-Survives {s} (wakes id) small v = record {
  after = (wake id s).1;
  returned = refl;
  valid = wake-IsValid id v;
  ids_used = omega (arith, next_id-wake id s);
}
call-Survives {s} (reaps id) small v = record {
  after = (reap id s).1;
  returned = refl;
  valid = reap-IsValid id v;
  ids_used = omega (arith, next_id-reap id s);
}
call-Survives {s} (ends id status) small v = Survives-Returns _ _ (exit_task-Returns id status v)

calls-IsValid :
    (cs : List Call) {s : Scheduler}
    → s.next_id + length cs < 2 ^ 32
    → IsValid s
    → (s' : Scheduler) × (calls cs s ≡ some s') × IsValid s'
unfolding calls
calls-IsValid [] {s} small v = (s, refl, v)
calls-IsValid (c ∷ cs) {s} small v =
    let first = call-Survives c (omega arith) v in
    rw (first.returned, calls) (calls-IsValid cs (omega (arith, first.ids_used)) first.valid)

-- From an empty table of any size and any quantum, no sequence of fewer than 2^32 - 1 calls
-- (spawn, schedule, tick, sleep, block, exit, wake, end, reap, in any order and with any arguments)
-- panics; afterwards the task ids are distinct, and the running task is exactly the current one.
pub calls_safe :
    (slots quantum : ℕ) (cs : List Call)
    → length cs + 1 < 2 ^ 32
    → (s : Scheduler) × (calls cs (with_quantum slots quantum) ≡ some s) × IsValid s
unfolding with_quantum
calls_safe slots quantum cs small =
    calls-IsValid cs (omega arith) (with_quantum-IsValid slots quantum)
