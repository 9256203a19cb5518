-- ===== src/Runtime/Scheduler/Types.antt =====
-- crates/nexos-runtime/src/scheduler.rs: tasks, their states, and the scheduler that holds them.
use nix_os.Prelude.{ℕ, Bool, true, false, Option, List}
use nix_os.Prelude.Int.{ℤ}

-- `TaskId(u32)`
abbrev pub TaskId : Type 0
TaskId = ℕ

pub data TaskState : Type 0 where
  ready running : TaskState
  sleeping : ℕ → TaskState
  blocked : TaskState
  exited : ℤ → TaskState

pub record CpuContext : Type 0 where
  pub r15 : ℕ
  pub r14 : ℕ
  pub r13 : ℕ
  pub r12 : ℕ
  pub rbx : ℕ
  pub rbp : ℕ
  pub instruction_pointer : ℕ
  pub stack_pointer : ℕ
  pub flags : ℕ
  pub address_space : ℕ

pub record Task : Type 0 where
  pub id : TaskId
  pub process_id : ℕ
  pub state : TaskState
  pub context : CpuContext

pub data SchedulerError : Type 0 where
  full no_current_task task_not_found invalid_quantum : SchedulerError

pub data ScheduleDecision : Type 0 where
  continue_task : TaskId → ScheduleDecision
  switch_task : Option TaskId → TaskId → ScheduleDecision
  idle : ScheduleDecision

pub record Scheduler : Type 0 where
  pub tasks : List (Option Task)
  pub next_id : ℕ
  pub current : Option ℕ
  pub quantum_ticks : ℕ
  pub remaining_ticks : ℕ
  pub context_switches : ℕ

abbrev pub is_ready : TaskState → Bool
is_ready ready = true
is_ready _ = false

abbrev pub is_running : TaskState → Bool
is_running running = true
is_running _ = false

abbrev pub is_exited : TaskState → Bool
is_exited (exited _) = true
is_exited _ = false

abbrev pub set_state : TaskState → Task → Task
set_state st t = record t { state = st }
