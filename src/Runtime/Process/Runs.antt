-- ===== src/Runtime/Process/Runs.antt =====
-- Whole runs of the process table: any sequence of calls, from an empty table.
use nix_os.Prelude.{ℕ, ◌+◌, ◌^◌, ◌≤◌, ◌<◌, Option, List, [], ◌∷◌, arith, length}
use nix_os.Prelude.Int.{ℤ}
use nix_os.Runtime.Process.{
  ProcessId, ProcessState, Handle, ProcessTable, new, create, with_process, set_state,
  set_current_directory, allocate_handle, close_handle, exit, reap,
}
use nix_os.Runtime.Process.Valid.{IsValid, new-IsValid}
use nix_os.Runtime.Process.Methods.{
  create-IsValid, reap-IsValid, set_state-IsValid, set_current_directory-IsValid,
  allocate_handle-IsValid, close_handle-IsValid, exit-IsValid,
}

pub data Call : Type 0 where
  creates : Option ProcessId → ℕ → ℕ → ℕ → Call
  sets_state : ProcessId → ProcessState → Call
  sets_directory : ProcessId → List ℕ → Call
  allocates : ProcessId → Handle → Call
  closes : ProcessId → ℕ → Call
  exits : ProcessId → ℤ → Call
  reaps : ProcessId → ProcessId → Call

unfoldable pub call : Call → ProcessTable → ProcessTable
call (creates parent space entry stack) t = (create parent space entry stack t).1
call (sets_state id st) t = (set_state id st t).1
call (sets_directory id path) t = (set_current_directory id path t).1
call (allocates id h) t = (allocate_handle id h t).1
call (closes id d) t = (close_handle id d t).1
call (exits id status) t = (exit id status t).1
call (reaps parent child) t = (reap parent child t).1

unfoldable pub calls : List Call → ProcessTable → ProcessTable
calls [] t = t
calls (c ∷ cs) t = calls cs (call c t)

call-IsValid :
    {t : ProcessTable} (c : Call) → t.next_id + 1 < 2 ^ 32 → IsValid t → IsValid (call c t)
unfolding call
call-IsValid (creates parent space entry stack) small v =
    create-IsValid parent space entry stack small v
call-IsValid (sets_state id st) small v = set_state-IsValid id st v
call-IsValid (sets_directory id path) small v = set_current_directory-IsValid id path v
call-IsValid (allocates id h) small v = allocate_handle-IsValid id h v
call-IsValid (closes id d) small v = close_handle-IsValid id d v
call-IsValid (exits id status) small v = exit-IsValid id status v
call-IsValid (reaps parent child) small v = reap-IsValid parent child v

-- A call uses at most one id.
next_id-call : (c : Call) (t : ProcessTable) → (call c t).next_id ≤ t.next_id + 1
unfolding call create set_state set_current_directory allocate_handle close_handle exit reap
    with_process
next_id-call (creates parent space entry stack) t = ground arith
next_id-call _ t = ground arith

calls-IsValid :
    (cs : List Call) {t : ProcessTable}
    → t.next_id + length cs < 2 ^ 32
    → IsValid t
    → IsValid (calls cs t)
unfolding calls
calls-IsValid [] small v = v
calls-IsValid (c ∷ cs) {t} small v =
    calls-IsValid cs (omega (arith, next_id-call c t)) (call-IsValid c (omega arith) v)

-- After any sequence of fewer than 2^32 - 1 calls on an empty table, the ids of the processes are
-- distinct, and every process has its number of descriptors and an absolute directory within its array.
pub calls_keep_table :
    (processes handles : ℕ) (cs : List Call)
    → length cs + 1 < 2 ^ 32
    → IsValid (calls cs (new processes handles))
unfolding new
calls_keep_table processes handles cs small =
    calls-IsValid cs (omega arith) (new-IsValid processes handles)
