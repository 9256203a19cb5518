-- ===== src/Runtime/Process/Tests.antt =====
-- crates/nexos-runtime/src/process.rs on a concrete table, and its theorems at it.
use nix_os.Prelude.{
  contains, ℕ, ◌≡◌, ◌≢◌, refl, true, false, none, some, List, [], ◌∷◌, arith, ok, err, position,
  flatten,
}
use nix_os.Prelude.Int.{pos}
use nix_os.Abi.{Error}
use nix_os.Runtime.Process.{
  ProcessId, ProcessState, Handle, Process, ProcessTable, new, new_process, create, find_process,
  get, len, is_empty, directory, handle, is_bad_directory, set_current_directory, exit, reap,
  with_process, set_state,
}
use nix_os.Runtime.Process.Valid.{IsValid}
use nix_os.Runtime.Process.Runs.{Call, call, calls, calls_keep_table}
use nix_os.Runtime.Process.Access.{directory-set_current_directory}
use nix_os.Runtime.Process.Ends.{exit-closes, Reaped, reap-Reaped}

abbrev init : Process
init = new_process 1 none 0x1000 0x4000 0x8000 2

abbrev child : Process
child = new_process 2 (some 1) 0x2000 0x4000 0x8000 2

abbrev family : ProcessTable
family = record { processes = some init ∷ some child ∷ none ∷ []; handle_slots = 2; next_id = 3 }

abbrev console : Handle
console = record { object = 4; rights = 3 }

abbrev home : List ℕ
home = b'/' ∷ b'h' ∷ []

creates_family :
    calls
      (Call.creates none 0x1000 0x4000 0x8000 ∷ Call.creates (some 1) 0x2000 0x4000 0x8000 ∷ [])
      (new 3 2)
    ≡ family
unfolding calls call new create get find_process position new_process
creates_family = refl

sizes : (len family ≡ 2) × (is_empty family ≡ false) × (is_empty (new 3 2) ≡ true)
unfolding len is_empty new flatten
sizes = (refl, refl, refl)

child_named : get 2 family ≡ some child
unfolding get find_process position new_process
child_named = refl

sets_state : (set_state 9 ProcessState.running family).0 ≡ err Error.not_found
unfolding set_state with_process find_process position new_process
sets_state = refl

home_good : is_bad_directory home ≡ false
unfolding is_bad_directory contains
home_good = refl

calls_keep_table_example :
    IsValid (calls (Call.creates none 0x1000 0x4000 0x8000 ∷ Call.exits 1 (pos 0) ∷ []) (new 1 2))
calls_keep_table_example =
    calls_keep_table 1 2 (Call.creates none 0x1000 0x4000 0x8000 ∷ Call.exits 1 (pos 0) ∷ [])
      (omega arith)

directory-set_current_directory_example :
    let (r, t') = set_current_directory 2 home family in
    (q : Process) × (r ≡ ok tt)
    × (get 2 t' ≡ some q)
    × (directory q ≡ home)
    × (q.handles ≡ child.handles)
    × ((j : ProcessId) → j ≢ 2 → get j t' ≡ get j family)
directory-set_current_directory_example =
    directory-set_current_directory 2 home family child child_named home_good

exit-closes_example :
    let (r, t') = exit 2 (pos 7) family in
    (q : Process) × (r ≡ ok tt)
    × (get 2 t' ≡ some q)
    × (q.state ≡ ProcessState.exited (pos 7))
    × ((d : ℕ) → handle d q ≡ none)
    × ((j : ProcessId) → j ≢ 2 → get j t' ≡ get j family)
exit-closes_example = exit-closes 2 (pos 7) family child child_named

reap-Reaped_example : Reaped 1 2 family (reap 1 2 family)
reap-Reaped_example = reap-Reaped 1 2 family
