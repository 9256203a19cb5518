-- ===== src/Runtime/Process/Methods.antt =====
-- Every method of the process table keeps its invariant.
use nix_os.Prelude.{
  ℕ, ◌+◌, ◌^◌, ◌<◌, refl, inl, inr, Option, List, arith, lt→ltb, ◌==◌, slot, is_none, is_some_and,
  position, slot-set_all, slot-set-none, ◌||◌, Option-cases, Bool-cases,
}
use nix_os.Prelude.Int.{ℤ}
use nix_os.Prelude.Ids.{DistinctIds-set_fresh, DistinctIds-set-none}
use nix_os.Runtime.Process.{
  ProcessId, ProcessState, Handle, ProcessTable, new_process, create, put_state, set_state,
  put_directory, is_bad_directory, set_current_directory, put_handle, allocate_handle, take_handle,
  close_handle, end_process, exit, is_child, exit_status, reap, is_unknown,
}
use nix_os.Runtime.Process.Valid.{IsProcess, IsValid, with_process-IsValid, new_process-IsProcess}
use nix_os.Runtime.Process.Shapes.{
  put_state-KeepsShape, put_directory-KeepsShape, put_handle-KeepsShape, take_handle-KeepsShape,
  end_process-KeepsShape,
}

pub create-IsValid :
    {t : ProcessTable} (parent : Option ProcessId) (space entry stack : ℕ)
    → t.next_id + 1 < 2 ^ 32
    → IsValid t
    → IsValid (create parent space entry stack t).1
unfolding create new_process
create-IsValid {t} parent space entry stack small v = elim (Bool-cases (entry == 0 || stack == 0)) [
  | inl bad ↦ rw (bad, create) v
  | inr fine ↦ elim (Bool-cases (is_unknown parent t)) [
    | inl orphan ↦ rw (fine, create) (rw orphan v)
    | inr known ↦ elim (Option-cases (position is_none t.processes)) [
      | inl e ↦ rw (fine, create) (rw known (rw e v))
      | inr (i, e) ↦
          rw (fine, create)
            (rw known (
              rw e (
                rw (lt→ltb _ _ small) (record {
                  ids =
                      DistinctIds-set_fresh _ t.processes t.next_id _ i _ v.ids refl (omega arith);
                  each = λ j q f.
                      slot-set_all (IsProcess t.handle_slots) t.processes i j _ q v.each
                        (new_process-IsProcess t.next_id parent space entry stack t.handle_slots) f;
                  small_id = small;
                }))))
    ]
  ]
]

pub reap-IsValid :
    {t : ProcessTable} (parent child : ProcessId) → IsValid t → IsValid (reap parent child t).1
unfolding reap
reap-IsValid {t} parent child v =
    elim (Option-cases (position (is_some_and (is_child parent child)) t.processes)) [
      | inl e ↦ rw (e, reap) v
      | inr (i, e) ↦ elim (Option-cases (slot t.processes i)) [
        | inl h ↦ rw (e, reap) (rw h v)
        | inr (p, h) ↦ elim (Option-cases (exit_status p.state)) [
          | inl x ↦ rw (e, reap) (rw h (rw x v))
          | inr (status, x) ↦
              rw (e, reap)
                (rw h (
                  rw x (record {
                    ids = DistinctIds-set-none _ t.processes t.next_id i v.ids;
                    each = λ j q f. v.each j q (slot-set-none t.processes i j q f);
                    small_id = v.small_id;
                  })))
        ]
      ]
    ]

pub set_state-IsValid :
    {t : ProcessTable} (id : ProcessId) (st : ProcessState)
    → IsValid t
    → IsValid (set_state id st t).1
unfolding set_state
set_state-IsValid id st v = with_process-IsValid id (put_state st) (put_state-KeepsShape st) v

pub set_current_directory-IsValid :
    {t : ProcessTable} (id : ProcessId) (path : List ℕ)
    → IsValid t
    → IsValid (set_current_directory id path t).1
unfolding set_current_directory
set_current_directory-IsValid {t} id path v = elim (Bool-cases (is_bad_directory path)) [
  | inl bad ↦ rw (bad, set_current_directory) v
  | inr good ↦
      rw (good, set_current_directory)
        (with_process-IsValid id (put_directory path) (put_directory-KeepsShape path good) v)
]

pub allocate_handle-IsValid :
    {t : ProcessTable} (id : ProcessId) (h : Handle)
    → IsValid t
    → IsValid (allocate_handle id h t).1
unfolding allocate_handle
allocate_handle-IsValid id h v = with_process-IsValid id (put_handle h) (put_handle-KeepsShape h) v

pub close_handle-IsValid :
    {t : ProcessTable} (id : ProcessId) (d : ℕ) → IsValid t → IsValid (close_handle id d t).1
unfolding close_handle
close_handle-IsValid id d v = with_process-IsValid id (take_handle d) (take_handle-KeepsShape d) v

pub exit-IsValid :
    {t : ProcessTable} (id : ProcessId) (status : ℤ) → IsValid t → IsValid (exit id status t).1
unfolding exit
exit-IsValid id status v =
    with_process-IsValid id (end_process status) (end_process-KeepsShape status) v
