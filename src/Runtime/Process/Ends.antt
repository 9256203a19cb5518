-- ===== src/Runtime/Process/Ends.antt =====
-- How a process ends: `exit` by itself and `reap` by its parent.
use nix_os.Prelude.{
  ℕ, ◌<◌, ◌≡◌, ◌≢◌, refl, inl, inr, true, false, none, some, arith, length, set, slot, is_some_and,
  position, position_found, position_missing, Option-cases, slot-map-none, slot_bound, Result, ok,
  err,
}
use nix_os.Prelude.Int.{ℤ}
use nix_os.Abi.{Error}
use nix_os.Runtime.Process.{
  ProcessId, ProcessState, Process, ProcessTable, get, handle, end_process, exit, is_child,
  exit_status, reap,
}
use nix_os.Runtime.Process.Shapes.{end_process-KeepsShape}
use nix_os.Runtime.Process.Access.{with_process-Works}

-- `exit` ends the process: its state carries the status and every descriptor is closed.
pub exit-closes :
    (id : ProcessId) (status : ℤ) (t : ProcessTable) (p : Process)
    → get id t ≡ some p
    → let (r, t') = exit id status t in
      (q : Process) × (r ≡ ok tt)
      × (get id t' ≡ some q)
      × (q.state ≡ ProcessState.exited status)
      × ((d : ℕ) → handle d q ≡ none)
      × ((j : ProcessId) → j ≢ id → get j t' ≡ get j t)
unfolding exit end_process handle
exit-closes id status t p named =
    let w = with_process-Works id p (end_process status) t (end_process-KeepsShape status) named in
    (
      (end_process status p).1,
      w.result,
      w.names,
      refl,
      λ d. slot-map-none _ p.handles d (λ x. refl),
      w.others,
    )

exit_status-some :
    (st : ProcessState) (status : ℤ)
    → exit_status st ≡ some status
    → st ≡ ProcessState.exited status
exit_status-some st status h = ground arith

exit_status-none :
    (st : ProcessState) (status : ℤ) → exit_status st ≡ none → st ≢ ProcessState.exited status
exit_status-none st status h same = ground (arith, h, same)

is_child-true :
    (parent child : ProcessId) (p : Process)
    → is_child parent child p ≡ true
    → (p.id ≡ child) × (p.parent ≡ some parent)
is_child-true parent child p h = ground arith

is_child-false :
    (parent child : ProcessId) (p : Process)
    → is_child parent child p ≡ false
    → p.id ≡ child
    → p.parent ≢ some parent
is_child-false parent child p h named same = ground (arith, h, named, same)

-- What `reap` may answer.
pub data Reaped (parent child : ProcessId) (t : ProcessTable)
    : Result Error ℤ × ProcessTable → Type 0 where
  gone :
      (i : ℕ) (p : Process) (status : ℤ)
      → slot t.processes i ≡ some p
      → p.id ≡ child
      → p.parent ≡ some parent
      → p.state ≡ ProcessState.exited status
      → Reaped parent child t (ok status, record t { processes = set t.processes i none })
  alive :
      (i : ℕ) (p : Process)
      → slot t.processes i ≡ some p
      → p.id ≡ child
      → p.parent ≡ some parent
      → ((status : ℤ) → p.state ≢ ProcessState.exited status)
      → Reaped parent child t (err Error.would_block, t)
  no_such_child :
      ((i : ℕ) (p : Process) → slot t.processes i ≡ some p → p.id ≡ child → p.parent ≢ some parent)
      → Reaped parent child t (err Error.no_child, t)

-- `reap` on every branch: of a process that has that id, has that parent and has exited it returns the
-- status and empties its slot alone; of one that has not exited it reports `WouldBlock` and changes
-- nothing; if no process has both that id and that parent it reports `NoChild` and changes nothing.
pub reap-Reaped :
    (parent child : ProcessId) (t : ProcessTable) → Reaped parent child t (reap parent child t)
unfolding reap
reap-Reaped parent child t =
    elim (Option-cases (position (is_some_and (is_child parent child)) t.processes)) [
      | inl e ↦
          rw (e, reap)
            (no_such_child (λ i p h.
              is_child-false parent child p
                (ground (arith, missing i e (slot_bound t.processes i h)))))
      | inr (i, e) ↦
          let (lt, passes) = position_found (is_some_and (is_child parent child)) t.processes i e in
          elim (Option-cases (slot t.processes i)) [
            | inl h ↦ absurd (ground arith)
            | inr (p, h) ↦ elim (Option-cases (exit_status p.state)) [
              | inl x ↦
                  let (named, born) = is_child-true parent child p (ground arith) in
                  rw (e, reap)
                    (rw h
                      (rw x (alive i p h named born (λ status. exit_status-none p.state status x))))
              | inr (status, x) ↦
                  let (named, born) = is_child-true parent child p (ground arith) in
                  rw (e, reap)
                    (rw h (rw x (gone i p status h named born (exit_status-some p.state status x))))
            ]
          ]
    ]
  where
    missing :
        (i : ℕ)
        → position (is_some_and (is_child parent child)) t.processes ≡ none
        → i < length t.processes
        → is_some_and (is_child parent child) (slot t.processes i) ≡ false
    missing i = position_missing (is_some_and (is_child parent child)) t.processes i
