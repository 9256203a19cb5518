-- ===== src/Runtime/Process.antt =====
-- crates/nexos-runtime/src/process.rs: the process table `ProcessTable<PROCESSES, HANDLES>`.
pub mod Valid
pub mod Shapes
pub mod Methods
pub mod Access
pub mod Ends
pub mod Runs
mod Tests
use nix_os.Prelude.{
  contains, ℕ, zero, suc, ◌+◌, ◌-◌, ◌^◌, Bool, true, false, ◌&&◌, ◌||◌, not, Option, none, some,
  List, [], ◌∷◌, ◌++◌, map, ltb, leb, ◌==◌, if◌then◌else◌, length, get_or, set, take, replicate,
  slot, is_none, is_some_and, position, flatten, Result, ok, err,
}
use nix_os.Prelude.Int.{ℤ}
use nix_os.Abi.{
  Error, not_found, no_child, would_block, bad_handle, invalid_argument, handle_limit,
  name_too_long, process_limit,
}

abbrev pub current_directory_capacity : ℕ
current_directory_capacity = 128

-- `ProcessId(u32)`
abbrev pub ProcessId : Type 0
ProcessId = ℕ

pub data ProcessState : Type 0 where
  ready running : ProcessState
  waiting : Option ProcessId → ProcessState
  exited : ℤ → ProcessState

pub record Handle : Type 0 where
  pub object : ℕ
  pub rights : ℕ

pub record Process : Type 0 where
  pub id : ProcessId
  pub parent : Option ProcessId
  pub state : ProcessState
  pub address_space : ℕ
  pub entry_point : ℕ
  pub user_stack : ℕ
  pub handles : List (Option Handle)
  pub current_directory : List ℕ
  pub current_directory_length : ℕ

-- `PROCESSES` is the length of `processes`.
pub record ProcessTable : Type 0 where
  pub processes : List (Option Process)
  pub handle_slots : ℕ
  pub next_id : ℕ

-- the method `current_directory`
pub directory : Process → List ℕ
directory p = take p.current_directory_length p.current_directory

-- `self.handles.get(descriptor).copied().flatten()`
pub handle : ℕ → Process → Option Handle
handle descriptor p = slot p.handles descriptor

pub new : ℕ → ℕ → ProcessTable
new processes handles = record {
  processes = replicate processes none;
  handle_slots = handles;
  next_id = 1;
}

-- the slot of the first process with this id
pub find_process : ProcessId → ProcessTable → Option ℕ
find_process id t = position (is_some_and (λ p. p.id == id)) t.processes

pub get : ProcessId → ProcessTable → Option Process
get id t = elim (find_process id t) [ none ↦ none | some i ↦ slot t.processes i ]

pub len : ProcessTable → ℕ
len t = length (flatten t.processes)

pub is_empty : ProcessTable → Bool
is_empty t = len t == 0

-- `checked_add(1).unwrap_or(1)` on `u32`
abbrev pub following_id : ℕ → ℕ
following_id n = if ltb (n + 1) (2 ^ 32) then n + 1 else 1

abbrev pub is_unknown : Option ProcessId → ProcessTable → Bool
is_unknown none t = false
is_unknown (some id) t = is_none (get id t)

pub new_process : ℕ → Option ProcessId → ℕ → ℕ → ℕ → ℕ → Process
new_process id parent address_space entry_point user_stack handles = record {
  id = id;
  parent = parent;
  state = ready;
  address_space = address_space;
  entry_point = entry_point;
  user_stack = user_stack;
  handles = replicate handles none;
  current_directory = set (replicate current_directory_capacity 0) 0 b'/';
  current_directory_length = 1;
}

pub create : Option ProcessId → ℕ → ℕ → ℕ → ProcessTable → Result Error ProcessId × ProcessTable
create parent address_space entry_point user_stack t =
    if entry_point == 0 || user_stack == 0
    then (err invalid_argument, t)
    else if is_unknown parent t
    then (err not_found, t)
    else elim (position is_none t.processes) [
      | none ↦ (err process_limit, t)
      | some i ↦ (
        ok t.next_id,
        record t {
          processes = set t.processes i (
              some
                (new_process t.next_id parent address_space entry_point user_stack t.handle_slots));
          next_id = following_id t.next_id;
        },
      )
    ]

-- `get_mut(id).ok_or(NotFound)?` and the rest of a method, which works on that process
pub with_process :
    {A : Type 0}
    → ProcessId
    → (Process → Result Error A × Process)
    → ProcessTable
    → Result Error A × ProcessTable
with_process id body t = elim (find_process id t) [
  | none ↦ (err not_found, t)
  | some i ↦ elim (slot t.processes i) [
    | none ↦ (err not_found, t)
    | some p ↦ let (r, p') = body p in (r, record t { processes = set t.processes i (some p') })
  ]
]

pub put_state : ProcessState → Process → Result Error Unit × Process
put_state st p = (ok tt, record p { state = st })

pub set_state : ProcessId → ProcessState → ProcessTable → Result Error Unit × ProcessTable
set_state id st = with_process id (put_state st)

-- the guard of `set_current_directory`
pub is_bad_directory : List ℕ → Bool
is_bad_directory path =
    length path == 0
    || not (get_or path 0 0 == b'/')
    || leb current_directory_capacity (length path)
    || contains 0 path

-- `fill(0)`, the copy, and the length through `u8::try_from`
pub put_directory : List ℕ → Process → Result Error Unit × Process
put_directory path p =
    let p' : Process = record p {
      current_directory = path ++ replicate (current_directory_capacity - length path) 0;
    } in
    if ltb (length path) 256
    then (ok tt, record p' { current_directory_length = length path })
    else (err name_too_long, p')

pub set_current_directory : ProcessId → List ℕ → ProcessTable → Result Error Unit × ProcessTable
set_current_directory id path t =
    if is_bad_directory path
    then (err invalid_argument, t)
    else with_process id (put_directory path) t

pub put_handle : Handle → Process → Result Error ℕ × Process
put_handle h p = elim (position is_none p.handles) [
  | none ↦ (err handle_limit, p)
  | some i ↦ (ok i, record p { handles = set p.handles i (some h) })
]

pub allocate_handle : ProcessId → Handle → ProcessTable → Result Error ℕ × ProcessTable
allocate_handle id h = with_process id (put_handle h)

-- `get_mut(descriptor).ok_or(BadHandle)?` and `take().ok_or(BadHandle)`
pub take_handle : ℕ → Process → Result Error Handle × Process
take_handle descriptor p =
    if ltb descriptor (length p.handles)
    then elim (slot p.handles descriptor) [
      | none ↦ (err bad_handle, p)
      | some h ↦ (ok h, record p { handles = set p.handles descriptor none })
    ]
    else (err bad_handle, p)

pub close_handle : ProcessId → ℕ → ProcessTable → Result Error Handle × ProcessTable
close_handle id descriptor = with_process id (take_handle descriptor)

pub end_process : ℤ → Process → Result Error Unit × Process
end_process status p =
    (ok tt, record p { state = exited status; handles = map (λ h. none) p.handles })

pub exit : ProcessId → ℤ → ProcessTable → Result Error Unit × ProcessTable
exit id status = with_process id (end_process status)

-- `process.parent == Some(parent)`
abbrev pub has_parent : ProcessId → Option ProcessId → Bool
has_parent id none = false
has_parent id (some p) = p == id

abbrev pub is_child : ProcessId → ProcessId → Process → Bool
is_child parent child p = (p.id == child) && has_parent parent p.parent

abbrev pub exit_status : ProcessState → Option ℤ
exit_status (exited status) = some status
exit_status _ = none

pub reap : ProcessId → ProcessId → ProcessTable → Result Error ℤ × ProcessTable
reap parent child t = elim (position (is_some_and (is_child parent child)) t.processes) [
  | none ↦ (err no_child, t)
  | some i ↦ elim (slot t.processes i) [
    | none ↦ (err no_child, t)
    | some p ↦ elim (exit_status p.state) [
      | none ↦ (err would_block, t)
      | some status ↦ (ok status, record t { processes = set t.processes i none })
    ]
  ]
]
