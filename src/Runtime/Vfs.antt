-- ===== src/Runtime/Vfs.antt =====
-- crates/nexos-runtime/src/vfs.rs: absolute paths, and the table of mounted file systems.
-- A path, the source's `Path`, is its array of 256 bytes and the length in use. `[u8]::split` is the list of its parts.
pub mod Paths
pub mod Mounts
mod Tests
use nix_os.Prelude.{
  ℕ, zero, suc, ◌+◌, ◌-◌, Bool, true, false, ◌&&◌, ◌||◌, not, Option, none, some, List, [], ◌∷◌,
  ltb, leb, ◌==◌, if◌then◌else◌, length, get_or, set, take, drop, replicate, bytes_eq, contains,
  position, is_none, is_some_and, flatten, Result, ok, err, ok_or, refuse_if, ◌>>=◌, ◌>>◌,
}
use nix_os.Abi.{
  Error, invalid_argument, name_too_long, already_exists, mount_limit, not_found, not_directory,
}

abbrev pub path_capacity : ℕ
path_capacity = 256

abbrev pub name_capacity : ℕ
name_capacity = 64

pub data NodeKind : Type 0 where
  regular_file directory block_device character_device : NodeKind

pub record NodeMetadata : Type 0 where
  pub id : ℕ
  pub kind : NodeKind
  pub size : ℕ
  pub permissions : ℕ

pub record VfsPath : Type 0 where
  pub bytes : List ℕ
  pub len : ℕ

abbrev pub as_bytes : VfsPath → List ℕ
as_bytes p = take p.len p.bytes

abbrev pub root_path : List ℕ
root_path = b'/' ∷ []

pub is_root : VfsPath → Bool
is_root p = bytes_eq (as_bytes p) root_path

pub push_byte : ℕ → VfsPath → Result Error VfsPath
push_byte byte p =
    if p.len == path_capacity
    then err name_too_long
    else ok (record { bytes = set p.bytes p.len byte; len = p.len + 1 })

pub push_bytes : List ℕ → VfsPath → Result Error VfsPath
push_bytes [] p = ok p
push_bytes (byte ∷ bytes) p = elim (push_byte byte p) [
  | err e ↦ err e
  | ok p' ↦ push_bytes bytes p'
]

abbrev pub push_head : ℕ → List (List ℕ) → List (List ℕ)
push_head byte [] = (byte ∷ []) ∷ []
push_head byte (part ∷ parts) = (byte ∷ part) ∷ parts

-- `split(|byte| *byte == b'/')`
pub split : List ℕ → List (List ℕ)
split [] = [] ∷ []
split (byte ∷ bytes) =
    let rest = split bytes in if byte == b'/' then [] ∷ rest else push_head byte rest

-- `output`, `component_starts` and `component_count` of `normalize`
pub record Output : Type 0 where
  pub path : VfsPath
  pub starts : List ℕ
  pub count : ℕ

-- the branch of a `..`
pub leave : Output → Result Error Output
leave o =
    let path = record o.path { len = get_or o.starts (o.count - 1) 0 } in
    if o.count == 0 then ok o else do
      path ← if path.len == 0 then push_byte b'/' path else ok path
      ok (record o { path = path; count = o.count - 1 })

-- the separator before a name
pub separated : VfsPath → Result Error VfsPath
separated p = if is_root p then ok p else push_byte b'/' p

-- the name itself, and where its component starts
pub put_name : List ℕ → Output → VfsPath → Result Error Output
put_name component o path = do
  path ← push_bytes component path
  ok (record { path = path; starts = set o.starts o.count o.path.len; count = o.count + 1 })

-- the branch of a name
pub enter : List ℕ → Output → Result Error Output
enter component o = do
  refuse_if (ltb name_capacity (length component) || contains 0 component) name_too_long
  refuse_if (o.count == length o.starts) name_too_long
  path ← separated o.path
  put_name component o path

pub append_component : List ℕ → Output → Result Error Output
append_component component o =
    if length component == 0 || bytes_eq component (b'.' ∷ [])
    then ok o
    else if bytes_eq component (b'.' ∷ b'.' ∷ [])
    then leave o
    else enter component o

pub append_components : List (List ℕ) → Output → Result Error Output
append_components [] o = ok o
append_components (component ∷ components) o = elim (append_component component o) [
  | err e ↦ err e
  | ok o' ↦ append_components components o'
]

-- `path.first() == Some(&b'/')`
abbrev pub is_absolute : List ℕ → Bool
is_absolute [] = false
is_absolute (byte ∷ bytes) = byte == b'/'

-- `strip_prefix(b"/")`
abbrev pub strip_slash : List ℕ → Option (List ℕ)
strip_slash [] = none
strip_slash (byte ∷ bytes) = if byte == b'/' then some bytes else none

abbrev pub unwrap_or : List ℕ → Option (List ℕ) → List ℕ
unwrap_or default none = default
unwrap_or default (some bytes) = bytes

-- the part of `normalize` for a path that is not absolute
pub append_directory : List ℕ → List ℕ → Output → Result Error Output
append_directory path current_directory o =
    if is_absolute path
    then ok o
    else if not (is_absolute current_directory)
    then err invalid_argument
    else append_components (split (drop 1 current_directory)) o

abbrev pub blank_path : VfsPath
blank_path = record { bytes = replicate path_capacity 0; len = 0 }

pub normalize : List ℕ → List ℕ → Result Error VfsPath
normalize path current_directory = do
  start ← push_byte b'/' blank_path
  o ←
      append_directory path current_directory
        (record { path = start; starts = replicate 64 0; count = 0 })
  o ← append_components (split (unwrap_or path (strip_slash path))) o
  ok o.path

-- `trait FileSystem`; the operations that this file does not call are left out
pub record FileSystem (F : Type 0) : Type 0 where
  pub root : F → NodeMetadata
  pub lookup : F → ℕ → List ℕ → Result Error NodeMetadata

pub record Mount (F : Type 0) : Type 0 where
  pub path : VfsPath
  pub filesystem : F

pub record ResolvedNode (F : Type 0) : Type 0 where
  pub filesystem : F
  pub metadata : NodeMetadata

-- the derived equality: the whole array counts
pub path_eq : VfsPath → VfsPath → Bool
path_eq p q = bytes_eq p.bytes q.bytes && p.len == q.len

pub path_has_prefix : List ℕ → List ℕ → Bool
path_has_prefix path prefix =
    bytes_eq prefix root_path
    || bytes_eq path prefix
    || (ltb (length prefix) (length path)
        && bytes_eq (take (length prefix) path) prefix
        && get_or path (length prefix) 0 == b'/')

pub relative_path : List ℕ → List ℕ → List ℕ
relative_path path mount =
    if bytes_eq mount root_path
    then unwrap_or path (strip_slash path)
    else unwrap_or [] (strip_slash (drop (length mount) path))

module _ {F : Type 0} where
  -- `max_by_key` takes the last of the longest: what a mount makes of the choice among those behind it
  pub better : Bool → Mount F → Option (Mount F) → Option (Mount F)
  better false m rest = rest
  better true m none = some m
  better true m (some best) =
      if ltb (length (as_bytes best.path)) (length (as_bytes m.path)) then some m else some best

  pub longest : List ℕ → List (Mount F) → Option (Mount F)
  longest path [] = none
  longest path (m ∷ mounts) =
      better (path_has_prefix path (as_bytes m.path)) m (longest path mounts)

  pub select_mount : VfsPath → List (Option (Mount F)) → Option (Mount F)
  select_mount path mounts = longest (as_bytes path) (flatten mounts)

  pub any_path : VfsPath → List (Mount F) → Bool
  any_path path [] = false
  any_path path (m ∷ mounts) = path_eq m.path path || any_path path mounts

  pub mount : List ℕ → F → List (Option (Mount F)) → Result Error Unit × List (Option (Mount F))
  mount path filesystem mounts = elim (normalize path root_path) [
    | err e ↦ (err e, mounts)
    | ok path ↦
        if any_path path (flatten mounts)
        then (err already_exists, mounts)
        else elim (position is_none mounts) [
          | none ↦ (err mount_limit, mounts)
          | some i ↦ (ok tt, set mounts i (some (record { path = path; filesystem = filesystem })))
        ]
  ]

  pub unmount : List ℕ → List (Option (Mount F)) → Result Error Unit × List (Option (Mount F))
  unmount path mounts = elim (normalize path root_path) [
    | err e ↦ (err e, mounts)
    | ok path ↦ elim (position (is_some_and (λ m. path_eq m.path path)) mounts) [
      | none ↦ (err not_found, mounts)
      | some i ↦ (ok tt, set mounts i none)
    ]
  ]

  pub mount_count : List (Option (Mount F)) → ℕ
  mount_count mounts = length (flatten mounts)

abbrev pub is_directory_kind : NodeKind → Bool
is_directory_kind directory = true
is_directory_kind other = false

module _ {F : Type 0} (fs : FileSystem F) where
  -- one round of the loop of `lookup`
  pub step : F → List ℕ → NodeMetadata → Result Error NodeMetadata
  step f component node =
      if length component == 0
      then ok node
      else if not (is_directory_kind node.kind)
      then err not_directory
      else fs.lookup f node.id component

  pub walk : F → List (List ℕ) → NodeMetadata → Result Error NodeMetadata
  walk f [] node = ok node
  walk f (component ∷ components) node = elim (step f component node) [
    | err e ↦ err e
    | ok node' ↦ walk f components node'
  ]

  pub lookup : List ℕ → List ℕ → List (Option (Mount F)) → Result Error (ResolvedNode F)
  lookup path current_directory mounts = do
    path ← normalize path current_directory
    m ← ok_or not_found (select_mount path mounts)
    node ←
        walk m.filesystem (split (relative_path (as_bytes path) (as_bytes m.path)))
          (fs.root m.filesystem)
    ok (record { filesystem = m.filesystem; metadata = node })
