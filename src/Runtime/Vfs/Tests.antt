-- ===== src/Runtime/Vfs/Tests.antt =====
-- Paths and mounts, and the theorems at them.
use nix_os.Prelude.{
  ℕ, ◌≡◌, refl, false, Option, none, some, List, [], ◌∷◌, ◌++◌, replicate, bytes_eq, contains,
  position, flatten, map_ok, ok, err,
}
use nix_os.Abi.{Error}
use nix_os.Runtime.Vfs.{
  NodeKind, VfsPath, as_bytes, root_path, is_root, push_byte, push_bytes, split, leave, enter,
  separated, put_name, append_component, append_components, append_directory, normalize, FileSystem,
  Mount, path_eq, path_has_prefix, relative_path, better, longest, select_mount, any_path, mount,
  unmount, mount_count, step, walk, lookup,
}
use nix_os.Runtime.Vfs.Paths.{IsPath, normalize-IsPath}
use nix_os.Runtime.Vfs.Mounts.{IsLongest, select_mount-IsLongest}

-- b"/dev" and b"/dev/x/.."
abbrev dev : List ℕ
dev = b'/' ∷ b'd' ∷ b'e' ∷ b'v' ∷ []

abbrev dev_back : List ℕ
dev_back = dev ++ (b'/' ∷ b'x' ∷ b'/' ∷ b'.' ∷ b'.' ∷ [])

abbrev dev_path : VfsPath
dev_path = record { bytes = dev ++ replicate 252 0; len = 4 }

splits : split dev ≡ [] ∷ (b'd' ∷ b'e' ∷ b'v' ∷ []) ∷ []
unfolding split
splits = refl

normalizes :
    (normalize dev root_path ≡ ok dev_path)
    × (normalize (b'.' ∷ b'/' ∷ b'd' ∷ b'e' ∷ b'v' ∷ []) root_path ≡ ok dev_path)
    × (map_ok as_bytes (normalize (b'.' ∷ b'.' ∷ []) dev) ≡ ok root_path)
    × (normalize (b'x' ∷ []) [] ≡ err Error.invalid_argument)
    × (normalize (replicate 65 b'x') root_path ≡ err Error.name_too_long)
unfolding normalize push_byte push_bytes split leave enter separated put_name append_component
    append_components append_directory is_root bytes_eq contains
normalizes = (refl, refl, refl, refl, refl)

-- Two spellings of one path have the same bytes in use, and yet are not equal: the bytes behind a name
-- that was left stay in the array.
stale_bytes :
    (map_ok as_bytes (normalize dev_back root_path) ≡ ok dev)
    × (map_ok (path_eq dev_path) (normalize dev_back root_path) ≡ ok false)
unfolding normalize push_byte push_bytes split leave enter separated put_name append_component
    append_components append_directory is_root bytes_eq contains path_eq
stale_bytes = (refl, refl)

normalize-IsPath_example : IsPath dev_path
normalize-IsPath_example = normalize-IsPath dev root_path dev_path normalizes.0

-- a file system of one directory; it is known by a number
abbrev empty_fs : FileSystem ℕ
empty_fs = record {
  root = λ f. record { id = 1; kind = NodeKind.directory; size = 0; permissions = 493 };
  lookup = λ f parent name. err Error.not_found;
}

abbrev at_root : Mount ℕ
at_root = record { path = record { bytes = root_path ++ replicate 255 0; len = 1 }; filesystem = 7 }

abbrev at_dev : Mount ℕ
at_dev = record { path = dev_path; filesystem = 8 }

abbrev mounts : List (Option (Mount ℕ))
mounts = some at_root ∷ some at_dev ∷ []

selects : (select_mount dev_path mounts ≡ some at_dev) × (mount_count mounts ≡ 2)
unfolding select_mount longest better path_has_prefix flatten bytes_eq mount_count
selects = (refl, refl)

mounting :
    (mount dev 8 (some at_root ∷ none ∷ []) ≡ (ok tt, mounts))
    × (mount dev 9 mounts ≡ (err Error.already_exists, mounts))
    × (mount (b'/' ∷ b'x' ∷ []) 9 mounts ≡ (err Error.mount_limit, mounts))
    × (unmount dev mounts ≡ (ok tt, some at_root ∷ none ∷ []))
    × (unmount dev_back mounts ≡ (err Error.not_found, mounts))
unfolding mount unmount any_path path_eq flatten position normalize push_byte push_bytes split leave
    enter separated put_name append_component append_components append_directory is_root bytes_eq
    contains
mounting = (refl, refl, refl, refl, refl)

looks_up :
    (map_ok (λ r. r.filesystem) (lookup empty_fs dev root_path mounts) ≡ ok 8)
    × (map_ok (λ r. r.filesystem) (lookup empty_fs (b'x' ∷ []) dev mounts) ≡ err Error.not_found)
unfolding lookup step walk relative_path select_mount longest better path_has_prefix flatten
    normalize push_byte push_bytes split leave enter separated put_name append_component
    append_components append_directory is_root bytes_eq contains
looks_up = (refl, refl)

select_mount-IsLongest_example : IsLongest (as_bytes dev_path) (flatten mounts) at_dev
select_mount-IsLongest_example = select_mount-IsLongest dev_path mounts at_dev selects.0
