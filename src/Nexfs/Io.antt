-- ===== src/Nexfs/Io.antt =====
-- The functions of crates/nexfs/src that work on a device.
pub use nix_os.Prelude.Stateful.{pure, lift, ask, ◌>>=◌, ◌>>◌, after_ok, ok_before, done_before}
use nix_os.Prelude.{◌≡◌, ap, Result, ok, err}
use nix_os.Prelude.Stateful.{Stateful}
use nix_os.Storage.Device.{StorageError}
use nix_os.Nexfs.{FsError, storage}

abbrev pub Io : Type 0 → Type 0 → Type 0
Io = Stateful FsError

-- `map_err(FsError::Storage)` and `From<StorageError>`
abbrev pub from_storage : {D A : Type 0} → (D → Result StorageError A × D) → Io D A
from_storage f d = let (r, d') = f d in elim r [ err e ↦ (err (storage e), d') | ok a ↦ (ok a, d') ]

pub from_storage_ok :
    {D A : Type 0} (f : D → Result StorageError A × D) (d d' : D) (a : A)
    → f d ≡ (ok a, d')
    → from_storage f d ≡ (ok a, d')
from_storage_ok {D = D} {A = A} f d d' a e =
    ap
      (λ (x : Result StorageError A × D). elim x.0 [
        | err g ↦ (err (storage g), x.1)
        | ok b ↦ (ok b, x.1)
      ])
      e
