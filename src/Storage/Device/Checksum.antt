-- ===== src/Storage/Device/Checksum.antt =====
-- The range of `crc32`.
use nix_os.Prelude.{◌^◌, ◌<◌, List, ℕ, arith}
use nix_os.Storage.Device.{crc32}

pub crc32-lt : (bytes : List ℕ) → crc32 bytes < 2 ^ 32
unfolding crc32
crc32-lt bytes = omega arith
