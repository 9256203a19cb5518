-- ===== src/Abi/Tests.antt =====
-- The numbering of the ABI at one system call.
use nix_os.Prelude.{◌≡◌, refl, ◌↔◌, some}
use nix_os.Prelude.Int.{negsuc}
use nix_os.Abi.{Syscall, Error, try_from, syscall_number, as_syscall_result}
use nix_os.Abi.Codes.{try_from_iff}

result_of_error : as_syscall_result Error.not_found ≡ negsuc 1
unfolding as_syscall_result
result_of_error = refl

try_from_iff_example : (try_from 18 ≡ some Syscall.read) ↔ (syscall_number Syscall.read ≡ 18)
try_from_iff_example = try_from_iff 18 Syscall.read
