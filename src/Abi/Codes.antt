-- ===== src/Abi/Codes.antt =====
-- The numbering of the ABI is a code: it can be read back, and no two names share a number.
use nix_os.Prelude.{ℕ, ◌≡◌, refl, ap, ◌∙◌, sym, ◌↔◌, some, arith}
use nix_os.Abi.{Syscall, Error, syscall_number, try_from, error_code, as_syscall_result}

try_from-syscall_number : (c : Syscall) → try_from (syscall_number c) ≡ some c
unfolding try_from syscall_number
try_from-syscall_number Syscall.exit = refl
try_from-syscall_number _ = refl

try_from-some : (n : ℕ) (c : Syscall) → try_from n ≡ some c → syscall_number c ≡ n
unfolding try_from syscall_number
try_from-some n c h = ground arith

-- `Syscall::try_from` accepts a number exactly if it is the discriminant of a system call, and then
-- gives that call.
pub try_from_iff : (n : ℕ) (c : Syscall) → (try_from n ≡ some c) ↔ (syscall_number c ≡ n)
try_from_iff n c = (try_from-some n c, λ e. ap try_from (sym e) ∙ try_from-syscall_number c)

-- Two different errors never give a program the same result.
pub as_syscall_result-injective : (e f : Error) → as_syscall_result e ≡ as_syscall_result f → e ≡ f
unfolding as_syscall_result error_code
as_syscall_result-injective e f h = ground arith
