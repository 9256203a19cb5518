-- ===== src/Abi.antt =====
-- crates/nexos-abi/src/lib.rs: system call numbers and error codes.
pub mod Codes
mod Tests
use nix_os.Prelude.{ℕ, zero, suc, Option, none, some, ◌==◌, if◌then◌else◌}
use nix_os.Prelude.Int.{ℤ, pos, negsuc}

-- `enum Error`
pub data Error : Type 0 where
  permission_denied not_found interrupted io no_child would_block out_of_memory bad_handle : Error
  already_exists not_directory is_directory invalid_argument handle_limit file_too_large : Error
  no_space read_only name_too_long process_limit mount_limit not_supported timed_out : Error

-- the discriminants, `self as i32`
unfoldable pub error_code : Error → ℕ
error_code permission_denied = 1
error_code not_found = 2
error_code interrupted = 4
error_code io = 5
error_code no_child = 10
error_code would_block = 11
error_code out_of_memory = 12
error_code bad_handle = 9
error_code already_exists = 17
error_code not_directory = 20
error_code is_directory = 21
error_code invalid_argument = 22
error_code handle_limit = 24
error_code file_too_large = 27
error_code no_space = 28
error_code read_only = 30
error_code name_too_long = 36
error_code process_limit = 67
error_code mount_limit = 69
error_code not_supported = 95
error_code timed_out = 110

-- `-n`
abbrev pub negated : ℕ → ℤ
negated zero = pos 0
negated (suc n) = negsuc n

pub as_syscall_result : Error → ℤ
unfolding error_code
as_syscall_result e = negated (error_code e)

pub data Syscall : Type 0 where
  exit spawn wait open_file close read write seek stat read_dir create_dir remove rename : Syscall
  map_memory unmap_memory clock_get sleep device_control system_info reboot : Syscall

-- the discriminants of `enum Syscall`
pub syscall_number : Syscall → ℕ
syscall_number exit = 0
syscall_number spawn = 1
syscall_number wait = 2
syscall_number open_file = 16
syscall_number close = 17
syscall_number read = 18
syscall_number write = 19
syscall_number seek = 20
syscall_number stat = 21
syscall_number read_dir = 22
syscall_number create_dir = 23
syscall_number remove = 24
syscall_number rename = 25
syscall_number map_memory = 32
syscall_number unmap_memory = 33
syscall_number clock_get = 48
syscall_number sleep = 49
syscall_number device_control = 64
syscall_number system_info = 65
syscall_number reboot = 66

-- `Syscall::try_from`; `none` is `Err(())`.
pub try_from : ℕ → Option Syscall
try_from n =
    if n == 0
    then some exit
    else if n == 1
    then some spawn
    else if n == 2
    then some wait
    else if n == 16
    then some open_file
    else if n == 17
    then some close
    else if n == 18
    then some read
    else if n == 19
    then some write
    else if n == 20
    then some seek
    else if n == 21
    then some stat
    else if n == 22
    then some read_dir
    else if n == 23
    then some create_dir
    else if n == 24
    then some remove
    else if n == 25
    then some rename
    else if n == 32
    then some map_memory
    else if n == 33
    then some unmap_memory
    else if n == 48
    then some clock_get
    else if n == 49
    then some sleep
    else if n == 64
    then some device_control
    else if n == 65
    then some system_info
    else if n == 66
    then some reboot
    else none
