-- ===== src/Fsx.antt =====
-- The file system interface of internal/fsx/fsx.go, the errors that a backend returns, and their
-- NTSTATUS codes: `mapOSError` of internal/smb/create.go, `osErrorStatus` of
-- internal/smb/oserror_other.go and oserror_windows.go.
pub mod Errors
use portable_smb_server.Base.{
  ℕ, Bool, true, false, ◌||◌, ◌&&◌, not, Option, none, some, List, ◌==◌, if◌then◌else◌, bit_and,
}
use portable_smb_server.Base.Int.{ℤ}
use portable_smb_server.Wire.{Bytes}
use portable_smb_server.Packet.Status
use portable_smb_server.Packet.Filetime.{Time}
use portable_smb_server.Packet.Utf16.{Str}

pub data UnixErrno : Type 0 where
  enoent eacces eperm eexist enotempty erofs enosys unix_other : UnixErrno

pub data WindowsErrno : Type 0 where
  file_not_found path_not_found access_denied already_exists file_exists : WindowsErrno
  dir_not_empty sharing_violation lock_violation write_protect windows_other : WindowsErrno

-- An error that wraps one of the sentinels of `os`, `io` and `fsx`, an error number of the
-- operating system, or any other error.
pub data Error : Type 0 where
  not_exist exist permission invalid read_only not_empty eof short_write other : Error
  unix_errno : UnixErrno → Error
  windows_errno : WindowsErrno → Error

-- errors.Is(err, os.ErrNotExist), os.ErrExist and os.ErrPermission. `syscall.Errno.Is` counts a
-- directory that is not empty among the errors that are `ErrExist`, on both systems.
abbrev pub is_not_exist : Error → Bool
is_not_exist not_exist = true
is_not_exist (unix_errno enoent) = true
is_not_exist (windows_errno file_not_found) = true
is_not_exist (windows_errno path_not_found) = true
is_not_exist _ = false

abbrev pub is_exist : Error → Bool
is_exist exist = true
is_exist (unix_errno eexist) = true
is_exist (unix_errno enotempty) = true
is_exist (windows_errno already_exists) = true
is_exist (windows_errno file_exists) = true
is_exist (windows_errno dir_not_empty) = true
is_exist _ = false

abbrev pub is_permission : Error → Bool
is_permission permission = true
is_permission (unix_errno eacces) = true
is_permission (unix_errno eperm) = true
is_permission (windows_errno access_denied) = true
is_permission _ = false

-- `osErrorStatus` of the build for systems other than Windows, and of the Windows build
unfoldable pub unix_status : UnixErrno → Option ℕ
unix_status enotempty = some Status.directory_not_empty
unix_status erofs = some Status.media_write_protected
unix_status enosys = some Status.not_supported
unix_status _ = none

unfoldable pub windows_status : WindowsErrno → Option ℕ
windows_status sharing_violation = some Status.sharing_violation
windows_status lock_violation = some Status.sharing_violation
windows_status dir_not_empty = some Status.directory_not_empty
windows_status write_protect = some Status.media_write_protected
windows_status _ = none

abbrev or_unsuccessful : Option ℕ → ℕ
or_unsuccessful none = Status.unsuccessful
or_unsuccessful (some status) = status

-- the cases below the three that look into error numbers
abbrev sentinel_status : Error → ℕ
sentinel_status read_only = Status.media_write_protected
sentinel_status not_empty = Status.directory_not_empty
sentinel_status invalid = Status.invalid_parameter
sentinel_status (unix_errno n) = or_unsuccessful (unix_status n)
sentinel_status (windows_errno n) = or_unsuccessful (windows_status n)
sentinel_status _ = Status.unsuccessful

-- `mapOSError` of an error that is not nil
unfoldable pub map_os_error : Error → ℕ
unfolding unix_status windows_status
map_os_error err =
    if is_not_exist err
    then Status.object_name_not_found
    else if is_exist err
    then Status.object_name_collision
    else if is_permission err
    then Status.access_denied
    else sentinel_status err

pub data Result {ℓ} (A : Type ℓ) : Type ℓ where
  ok : A → Result A
  err : Error → Result A

-- What the server reads of `os.FileInfo`. The size of a file is an int64 that is not negative.
pub record FileInfo : Type 0 where
  pub name : Str
  pub size : ℕ
  pub perm : ℕ
  pub mod_time : Time
  pub is_dir : Bool

-- The flags of `os.OpenFile` that the server combines: O_RDONLY is `read` alone, O_WRONLY `write` alone,
-- and O_RDWR both.
pub record OpenFlags : Type 0 where
  pub read : Bool
  pub write : Bool
  pub append : Bool
  pub create : Bool
  pub excl : Bool
  pub trunc : Bool

-- `fsx.FileSystem` and, over the backend's handles `H`, `fsx.File`. `W` is what the backend keeps:
-- a call that may change it returns the new one.
pub record FileSystem (W H : Type 0) : Type 0 where
  pub stat : W → Str → Result FileInfo
  pub open_file : W → Str → OpenFlags → W × Result H
  pub mkdir : W → Str → W × Result (Unit {0})
  pub read_dir : W → Str → Result (List FileInfo)
  pub rename : W → Str → Str → W × Result (Unit {0})
  pub remove : W → Str → W × Result (Unit {0})
  pub truncate : W → Str → ℤ → W × Result (Unit {0})
  pub chtimes : W → Str → Time → W × Result (Unit {0})
  pub statfs : W → Result (ℤ × ℤ)
  pub case_insensitive : Bool
  -- the bytes read and the error beside them
  pub read_at : W → H → ℕ → ℤ → W × Bytes × Option Error
  pub write_at : W → H → Bytes → ℤ → W × Result ℕ
  pub close : W → H → W × Result (Unit {0})
  pub truncate_handle : W → H → ℤ → W × Result (Unit {0})
  pub sync : W → H → W × Result (Unit {0})
  pub stat_handle : W → H → Result FileInfo

-- fi.Mode().Perm() & 0o222 == 0
unfoldable pub file_is_read_only : FileInfo → Bool
file_is_read_only fi = not fi.is_dir && bit_and fi.perm 0o222 == 0
