-- ===== src/Fsx/Errors.antt =====
-- The statuses of `mapOSError` in internal/smb/create.go.
use portable_smb_server.Base.{◌≡◌, ◌≢◌, refl, ◌↔◌, arith}
use portable_smb_server.Packet.Status
use portable_smb_server.Fsx.{
  Error, map_os_error, not_empty, unix_errno, windows_errno, enotempty, dir_not_empty,
}

-- Of all errors a backend can return, only `fsx.ErrNotEmpty` is reported as a directory that is
-- not empty; the error numbers that the operating systems use for it are reported as a name
-- collision, because the test for `os.ErrExist` stands above the table of error numbers.
pub map_os_error-directory_not_empty :
    ((err : Error) → (map_os_error err ≡ Status.directory_not_empty) ↔ (err ≡ not_empty))
    × (map_os_error (unix_errno enotempty) ≡ Status.object_name_collision)
    × (map_os_error (windows_errno dir_not_empty) ≡ Status.object_name_collision)
unfolding map_os_error
map_os_error-directory_not_empty = (λ err. (ground arith, ground arith), refl, refl)

-- An error of a backend is never answered with STATUS_SUCCESS.
pub map_os_error_fails : (e : Error) → map_os_error e ≢ Status.success
unfolding map_os_error
map_os_error_fails e = ground arith
