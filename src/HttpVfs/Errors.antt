-- ===== src/HttpVfs/Errors.antt =====
-- Errors on their way from a provider to a client: `fail` of internal/vfsprovider/vfsprovider.go, and
-- `checkResp` of internal/httpvfs/httpvfs.go behind it.
use portable_smb_server.Base.{Bool, true, false, ◌≡◌, some, arith}
use portable_smb_server.Packet.Status
use portable_smb_server.Conn.{or_else}
use portable_smb_server.Fsx.{Error, other, is_not_exist, is_exist, is_permission, map_os_error}
use portable_smb_server.Provider.{fail_status}
use portable_smb_server.HttpVfs.{check_resp}

-- the error that a client makes of it
abbrev pub received : Error → Bool → Error
received e conflict_not_empty = or_else (check_resp (fail_status e) conflict_not_empty) other

-- What a client of a provider makes of the provider's errors: no error is taken for a success; a
-- missing and an existing name are reported to the SMB client as the provider's own server would
-- report them, except that a conflict in a removal stands for a directory that is not empty; and
-- a lack of permission turns into a write-protected medium.
pub check_resp-fail_status :
    (e : Error) (conflict_not_empty : Bool)
    → (check_resp (fail_status e) conflict_not_empty ≡ some (received e conflict_not_empty))
      × (is_not_exist e ≡ true → map_os_error (received e conflict_not_empty) ≡ map_os_error e)
      × (is_exist e ≡ true → map_os_error (received e false) ≡ map_os_error e)
      × (is_exist e ≡ true → map_os_error (received e true) ≡ Status.directory_not_empty)
      × (is_not_exist e ≡ false
          → is_exist e ≡ false
          → is_permission e ≡ true
          → map_os_error (received e conflict_not_empty) ≡ Status.media_write_protected)
unfolding check_resp fail_status map_os_error
check_resp-fail_status e c = (ground arith, ground arith, ground arith, ground arith, ground arith)
