-- ===== src/Examples/Hello.antt =====
-- NEGOTIATE and the check of it: requests of internal/smb/negotiate.go and internal/smb/ioctl.go.
use portable_smb_server.Base.{◌≡◌, refl, drop, arith}
use portable_smb_server.Wire.{Bytes, put16, put32, zeros}
use portable_smb_server.Packet.Status
use portable_smb_server.Negotiate.{
  choose_dialect, handle_negotiate, handle_ioctl, fsctl_validate_negotiate_info,
}
use portable_smb_server.Negotiate.Agreement.{Agree, handle_ioctl-Agree}
use portable_smb_server.Examples.Backend.{env, start}

-- a NEGOTIATE that offers 2.0.2, 2.1 and 3.1.1
abbrev hello : Bytes
hello = put16 (put16 (put16 (put16 (zeros 42) 2 3) 36 0x0202) 38 0x0210) 40 0x0311

abbrev check : Bytes
check = put32 (zeros 56) 4 fsctl_validate_negotiate_info

handle_ioctl-Agree_example :
    ((handle_ioctl env check (handle_negotiate env hello start).state).status ≡ Status.success)
    × Agree
        (handle_negotiate env hello start).body
        (drop 48 (handle_ioctl env check (handle_negotiate env hello start).state).body)
unfolding choose_dialect
handle_ioctl-Agree_example =
    handle_ioctl-Agree env hello check 0x0210 start (handle_negotiate env hello start).state refl
      refl refl (omega arith) refl
