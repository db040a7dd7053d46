-- ===== src/Negotiate.antt =====
-- NEGOTIATE and the check of it behind an IOCTL: internal/smb/negotiate.go and
-- internal/smb/ioctl.go.
pub mod Choice
pub mod Agreement
use portable_smb_server.Base.{
  ℕ, zero, suc, ◌+◌, ◌*◌, Bool, true, false, Option, none, some, List, [], ◌∷◌, ◌++◌, ltb, ◌==◌,
  if◌then◌else◌, length,
}
use portable_smb_server.Wire.{
  Bytes, u16, u32, put16, put32, put64, zeros, copy_at, slice, smb2_header_size,
}
use portable_smb_server.Packet.{
  dialect202, dialect210, dialect300, dialect302, dialect_wildcard, smb2_magic,
  flags_server_to_redir,
}
use portable_smb_server.Packet.Status
use portable_smb_server.Packet.Filetime.{Time, time_to_filetime}
use portable_smb_server.Conn.{Env, State, Reply, reply, fail, with_conn, mem}

abbrev pub supported_dialects : List ℕ
supported_dialects = dialect302 ∷ dialect300 ∷ dialect210 ∷ dialect202 ∷ []

abbrev pub negotiate_signing_enabled : ℕ
negotiate_signing_enabled = 0x0001

-- maxIOSize, which the response advertises three times
abbrev pub max_transact : ℕ
max_transact = 0x00100000

-- The loop over the offered dialects: the `k` that are left stand from `36 + i*2` on.
unfoldable pub offered_loop : ℕ → Bytes → ℕ → List ℕ
offered_loop zero body off = []
offered_loop (suc k) body off =
    let rest = offered_loop k body (off + 2) in
    if ltb (length body) (off + 2) then [] else u16 body off ∷ rest

unfoldable pub offered : Bytes → List ℕ
unfolding offered_loop
offered body = offered_loop (u16 body 2) body 36

-- The first of a list that is offered.
unfoldable pub first_offered : List ℕ → List ℕ → Option ℕ
first_offered [] os = none
first_offered (d ∷ ds) os = if mem d os then some d else first_offered ds os

unfoldable pub choose_dialect : Bytes → Option ℕ
unfolding offered first_offered
choose_dialect body =
    if ltb (length body) 36 then none else first_offered supported_dialects (offered body)

unfoldable pub negotiate_resp_body : ℕ → Bytes → Time → Bytes
negotiate_resp_body dialect guid now =
    let b1 = put16 (put16 (put16 (zeros 64) 0 65) 2 negotiate_signing_enabled) 4 dialect in
    let b2 = copy_at (put16 b1 6 0) 8 guid in
    let b3 =
      put32 (put32 (put32 (put32 b2 24 0) 28 max_transact) 32 max_transact) 36 max_transact in
    let b4 = put64 (put64 b3 40 (time_to_filetime now)) 48 0 in
    put32 (put16 (put16 b4 56 (smb2_header_size + 64)) 58 0) 60 0

abbrev pub fsctl_validate_negotiate_info : ℕ
fsctl_validate_negotiate_info = 0x00140204

abbrev pub fsctl_dfs_get_referrals : ℕ
fsctl_dfs_get_referrals = 0x00060194

unfoldable pub ioctl_body : ℕ → Bytes → Bytes → Bytes
ioctl_body ctl_code file_id out =
    let b1 = copy_at (put32 (put16 (zeros 48) 0 49) 4 ctl_code) 8 file_id in
    put32 (put32 b1 32 (smb2_header_size + 48)) 36 (length out) ++ out

module _ {W H : Type 0} (env : Env W H) where
  unfoldable pub handle_negotiate : Bytes → State W H → Reply W H
  unfolding negotiate_resp_body
  handle_negotiate body s = elim (choose_dialect body) [
    | none ↦ fail s Status.not_supported
    | some dialect ↦
        reply (with_conn s (record s.conn { dialect = dialect })) Status.success
          (negotiate_resp_body dialect env.server_guid env.now)
  ]

  unfoldable pub smb1_negotiate_response : Bytes
  unfolding negotiate_resp_body
  smb1_negotiate_response =
      let b1 = put16 (copy_at (zeros smb2_header_size) 0 smb2_magic) 4 smb2_header_size in
      let b2 = put32 (put16 (put16 b1 12 0) 14 1) 16 flags_server_to_redir in
      b2 ++ negotiate_resp_body dialect_wildcard env.server_guid env.now

  -- the answer to VALIDATE_NEGOTIATE_INFO
  unfoldable pub validate_info : ℕ → Bytes
  validate_info dialect =
      let out = copy_at (put32 (zeros 24) 0 0) 4 env.server_guid in
      put16 (put16 out 20 negotiate_signing_enabled) 22 dialect

  unfoldable pub handle_ioctl : Bytes → State W H → Reply W H
  unfolding validate_info ioctl_body
  handle_ioctl body s =
      let ctl_code = u32 body 4 in
      if ltb (length body) 56
      then fail s Status.invalid_parameter
      else if ctl_code == fsctl_dfs_get_referrals
      then fail s Status.not_found
      else if ctl_code == fsctl_validate_negotiate_info
      then reply s Status.success
          (ioctl_body ctl_code (slice body 8 16) (validate_info s.conn.dialect))
      else fail s Status.not_supported
