-- ===== src/Session.antt =====
-- SESSION_SETUP and TREE_CONNECT: internal/smb/session.go and internal/smb/tree.go.
use portable_smb_server.Base.{
  ℕ, ◌+◌, ◌%◌, ◌^◌, Bool, true, false, ◌||◌, ◌&&◌, not, Option, none, some, [], ◌∷◌, ◌++◌, ltb,
  ◌==◌, if◌then◌else◌, length, take, list_eq,
}
use portable_smb_server.Wire.{Bytes, u16, put8, put16, put32, zeros, buffer_at, smb2_header_size}
use portable_smb_server.Packet.{dialect300, dialect302}
use portable_smb_server.Packet.Status
use portable_smb_server.Packet.Utf16.{Str, utf16le_to_string}
use portable_smb_server.Path.{share_from_path, is_empty}
use portable_smb_server.Pattern.{equal_fold}
use portable_smb_server.Spnego.{
  ntlm_signature, ntlm_message_type, spnego_extract_ntlm, build_neg_token_resp, accept_completed,
  accept_incomplete, type_authenticate,
}
use portable_smb_server.Spnego.Challenge.{build_ntlm_challenge}
use portable_smb_server.Crypto.{
  NtlmAuthenticate, parse_ntlm_authenticate, ntowfv2, validate_ntlmv2, exported_session_key, kdf,
}
use portable_smb_server.Conn.{
  Share, Conn, Env, State, Reply, reply, fail, with_conn, or_else, find_share,
}
use portable_smb_server.Aapl.{access_all, access_read_execute}

-- sessionSetupRespBody
unfoldable pub session_setup_resp_body : ℕ → Bytes → Bytes
session_setup_resp_body session_flags sec_buf =
    let b1 = put16 (put16 (zeros 8) 0 9) 2 session_flags in
    put16 (put16 b1 4 (smb2_header_size + 8)) 6 (length sec_buf) ++ sec_buf

abbrev pub session_flag_is_guest : ℕ
session_flag_is_guest = 0x0001

-- "SMB2AESCMAC\x00" and "SmbSign\x00"
abbrev pub signing_label : Bytes
signing_label = b'S' ∷ b'M' ∷ b'B' ∷ b'2' ∷ b'A' ∷ b'E' ∷ b'S' ∷ b'C' ∷ b'M' ∷ b'A' ∷ b'C' ∷ 0 ∷ []

abbrev pub signing_context : Bytes
signing_context = b'S' ∷ b'm' ∷ b'b' ∷ b'S' ∷ b'i' ∷ b'g' ∷ b'n' ∷ 0 ∷ []

-- What SESSION_SETUP and TREE_CONNECT return: a reply, and the id that the response carries.
pub record IdReply (W H : Type 0) : Type 0 where
  pub id : ℕ
  pub answer : Reply W H

-- The token of a security buffer, and whether it is a bare NTLMSSP message.
unfoldable pub is_raw_ntlm : Bytes → Bool
is_raw_ntlm sec_buf = not (ltb (length sec_buf) 8) && list_eq (take 8 sec_buf) ntlm_signature

unfoldable pub token_of : Bytes → Bytes
unfolding is_raw_ntlm
token_of sec_buf = if is_raw_ntlm sec_buf then sec_buf else or_else (spnego_extract_ntlm sec_buf) []

abbrev pub share_type_disk : ℕ
share_type_disk = 0x01

abbrev pub share_type_pipe : ℕ
share_type_pipe = 0x02

-- "IPC$"
abbrev pub ipc_name : Str
ipc_name = b'I' ∷ b'P' ∷ b'C' ∷ b'$' ∷ []

unfoldable pub tree_body : ℕ → ℕ → Bytes
tree_body share_type maximal_access =
    let b1 = put8 (put8 (put16 (zeros 16) 0 16) 2 share_type) 3 0 in
    put32 (put32 (put32 b1 4 0) 8 0) 12 maximal_access

abbrev is_windows_client : Bytes → Bool
is_windows_client token = elim (parse_ntlm_authenticate token) [
  | none ↦ false
  | some auth ↦ not (ltb auth.os_major 10)
]

module _ {W H : Type 0} (env : Env W H) where
  -- the key that the response of a client with this password is made with
  unfoldable pub response_key : NtlmAuthenticate → Bytes
  response_key auth = ntowfv2 env.prims env.unicode env.user env.pass auth.domain

  -- the user's name and the NTLMv2 proof
  unfoldable pub proof_holds : Bytes → NtlmAuthenticate → Bool
  unfolding response_key
  proof_holds challenge auth =
      equal_fold env.unicode auth.user env.user
      && validate_ntlmv2 env.prims (response_key auth) challenge auth.nt_response

  -- the signing key of a logon: derived for the 3.x dialects
  unfoldable pub signing_key : ℕ → NtlmAuthenticate → Bytes
  unfolding response_key
  signing_key dialect auth =
      let session_key =
        exported_session_key env.prims (response_key auth) (take 16 auth.nt_response) auth.flags
          auth.enc_session_key in
      if dialect == dialect300 || dialect == dialect302
      then kdf env.prims session_key signing_label signing_context
      else session_key

  -- authenticate: the session flags and the connection, or nothing
  unfoldable pub authenticate : Bytes → Conn W H → Option (ℕ × Conn W H)
  unfolding proof_holds signing_key
  authenticate token c =
      if is_empty env.user
      then some (session_flag_is_guest, c)
      else elim (parse_ntlm_authenticate token) [
        | none ↦ none
        | some auth ↦
            if proof_holds c.auth_challenge auth
            then some (0, record c { sign_key = some (signing_key c.dialect auth) })
            else none
      ]

  -- maybeWarnWindowsGuest, without the log line
  unfoldable pub maybe_warn_windows_guest : Bytes → Conn W H → Conn W H
  maybe_warn_windows_guest token c =
      if not (is_empty env.user) || c.warned_windows_guest || not (is_windows_client token)
      then c
      else record c { warned_windows_guest = true }

  -- `c.authedSessions[sessionID] = struct{}{}`, where a user is configured
  unfoldable pub record_session : ℕ → Conn W H → Conn W H
  record_session session_id c =
      if is_empty env.user then c else record c { authed_sessions = session_id ∷ c.authed_sessions }

  -- the second round trip
  unfoldable pub finish_setup : Bool → Bytes → ℕ → State W H → Reply W H
  unfolding authenticate maybe_warn_windows_guest record_session
  finish_setup raw token session_id s = elim (authenticate token s.conn) [
    | none ↦ fail s Status.logon_failure
    | some (session_flags, c) ↦
        reply (with_conn s (maybe_warn_windows_guest token (record_session session_id c)))
          Status.success
          (session_setup_resp_body session_flags
            (if raw then [] else build_neg_token_resp accept_completed false none))
  ]

  -- the first round trip: eight random bytes are the challenge
  unfoldable pub begin_setup : Bool → State W H → Reply W H
  begin_setup raw s =
      let challenge = take 8 (env.random s.draws ++ zeros 8) in
      let s1 = record s {
        conn = record s.conn { auth_challenge = challenge };
        draws = s.draws + 1;
      } in
      let message = build_ntlm_challenge challenge env.now in
      reply s1 Status.more_processing_required (
        session_setup_resp_body 0
          (if raw then message else build_neg_token_resp accept_incomplete true (some message)))

  -- `sessionID == 0` draws the next id of the server
  abbrev pub with_session_id : ℕ → State W H → ℕ × State W H
  with_session_id id s =
      let next = (s.session_ctr + 1) % 2 ^ 64 in
      if id == 0 then (next, record s { session_ctr = next }) else (id, s)

  -- the two round trips
  unfoldable pub setup_round : Bytes → ℕ → State W H → IdReply W H
  unfolding finish_setup begin_setup
  setup_round sec_buf id s =
      let raw = is_raw_ntlm sec_buf in
      let token = token_of sec_buf in
      if ntlm_message_type token == type_authenticate
      then record { id = id; answer = finish_setup raw token id s }
      else record { id = id; answer = begin_setup raw s }

  unfoldable pub setup_on : Bytes → ℕ → State W H → IdReply W H
  unfolding setup_round
  setup_on sec_buf session_id s =
      let (id, s1) = with_session_id session_id s in setup_round sec_buf id s1

  unfoldable pub handle_session_setup : ℕ → Bytes → State W H → IdReply W H
  unfolding setup_on
  handle_session_setup session_id body s =
      if ltb (length body) 24
      then record { id = session_id; answer = fail s Status.invalid_parameter }
      else setup_on (or_else (buffer_at body (u16 body 12) (u16 body 14)) []) session_id s

  unfoldable pub connect_disk : Share W H → State W H → IdReply W H
  unfolding tree_body
  connect_disk sh s =
      let id = (s.tree_ctr + 1) % 2 ^ 32 in
      let c = record s.conn { disk_trees = (id, sh) ∷ s.conn.disk_trees } in
      let access = if sh.read_only then access_read_execute else access_all in
      record {
        id = id;
        answer =
            reply (record s { conn = c; tree_ctr = id }) Status.success
              (tree_body share_type_disk access);
      }

  unfoldable pub connect_pipe : State W H → IdReply W H
  unfolding tree_body
  connect_pipe s =
      let id = (s.tree_ctr + 1) % 2 ^ 32 in
      let c = record s.conn { pipe_trees = id ∷ s.conn.pipe_trees } in
      record {
        id = id;
        answer =
            reply (record s { conn = c; tree_ctr = id }) Status.success
              (tree_body share_type_pipe access_all);
      }

  unfoldable pub handle_tree_connect : Bytes → State W H → IdReply W H
  unfolding connect_disk connect_pipe
  handle_tree_connect body s =
      let path : Str = elim (buffer_at body (u16 body 4) (u16 body 6)) [
        | none ↦ []
        | some buf ↦ utf16le_to_string buf
      ] in
      let share_name = share_from_path path in
      if ltb (length body) 8
      then record { id = 0; answer = fail s Status.invalid_parameter }
      else elim (find_share env.unicode share_name env.shares) [
        | some sh ↦ connect_disk sh s
        | none ↦
            if equal_fold env.unicode share_name ipc_name
            then connect_pipe s
            else record { id = 0; answer = fail s Status.bad_network_name }
      ]
