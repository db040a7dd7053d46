-- ===== src/Dispatch/Command.antt =====
-- One command: `chainCtx`, `handleCommand` and `substituteFileID` of internal/smb/server.go.
use portable_smb_server.Base.{
  ℕ, ◌+◌, Bool, true, false, ◌&&◌, not, Option, none, some, ltb, ◌==◌, if◌then◌else◌, length, drop,
}
use portable_smb_server.Wire.{Bytes, copy_at, slice, has_bits, smb2_header_size}
use portable_smb_server.Packet.{
  Command, command_of, Header, build_response, error_response_body, flags_related_ops, flags_signed,
  negotiate, session_setup, logoff, tree_connect, tree_disconnect, create, close, flush, read,
  write, lock, ioctl, cancel, echo, query_directory, query_info, set_info, unknown,
}
use portable_smb_server.Packet.Status
use portable_smb_server.Path.{is_empty}
use portable_smb_server.Crypto.{verify_message}
use portable_smb_server.Conn.{Env, State, Reply, reply, fail, with_conn, mem, delete, delete_tree}
use portable_smb_server.Create.{handle_create}
use portable_smb_server.Io.{
  handle_read, handle_write, handle_flush, handle_close, echo_response_body,
  tree_disconnect_response_body, logoff_response_body, lock_response_body,
}
use portable_smb_server.Info.Query.{handle_query_info}
use portable_smb_server.Info.Directory.{handle_query_directory}
use portable_smb_server.Info.Set.{handle_set_info}
use portable_smb_server.Negotiate.{handle_negotiate, handle_ioctl}
use portable_smb_server.Session.{handle_session_setup, handle_tree_connect}

pub record ChainCtx : Type 0 where
  pub file_id : Option Bytes
  pub session_id : ℕ
  pub tree_id : ℕ

-- `var ctx chainCtx`
abbrev pub empty_chain : ChainCtx
empty_chain = record { file_id = none; session_id = 0; tree_id = 0 }

-- where the FileId of a command stands in its body
unfoldable pub file_id_offset : Command → Option ℕ
file_id_offset close = some 8
file_id_offset flush = some 8
file_id_offset ioctl = some 8
file_id_offset query_directory = some 8
file_id_offset read = some 16
file_id_offset write = some 16
file_id_offset set_info = some 16
file_id_offset query_info = some 24
file_id_offset _ = none

unfoldable pub substitute_file_id : Command → Bytes → Bytes → Bytes
unfolding file_id_offset
substitute_file_id command body file_id = elim (file_id_offset command) [
  | none ↦ body
  | some off ↦ if ltb (length body) (off + 16) then body else copy_at body off file_id
]

-- What a command's case of the `switch` leaves: its reply, the ids that the response carries, and
-- the chain that the next command finds.
pub record Handled (W H : Type 0) : Type 0 where
  pub answer : Reply W H
  pub session_id : ℕ
  pub tree_id : ℕ
  pub chain : ChainCtx

-- The response PDU, where there is one, and the state and the chain behind it.
pub record Step (W H : Type 0) : Type 0 where
  pub state : State W H
  pub chain : ChainCtx
  pub pdu : Option Bytes

-- the ids of a command: its own, or those of the command before
abbrev pub is_related : Header → Bool
is_related h = has_bits h.flags flags_related_ops

unfoldable pub enter : Header → ChainCtx → ChainCtx
enter h ctx =
    if is_related h then ctx else record ctx { session_id = h.session_id; tree_id = h.tree_id }

-- NEGOTIATE and SESSION_SETUP, which need no session
abbrev pub is_pre_auth : Command → Bool
is_pre_auth negotiate = true
is_pre_auth session_setup = true
is_pre_auth _ = false

-- `if credits < 1 { credits = 1 }`
abbrev pub credits_of : Header → ℕ
credits_of h = if h.credit_req_resp == 0 then 1 else h.credit_req_resp

-- a CREATE that succeeded leaves its FileId to the chain
abbrev pub created_id : ℕ → Bytes → Option Bytes → Option Bytes
created_id status body old =
    if status == Status.success && not (ltb (length body) 80) then some (slice body 64 16) else old

module _ {W H : Type 0} (env : Env W H) where
  -- the reply of a command that leaves the chain as it is
  abbrev pub plain : ChainCtx → Reply W H → Handled W H
  plain ctx r = record {
    answer = r;
    session_id = ctx.session_id;
    tree_id = ctx.tree_id;
    chain = ctx;
  }

  unfoldable pub run_create : ChainCtx → Bytes → State W H → Handled W H
  run_create ctx body s =
      let r = handle_create body ctx.tree_id s in
      if mem ctx.tree_id s.conn.pipe_trees
      then plain ctx (fail s Status.object_name_not_found)
      else record (plain ctx r) {
        chain = record ctx { file_id = created_id r.status r.body ctx.file_id };
      }

  unfoldable pub run_session_setup : ChainCtx → Header → Bytes → State W H → Handled W H
  run_session_setup ctx h body s =
      let r = handle_session_setup env h.session_id body s in
      record {
        answer = r.answer;
        session_id = r.id;
        tree_id = ctx.tree_id;
        chain = record ctx { session_id = r.id };
      }

  unfoldable pub run_tree_connect : ChainCtx → Bytes → State W H → Handled W H
  run_tree_connect ctx body s =
      let r = handle_tree_connect env body s in
      record {
        answer = r.answer;
        session_id = ctx.session_id;
        tree_id = r.id;
        chain = record ctx { tree_id = r.id };
      }

  unfoldable pub tree_disconnect_reply : ℕ → State W H → Reply W H
  tree_disconnect_reply tree_id s =
      let c = record s.conn {
        pipe_trees = delete tree_id s.conn.pipe_trees;
        disk_trees = delete_tree tree_id s.conn.disk_trees;
      } in
      reply (with_conn s c) Status.success tree_disconnect_response_body

  -- the `switch`; CANCEL has no response
  unfoldable pub run : Command → Header → ChainCtx → Bytes → State W H → Option (Handled W H)
  unfolding run_create run_session_setup run_tree_connect tree_disconnect_reply
  run negotiate h ctx body s = some (plain ctx (handle_negotiate env body s))
  run session_setup h ctx body s = some (run_session_setup ctx h body s)
  run tree_connect h ctx body s = some (run_tree_connect ctx body s)
  run tree_disconnect h ctx body s = some (plain ctx (tree_disconnect_reply ctx.tree_id s))
  run logoff h ctx body s = some (plain ctx (reply s Status.success logoff_response_body))
  run echo h ctx body s = some (plain ctx (reply s Status.success echo_response_body))
  run create h ctx body s = some (run_create ctx body s)
  run close h ctx body s = some (plain ctx (handle_close body s))
  run read h ctx body s = some (plain ctx (handle_read body s))
  run write h ctx body s = some (plain ctx (handle_write body s))
  run flush h ctx body s = some (plain ctx (handle_flush body s))
  run query_directory h ctx body s = some (plain ctx (handle_query_directory env body s))
  run query_info h ctx body s = some (plain ctx (handle_query_info env body s))
  run set_info h ctx body s = some (plain ctx (handle_set_info env body s))
  run ioctl h ctx body s = some (plain ctx (handle_ioctl env body s))
  run lock h ctx body s = some (plain ctx (reply s Status.success lock_response_body))
  run cancel h ctx body s = none
  run unknown h ctx body s = some (plain ctx (fail s Status.not_supported))

  -- `c.server.opt.User != ""`, a command behind the handshake, and a session that is not recorded
  unfoldable pub needs_session : Command → ℕ → State W H → Bool
  needs_session command session_id s =
      not (is_empty env.user)
      && not (is_pre_auth command)
      && not (mem session_id s.conn.authed_sessions)

  -- a signed request whose signature is not the key's
  unfoldable pub bad_signature : Header → Bytes → State W H → Bool
  bad_signature h seg s = elim s.conn.sign_key [
    | none ↦ false
    | some key ↦
        has_bits h.flags flags_signed && not (verify_message env.prims key s.conn.dialect seg)
  ]

  -- the body as the handlers read it
  abbrev pub command_body : Header → ChainCtx → Bytes → Bytes
  command_body h ctx seg =
      let body = drop smb2_header_size seg in
      elim ctx.file_id [
        | none ↦ body
        | some id ↦ if is_related h then substitute_file_id (command_of h.command) body id else body
      ]

  abbrev pub refuse : Header → ChainCtx → ℕ → State W H → Step W H
  refuse h ctx status s = record {
    state = s;
    chain = ctx;
    pdu = some (
        build_response h h.command status ctx.session_id ctx.tree_id (credits_of h)
          error_response_body);
  }

  abbrev pub respond : Header → Handled W H → Step W H
  respond h r = record {
    state = r.answer.state;
    chain = r.chain;
    pdu = some (
        build_response h h.command r.answer.status r.session_id r.tree_id (credits_of h)
          r.answer.body);
  }

  unfoldable pub handle_command : Header → Bytes → ChainCtx → State W H → Step W H
  unfolding enter
  handle_command h seg ctx0 s =
      let ctx = enter h ctx0 in
      let command = command_of h.command in
      if needs_session command ctx.session_id s
      then refuse h ctx Status.user_session_deleted s
      else if bad_signature h seg s
      then refuse h ctx Status.access_denied s
      else elim (run command h ctx (command_body h ctx seg) s) [
        | none ↦ record { state = s; chain = ctx; pdu = none }
        | some r ↦ respond h r
      ]
