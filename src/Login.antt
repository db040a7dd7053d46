-- ===== src/Login.antt =====
-- What a connection may do before a client has logged on: the gate of `handleCommand` in
-- internal/smb/server.go, and `authenticate` of internal/smb/session.go behind it.
pub mod Setup
pub mod Messages
use portable_smb_server.Base.{
  ℕ, Bool, true, false, ◌&&◌, not, Option, none, some, List, [], ◌∷◌, ltb, ◌==◌, if◌then◌else◌,
  length, take, ◌≡◌, refl, sym, ◌∙◌, ap, ◌⊎◌, inl, inr, Bool-cases, Option-cases, if_lem,
  Option_lem, arith, subst, ◌+◌, ◌%◌, ◌^◌,
}
use portable_smb_server.Wire.{Bytes, u16, buffer_at, smb2_header_size}
use portable_smb_server.Packet.{Header, Command, command_of, parse_header}
use portable_smb_server.Packet
use portable_smb_server.Path.{is_empty}
use portable_smb_server.Spnego.{ntlm_message_type, type_authenticate}
use portable_smb_server.Crypto.{NtlmAuthenticate, parse_ntlm_authenticate}
use portable_smb_server.Conn.{Share, OpenFile, Env, State, Conn, Reply, or_else, mem}
use portable_smb_server.Session.{
  token_of, is_raw_ntlm, proof_holds, authenticate, finish_setup, begin_setup, setup_round,
  setup_on, handle_session_setup, with_session_id, IdReply, record_session,
  maybe_warn_windows_guest,
}
use portable_smb_server.Negotiate.{choose_dialect, handle_negotiate}
use portable_smb_server.Dispatch.Command.{
  ChainCtx, Step, Handled, run, run_session_setup, handle_command, needs_session, bad_signature,
  enter, command_body, empty_chain, respond, is_pre_auth,
}
use portable_smb_server.Dispatch.Message.{
  Part, parts, run_parts, dispatch, Dispatched, invalid_header, no_response, response,
  is_smb1_negotiate,
}
use portable_smb_server.Dispatch.Serve.{emit, serve_loop}

module _ {W H : Type 0} where
  -- Between the two states no session was recorded, and no share, no open and no backend was
  -- touched.
  pub record Untouched (s t : State W H) : Type 0 where
    pub no_session : t.conn.authed_sessions ≡ []
    pub same_world : t.world ≡ s.world
    pub same_handles : t.conn.handles ≡ s.conn.handles
    pub same_disk_trees : t.conn.disk_trees ≡ s.conn.disk_trees
    pub same_pipe_trees : t.conn.pipe_trees ≡ s.conn.pipe_trees

  pub Untouched-trans : (r s t : State W H) → Untouched r s → Untouched s t → Untouched r t
  Untouched-trans r s t p q = record {
    no_session = q.no_session;
    same_world = q.same_world ∙ p.same_world;
    same_handles = q.same_handles ∙ p.same_handles;
    same_disk_trees = q.same_disk_trees ∙ p.same_disk_trees;
    same_pipe_trees = q.same_pipe_trees ∙ p.same_pipe_trees;
  }

  pub Untouched-refl : (s : State W H) → s.conn.authed_sessions ≡ [] → Untouched s s
  Untouched-refl s e = record {
    no_session = e;
    same_world = refl;
    same_handles = refl;
    same_disk_trees = refl;
    same_pipe_trees = refl;
  }

-- the token of a SESSION_SETUP body
abbrev pub setup_token : Bytes → Bytes
setup_token body = token_of (or_else (buffer_at body (u16 body 12) (u16 body 14)) [])

module _ {W H : Type 0} (env : Env W H) where
  -- A token whose NTLMv2 proof holds for the configured user and password under a challenge.
  pub record Proof (challenge token : Bytes) : Type 0 where
    pub auth : NtlmAuthenticate
    pub parsed : parse_ntlm_authenticate token ≡ some auth
    pub holds : proof_holds env challenge auth ≡ true

  -- The command is a SESSION_SETUP with such a token, under the challenge of the connection.
  pub record ProvesAt (p : Part) (ctx : ChainCtx) (s : State W H) : Type 0 where
    pub is_setup : command_of p.header.command ≡ Packet.session_setup
    pub proof :
        Proof s.conn.auth_challenge
          (setup_token (command_body env p.header (enter p.header ctx) p.bytes))
