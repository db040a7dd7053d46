-- ===== src/Shield/Messages.antt =====
-- Commands, messages and a whole connection (internal/smb/server.go) behind read-only shares.
use portable_smb_server.Base.{
  Option, none, some, List, [], ◌∷◌, ltb, length, ◌≡◌, refl, sym, ◌∙◌, if_lem, Option_lem, All,
  subst,
}
use portable_smb_server.Wire.{Bytes, smb2_header_size}
use portable_smb_server.Packet.{
  Header, Command, command_of, parse_header, negotiate, session_setup, logoff, tree_connect,
  tree_disconnect, create, close, flush, read, write, lock, ioctl, cancel, echo, query_directory,
  query_info, set_info, unknown,
}
use portable_smb_server.Conn.{OpenFile, Env, State, Conn, new_conn, mem}
use portable_smb_server.Dispatch.Command.{
  ChainCtx, Handled, Step, run, run_create, run_session_setup, run_tree_connect,
  tree_disconnect_reply, handle_command, needs_session, bad_signature, enter, command_body,
  empty_chain, respond,
}
use portable_smb_server.Dispatch.Message.{
  Part, parts, run_parts, dispatch, Dispatched, invalid_header, no_response, response,
  is_smb1_negotiate,
}
use portable_smb_server.Dispatch.Serve.{close_each, close_all_handles, emit, serve_loop, serve}
use portable_smb_server.Shield.{Shielded, ShieldedOpen, ShieldedTree, Kept}
use portable_smb_server.Shield.Table.{delete_tree-All}
use portable_smb_server.Shield.Files.{
  KeptReply, handle_read-Kept, handle_write-Kept, handle_flush-Kept, handle_close-Kept,
}
use portable_smb_server.Shield.Opens.{handle_create-Kept}
use portable_smb_server.Shield.Changes.{
  handle_set_info-Kept, handle_query_info-Kept, handle_query_directory-Kept, handle_negotiate-Kept,
  handle_ioctl-Kept,
}
use portable_smb_server.Shield.Logon.{handle_session_setup-Kept, handle_tree_connect-Kept}

module _ {W H V : Type 0} (view : W → V) (v : V) (env : Env W H) where
  abbrev KeptRun : Option (Handled W H) → Type 0
  KeptRun none = Unit {0}
  KeptRun (some r) = KeptReply view v r.answer

  run_create-Kept :
      (ctx : ChainCtx) (body : Bytes) (s : State W H)
      → Kept view v s
      → KeptReply view v (run_create env ctx body s).answer
  unfolding run_create
  run_create-Kept ctx body s k =
      if_lem (λ (r : Handled W H). KeptReply view v r.answer) (mem ctx.tree_id s.conn.pipe_trees)
        (λ _. k) (λ _. handle_create-Kept view v body ctx.tree_id s k)

  module _ (shs : All (Shielded view) env.shares) where
    run-Kept :
        (c : Command) (h : Header) (ctx : ChainCtx) (body : Bytes) (s : State W H)
        → Kept view v s
        → KeptRun (run env c h ctx body s)
    unfolding run run_session_setup run_tree_connect tree_disconnect_reply
    run-Kept negotiate h ctx body s k = handle_negotiate-Kept view v env body s k
    run-Kept session_setup h ctx body s k =
        handle_session_setup-Kept view v env h.session_id body s k
    run-Kept tree_connect h ctx body s k = handle_tree_connect-Kept view v env body s shs k
    run-Kept tree_disconnect h ctx body s k = record {
      world_kept = k.world_kept;
      trees_kept = delete_tree-All view ctx.tree_id s.conn.disk_trees k.trees_kept;
      handles_kept = k.handles_kept;
    }
    run-Kept create h ctx body s k = run_create-Kept ctx body s k
    run-Kept close h ctx body s k = handle_close-Kept view v body s k
    run-Kept read h ctx body s k = handle_read-Kept view v body s k
    run-Kept write h ctx body s k = handle_write-Kept view v body s k
    run-Kept flush h ctx body s k = handle_flush-Kept view v body s k
    run-Kept query_directory h ctx body s k = handle_query_directory-Kept view v env body s k
    run-Kept query_info h ctx body s k = handle_query_info-Kept view v env body s k
    run-Kept set_info h ctx body s k = handle_set_info-Kept view v env body s k
    run-Kept ioctl h ctx body s k = handle_ioctl-Kept view v env body s k
    run-Kept logoff h ctx body s k = k
    run-Kept echo h ctx body s k = k
    run-Kept lock h ctx body s k = k
    run-Kept cancel h ctx body s k = tt
    run-Kept unknown h ctx body s k = k

    handle_command-Kept :
        (h : Header) (seg : Bytes) (ctx : ChainCtx) (s : State W H)
        → Kept view v s
        → Kept view v (handle_command env h seg ctx s).state
    unfolding handle_command
    handle_command-Kept h seg ctx0 s k =
        let P : Step W H → Type 0 = λ r. Kept view v r.state in
        let ctx = enter h ctx0 in
        if_lem P (needs_session env (command_of h.command) ctx.session_id s) (λ _. k)
          (λ _.
            if_lem P (bad_signature env h seg s) (λ _. k)
              (λ _.
                let r = run env (command_of h.command) h ctx (command_body env h ctx seg) s in
                go r (run-Kept (command_of h.command) h ctx (command_body env h ctx seg) s k)))
      where
        go :
            (r : Option (Handled W H))
            → KeptRun r
            → Kept view v (
                Step.state (elim r [
                  | none ↦ record { state = s; chain = enter h ctx0; pdu = none }
                  | some r ↦ respond env h r
                ]))
        go none p = k
        go (some r) p = p

    run_parts-Kept :
        (ps : List Part) (ctx : ChainCtx) (s : State W H)
        → Kept view v s
        → Kept view v (run_parts env ps ctx s).0
    unfolding run_parts
    run_parts-Kept [] ctx s k = k
    run_parts-Kept (p ∷ ps) ctx s k =
        run_parts-Kept ps _ _ (handle_command-Kept p.header p.bytes ctx s k)

    dispatch-Kept :
        (msg : Bytes) (s : State W H) → Kept view v s → Kept view v (dispatch env msg s).0
    unfolding dispatch
    dispatch-Kept msg s k =
        let P : State W H × Dispatched → Type 0 = λ r. Kept view v r.0 in
        if_lem P (is_smb1_negotiate msg) (λ _. k)
          (λ _.
            Option_lem P (parse_header msg) k (λ _ _. run_parts-Kept (parts msg) empty_chain s k))

module _ {W H V : Type 0} (view : W → V) (env : Env W H)
    (shs : All (Shielded view) env.shares) where
  emit-Kept :
      (v : V) (d : Dispatched) (rest : State W H × List Bytes) (s : State W H)
      → Kept view v rest.0
      → Kept view v s
      → Kept view v (emit env d rest s).0
  emit-Kept v invalid_header rest s r k = k
  emit-Kept v no_response rest s r k = r
  emit-Kept v (response out) (s1, outs) s r k = r

  serve_loop-Kept :
      (v : V) (msgs : List Bytes) (s : State W H)
      → Kept view v s
      → Kept view v (serve_loop env msgs s).0
  unfolding serve_loop
  serve_loop-Kept v [] s k = k
  serve_loop-Kept v (msg ∷ msgs) s k =
      let k1 = dispatch-Kept view v env shs msg s k in
      let d = dispatch env msg s in
      if_lem (λ (r : State W H × List Bytes). Kept view v r.0) (ltb (length msg) smb2_header_size)
        (λ _. serve_loop-Kept v msgs s k)
        (λ _. emit-Kept v d.1 (serve_loop env msgs d.0) d.0 (serve_loop-Kept v msgs d.0 k1) k1)

  close_each_view :
      (hs : List (OpenFile W H)) (w : W)
      → All (ShieldedOpen view) hs
      → view (close_each hs w) ≡ view w
  unfolding close_each
  close_each_view [] w p = refl
  close_each_view (of ∷ hs) w (o, p) =
      close_each_view hs _ p
      ∙ Option_lem (λ (w1 : W). view w1 ≡ view w) of.handle refl
          (λ h _. o.share_shielded.close_keeps w h)

  -- What the read-only shares hold stays as it is, whatever messages a client sends on a new
  -- connection, valid or not, compound or not, up to the close of all handles at its end: let
  -- `view` be what is seen of the read-only shares, that is, their reads, syncs, closes and opens
  -- with O_RDONLY leave it as it is, and so does every call on a share that is not read-only.
  -- Then serving all the messages leaves it as it is.
  pub serve_read_only :
      (msgs : List Bytes) (s : State W H)
      → s.conn ≡ new_conn
      → view (serve env msgs s).0.world ≡ view s.world
  unfolding serve close_all_handles
  serve_read_only msgs s e =
      let start : Kept view (view s.world) s = record {
        world_kept = refl;
        trees_kept = subst (λ c. All (ShieldedTree view) (Conn.disk_trees c)) (sym e) tt;
        handles_kept = subst (λ c. All (ShieldedOpen view) (Conn.handles c)) (sym e) tt;
      } in
      let k = serve_loop-Kept (view s.world) msgs s start in
      close_each_view _ _ k.handles_kept ∙ k.world_kept
