-- ===== src/Shield/Logon.antt =====
-- SESSION_SETUP and TREE_CONNECT (internal/smb/session.go and tree.go) behind read-only shares: a
-- client comes to no tree that is not one of the server's shares.
use portable_smb_server.Base.{
  ℕ, Bool, true, false, none, some, List, [], ◌∷◌, ltb, ◌==◌, if◌then◌else◌, length, ◌≡◌, sym, ◌∙◌,
  if_lem, Option_lem, All, arith, subst, some-injective,
}
use portable_smb_server.Wire.{Bytes, u16, buffer_at}
use portable_smb_server.Packet.Utf16.{Str, utf16le_to_string}
use portable_smb_server.Pattern.{Unicode, equal_fold}
use portable_smb_server.Spnego.{ntlm_message_type, type_authenticate}
use portable_smb_server.Conn.{Share, Env, State, Conn, with_conn, find_share}
use portable_smb_server.Path.{share_from_path}
use portable_smb_server.Session.{
  handle_session_setup, setup_on, finish_setup, begin_setup, authenticate, maybe_warn_windows_guest,
  record_session, handle_tree_connect, connect_disk, connect_pipe, IdReply, with_session_id,
  ipc_name, token_of,
}
use portable_smb_server.Shield.{Shielded, ShieldedOpen, ShieldedTree, Kept}
use portable_smb_server.Shield.Files.{KeptReply, some_none_lem}

module _ {W H : Type 0} (env : Env W H) where
  -- the two tables of a connection are the same
  abbrev SameTables : Conn W H → Conn W H → Type 0
  SameTables c d = (d.disk_trees ≡ c.disk_trees) × (d.handles ≡ c.handles)

  maybe_warn-SameTables :
      (token : Bytes) (c : Conn W H) → SameTables c (maybe_warn_windows_guest env token c)
  unfolding maybe_warn_windows_guest
  maybe_warn-SameTables token c = ground arith

  record_session-SameTables : (id : ℕ) (c : Conn W H) → SameTables c (record_session env id c)
  unfolding record_session
  record_session-SameTables id c = ground arith

  authenticate-SameTables :
      (token : Bytes) (c : Conn W H) (n : ℕ) (d : Conn W H)
      → authenticate env token c ≡ some (n, d)
      → SameTables c d
  unfolding authenticate
  authenticate-SameTables token c n d e = ground arith

module _ {W H V : Type 0} (view : W → V) (v : V) (env : Env W H) where
  SameTables-Kept :
      (s : State W H) (c : Conn W H)
      → Kept view v s
      → SameTables env s.conn c
      → Kept view v (with_conn s c)
  SameTables-Kept s c k (t, h) = record {
    world_kept = k.world_kept;
    trees_kept = subst (All (ShieldedTree view)) (sym t) k.trees_kept;
    handles_kept = subst (All (ShieldedOpen view)) (sym h) k.handles_kept;
  }

  finish_setup-Kept :
      (raw : Bool) (token : Bytes) (id : ℕ) (s : State W H)
      → Kept view v s
      → KeptReply view v (finish_setup env raw token id s)
  unfolding finish_setup
  finish_setup-Kept raw token id s k =
      Option_lem (KeptReply view v) (authenticate env token s.conn) k (λ r e.
        let (t1, h1) = authenticate-SameTables env token s.conn r.0 r.1 e in
        let (t2, h2) = record_session-SameTables env id r.1 in
        let (t3, h3) = maybe_warn-SameTables env token (record_session env id r.1) in
        SameTables-Kept s _ k (t3 ∙ t2 ∙ t1, h3 ∙ h2 ∙ h1))

  setup_on-Kept :
      (sec_buf : Bytes) (id : ℕ) (s : State W H)
      → Kept view v s
      → KeptReply view v (setup_on env sec_buf id s).answer
  unfolding setup_on begin_setup
  setup_on-Kept sec_buf id s k =
      let s1 = (with_session_id env id s).1 in
      let k1 : Kept view v s1 =
        if_lem (λ (r : ℕ × State W H). Kept view v r.1) (id == 0)
          (λ _. record {
            world_kept = k.world_kept;
            trees_kept = k.trees_kept;
            handles_kept = k.handles_kept;
          })
          (λ _. k) in
      if_lem (λ (r : IdReply W H). KeptReply view v r.answer)
        (ntlm_message_type (token_of sec_buf) == type_authenticate)
        (λ _. finish_setup-Kept _ _ _ s1 k1)
        (λ _. record {
          world_kept = k1.world_kept;
          trees_kept = k1.trees_kept;
          handles_kept = k1.handles_kept;
        })

  pub handle_session_setup-Kept :
      (id : ℕ) (body : Bytes) (s : State W H)
      → Kept view v s
      → KeptReply view v (handle_session_setup env id body s).answer
  unfolding handle_session_setup
  handle_session_setup-Kept id body s k =
      if_lem (λ (r : IdReply W H). KeptReply view v r.answer) (ltb (length body) 24) (λ _. k)
        (λ _. setup_on-Kept _ id s k)

  find_share-All :
      (u : Unicode) (name : Str) (shs : List (Share W H)) (sh : Share W H)
      → All (Shielded view) shs
      → find_share u name shs ≡ some sh
      → Shielded view sh
  unfolding find_share
  find_share-All u name [] sh p e = ground arith
  find_share-All u name (x ∷ shs) sh (px, p) e =
      go (equal_fold u x.name name) (find_share-All u name shs sh p) e
    where
      go :
          (b : Bool)
          → (find_share u name shs ≡ some sh → Shielded view sh)
          → (if b then some x else find_share u name shs) ≡ some sh
          → Shielded view sh
      go true rest h = subst (Shielded view) (some-injective x sh h) px
      go false rest h = rest h

  pub handle_tree_connect-Kept :
      (body : Bytes) (s : State W H)
      → All (Shielded view) env.shares
      → Kept view v s
      → KeptReply view v (handle_tree_connect env body s).answer
  unfolding handle_tree_connect connect_disk connect_pipe
  handle_tree_connect-Kept body s shs k =
      let P : IdReply W H → Type 0 = λ r. KeptReply view v r.answer in
      let path : Str = elim (buffer_at body (u16 body 4) (u16 body 6)) [
        | none ↦ []
        | some buf ↦ utf16le_to_string buf
      ] in
      if_lem P (ltb (length body) 8) (λ _. k)
        (λ _.
          some_none_lem P (find_share env.unicode (share_from_path path) env.shares)
            (if_lem P (equal_fold env.unicode (share_from_path path) ipc_name)
              (λ _. record {
                world_kept = k.world_kept;
                trees_kept = k.trees_kept;
                handles_kept = k.handles_kept;
              })
              (λ _. k))
            (λ sh e. record {
              world_kept = k.world_kept;
              trees_kept = (find_share-All env.unicode _ env.shares sh shs e, k.trees_kept);
              handles_kept = k.handles_kept;
            }))
