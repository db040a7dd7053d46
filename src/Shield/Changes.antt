-- ===== src/Shield/Changes.antt =====
-- Lemmas for `portable_smb_server.Shield`: QUERY_INFO, QUERY_DIRECTORY and SET_INFO of
-- internal/smb/info.go, NEGOTIATE and IOCTL.
use portable_smb_server.Base.{
  ℕ, ◌+◌, Bool, false, ◌&&◌, ◌||◌, not, [], ◌∷◌, ltb, leb, ◌==◌, length, drop, ◌≡◌, if_lem,
  Option_lem, arith,
}
use portable_smb_server.Base.Int.{ℤ, int64}
use portable_smb_server.Wire.{Bytes, slice, u8, u32, u64, has_bits}
use portable_smb_server.Path.{name_to_path}
use portable_smb_server.Packet.Utf16.{Str, utf16le_to_string}
use portable_smb_server.Packet.Filetime.{filetime_to_time}
use portable_smb_server.Pattern.{equal_fold}
use portable_smb_server.Conn.{OpenFile, Env, State, Reply, get_handle, read_only_file}
use portable_smb_server.Info.Query.{
  handle_query_info, query_info, answer_info, FileClass, rename, disposition, allocation,
  end_of_file, basic,
}
use portable_smb_server.Info.Directory.{
  handle_query_directory, next_page, load, restart, one_of, flag_restart_scans,
}
use portable_smb_server.Info.Entries.{build_dir_info_buffer}
use portable_smb_server.Info.Set.{
  guarded, set_disposition, truncate_open, set_end_of_file, rename_open, set_basic, set_rename,
  set_info, handle_set_info, listed, exists, set_buffer,
}
use portable_smb_server.Negotiate.{
  choose_dialect, handle_negotiate, handle_ioctl, fsctl_dfs_get_referrals,
  fsctl_validate_negotiate_info,
}
use portable_smb_server.Shield.{ShieldedOpen, Kept}
use portable_smb_server.Shield.Table.{get_handle_kept, with_world-Kept, put_open-Kept}
use portable_smb_server.Shield.Files.{KeptReply, KeptWorld, err_ok_lem}

module _ {W H V : Type 0} (view : W → V) (v : V) where
  guarded-Kept :
      (s : State W H) (of : OpenFile W H) (r : Reply W H)
      → Kept view v s
      → (of.share.read_only ≡ false → KeptReply view v r)
      → KeptReply view v (guarded s of r)
  unfolding guarded
  guarded-Kept s of r k p =
      if_lem (KeptReply view v) of.share.read_only (λ _. k)
        (λ e. if_lem (KeptReply view v) (read_only_file s.world of) (λ _. k) (λ _. p e))

  set_disposition-Kept :
      (of : OpenFile W H) (buf : Bytes) (s : State W H)
      → Kept view v s
      → ShieldedOpen view of
      → KeptReply view v (set_disposition of buf s)
  unfolding set_disposition
  set_disposition-Kept of [] s k o = k
  set_disposition-Kept of (x ∷ xs) s k o =
      if_lem (KeptReply view v) (x == 0)
        (λ _.
          put_open-Kept s k _
            (record { share_shielded = o.share_shielded; keeps_file = λ e. ground arith }))
        (λ _. guarded-Kept s of _ k (λ writable.
          if_lem (KeptReply view v) (of.is_dir && listed (of.share.fs.read_dir s.world of.path))
            (λ _. k)
            (λ _.
              put_open-Kept s k _
                (record { share_shielded = o.share_shielded; keeps_file = λ _. writable }))))

  truncate_open-KeptWorld :
      (w : W) (of : OpenFile W H) (size : ℤ)
      → ShieldedOpen view of
      → of.share.read_only ≡ false
      → KeptWorld view w (truncate_open w of size)
  unfolding truncate_open
  truncate_open-KeptWorld w of size o e =
      Option_lem (KeptWorld view w) of.handle (o.share_shielded.truncate_keeps e w of.path size)
        (λ h _. o.share_shielded.truncate_handle_keeps e w h size)

  set_end_of_file-Kept :
      (of : OpenFile W H) (buf : Bytes) (s : State W H)
      → Kept view v s
      → ShieldedOpen view of
      → KeptReply view v (set_end_of_file of buf s)
  unfolding set_end_of_file
  set_end_of_file-Kept of buf s k o =
      if_lem (KeptReply view v) (ltb (length buf) 8) (λ _. k)
        (λ _. guarded-Kept s of _ k (λ e.
          let size = int64 (u64 buf 0) in
          let done = with_world-Kept s k _ (truncate_open-KeptWorld s.world of size o e) in
          err_ok_lem (KeptReply view v) (truncate_open s.world of size).1 (λ _. done) (λ _. done)))

  rename_open-Kept :
      (of : OpenFile W H) (new_path : Str) (s : State W H)
      → Kept view v s
      → ShieldedOpen view of
      → of.share.read_only ≡ false
      → KeptReply view v (rename_open of new_path s)
  unfolding rename_open
  rename_open-Kept of new_path s k o e =
      let renamed =
        with_world-Kept s k _ (o.share_shielded.rename_keeps e s.world of.path new_path) in
      err_ok_lem (KeptReply view v) (of.share.fs.rename s.world of.path new_path).1 (λ _. renamed)
        (λ _.
          put_open-Kept _ renamed _
            (record { share_shielded = o.share_shielded; keeps_file = o.keeps_file }))

  set_basic-Kept :
      (of : OpenFile W H) (buf : Bytes) (s : State W H)
      → Kept view v s
      → ShieldedOpen view of
      → KeptReply view v (set_basic of buf s)
  unfolding set_basic
  set_basic-Kept of buf s k o =
      if_lem (KeptReply view v)
        (ltb (length buf) 32 || u64 buf 16 == 0 || of.share.read_only || read_only_file s.world of)
        (λ _. k)
        (λ e. with_world-Kept s k _ (
          o.share_shielded.chtimes_keeps
            (writable (ltb (length buf) 32) (u64 buf 16 == 0) of.share.read_only
              (read_only_file s.world of) e)
            s.world of.path (filetime_to_time (u64 buf 16))))
    where
      writable : (a b c d : Bool) → (a || b || c || d) ≡ false → c ≡ false
      writable a b c d e = ground arith

  module _ (env : Env W H) where
    set_rename-Kept :
        (of : OpenFile W H) (buf : Bytes) (s : State W H)
        → Kept view v s
        → ShieldedOpen view of
        → of.share.read_only ≡ false
        → KeptReply view v (set_rename env of buf s)
    unfolding set_rename
    set_rename-Kept of buf s k o e =
        let name_len = u32 buf 16 in
        let new_path = name_to_path (utf16le_to_string (slice buf 20 name_len)) in
        if_lem (KeptReply view v) (ltb (length buf) 20 || ltb (length buf) (20 + name_len)) (λ _. k)
          (λ _.
            if_lem (KeptReply view v)
              (u8 buf 0 == 0
                && not (equal_fold env.unicode new_path of.path)
                && exists (of.share.fs.stat s.world new_path))
              (λ _. k) (λ _. rename_open-Kept of new_path s k o e))

    set_info-Kept :
        (class : FileClass) (of : OpenFile W H) (buf : Bytes) (s : State W H)
        → Kept view v s
        → ShieldedOpen view of
        → KeptReply view v (set_info env class of buf s)
    unfolding set_info
    set_info-Kept disposition of buf s k o = set_disposition-Kept of buf s k o
    set_info-Kept end_of_file of buf s k o = set_end_of_file-Kept of buf s k o
    set_info-Kept allocation of buf s k o = guarded-Kept s of _ k (λ _. k)
    set_info-Kept rename of buf s k o = guarded-Kept s of _ k (λ e. set_rename-Kept of buf s k o e)
    set_info-Kept basic of buf s k o = set_basic-Kept of buf s k o
    set_info-Kept _ of buf s k o = k

    pub handle_set_info-Kept :
        (body : Bytes) (s : State W H)
        → Kept view v s
        → KeptReply view v (handle_set_info env body s)
    unfolding handle_set_info
    handle_set_info-Kept body s k =
        if_lem (KeptReply view v) (ltb (length body) 32) (λ _. k)
          (λ _. Option_lem (KeptReply view v) (get_handle s (slice body 16 16)) k (λ of e.
            Option_lem (KeptReply view v) (set_buffer body) k (λ buf _.
              if_lem (KeptReply view v) (u8 body 2 == 1)
                (λ _. set_info-Kept _ of buf s k (get_handle_kept s k _ of e)) (λ _. k))))

    pub handle_query_info-Kept :
        (body : Bytes) (s : State W H)
        → Kept view v s
        → KeptReply view v (handle_query_info env body s)
    unfolding handle_query_info answer_info
    handle_query_info-Kept body s k =
        if_lem (KeptReply view v) (ltb (length body) 40) (λ _. k)
          (λ _. Option_lem (KeptReply view v) (get_handle s (slice body 24 16)) k (λ of _.
            Option_lem (KeptReply view v) (query_info env (u8 body 2) (u8 body 3) of s.world) k
              (λ info _.
                if_lem (KeptReply view v) (ltb (u32 body 4) (length info)) (λ _. k) (λ _. k))))

    next_page-Kept :
        (class flags max_len : ℕ) (of : OpenFile W H) (s : State W H)
        → Kept view v s
        → ShieldedOpen view of
        → KeptReply view v (next_page env class flags max_len of s)
    unfolding next_page
    next_page-Kept class flags max_len of s k o =
        let entries = one_of env flags (drop of.dir_pos of.dir_entries) in
        let n = (build_dir_info_buffer env.prims class of s.conn.aapl entries max_len).1 in
        if_lem (KeptReply view v) (leb (length of.dir_entries) of.dir_pos || n == 0)
          (λ _. put_open-Kept s k of o)
          (λ _.
            put_open-Kept s k _
              (record { share_shielded = o.share_shielded; keeps_file = o.keeps_file }))

    load_shielded :
        (flags : ℕ) (of : OpenFile W H) (pattern : Str) (w : W)
        → ShieldedOpen view of
        → ShieldedOpen view (load env (restart env flags of) pattern w)
    unfolding load restart
    load_shielded flags of pattern w o =
        let again : ShieldedOpen view (restart env flags of) =
          if_lem (ShieldedOpen view) (has_bits flags flag_restart_scans)
            (λ _. record { share_shielded = o.share_shielded; keeps_file = o.keeps_file })
            (λ _. o) in
        if_lem (ShieldedOpen view) (restart env flags of).dir_loaded (λ _. again)
          (λ _. record { share_shielded = again.share_shielded; keeps_file = again.keeps_file })

    pub handle_query_directory-Kept :
        (body : Bytes) (s : State W H)
        → Kept view v s
        → KeptReply view v (handle_query_directory env body s)
    unfolding handle_query_directory
    handle_query_directory-Kept body s k =
        if_lem (KeptReply view v) (ltb (length body) 32) (λ _. k)
          (λ _. Option_lem (KeptReply view v) (get_handle s (slice body 8 16)) k (λ of e.
            if_lem (KeptReply view v) (not of.is_dir) (λ _. k)
              (λ _.
                next_page-Kept _ _ _ _ s k
                  (load_shielded _ of _ s.world (get_handle_kept s k _ of e)))))

    pub handle_negotiate-Kept :
        (body : Bytes) (s : State W H)
        → Kept view v s
        → KeptReply view v (handle_negotiate env body s)
    unfolding handle_negotiate
    handle_negotiate-Kept body s k =
        Option_lem (KeptReply view v) (choose_dialect body) k (λ dialect _. record {
          world_kept = k.world_kept;
          trees_kept = k.trees_kept;
          handles_kept = k.handles_kept;
        })

    pub handle_ioctl-Kept :
        (body : Bytes) (s : State W H) → Kept view v s → KeptReply view v (handle_ioctl env body s)
    unfolding handle_ioctl
    handle_ioctl-Kept body s k =
        if_lem (KeptReply view v) (ltb (length body) 56) (λ _. k)
          (λ _.
            if_lem (KeptReply view v) (u32 body 4 == fsctl_dfs_get_referrals) (λ _. k)
              (λ _.
                if_lem (KeptReply view v) (u32 body 4 == fsctl_validate_negotiate_info) (λ _. k)
                  (λ _. k)))
