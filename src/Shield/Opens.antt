-- ===== src/Shield/Opens.antt =====
-- Lemmas for `portable_smb_server.Shield`: CREATE of internal/smb/create.go.
use portable_smb_server.Base.{
  ℕ, Bool, true, false, ltb, leb, if◌then◌else◌, length, ◌≡◌, refl, if_lem, Option_lem, arith,
}
use portable_smb_server.Wire.{Bytes}
use portable_smb_server.Fsx.{FileInfo}
use portable_smb_server.Conn.{State, fail, with_world, find_tree}
use portable_smb_server.Create.{
  Request, parse_request, Opening, Outcome, refused, opened, make_directory, open_regular,
  open_existing_name, open_missing_name, open_request, finish_create, create_on, handle_create,
  share_refuses, file_refuses, read_only_flags, is_exclusive, needs_existing, new_open,
  max_open_files,
}
use portable_smb_server.Shield.{Shielded, Kept}
use portable_smb_server.Shield.Table.{with_world-Kept, add_handle-Kept, find_tree-All}
use portable_smb_server.Shield.Files.{KeptReply, err_ok_lem, ok_err_lem}

module _ {W H V : Type 0} (view : W → V) (v : V) where
  -- A request passes the gates of its share only if the share is not read-only or if it changes
  -- nothing.
  Passes : Request W H → Bool → Type 0
  Passes r exists = share_refuses r exists ≡ false

  -- what an open leaves: the view, and no mark for deletion on a read-only share
  abbrev pub KeptOpen : Request W H → W → W × Outcome H → Type 0
  KeptOpen r w out =
      (view out.0 ≡ view w)
      × ((o : Opening H) → out.1 ≡ opened o → r.delete_on_close ≡ true → r.share.read_only ≡ false)

  Passes-writable :
      (r : Request W H) (exists : Bool)
      → Passes r exists
      → r.delete_on_close ≡ true
      → r.share.read_only ≡ false
  unfolding Passes share_refuses
  Passes-writable r exists p d = ground arith

  Passes-creates :
      (r : Request W H) → Passes r false → r.wants_directory ≡ true → r.share.read_only ≡ false
  unfolding Passes share_refuses
  Passes-creates r p d = ground arith

  refused_lem :
      (r : Request W H) (w w1 : W) (n : ℕ) → view w1 ≡ view w → KeptOpen r w (w1, refused n)
  refused_lem r w w1 n e = (e, λ o q. elim (refused≢opened n o q) [ ])
    where
      refused≢opened : (n : ℕ) (o : Opening H) → refused n ≡ opened o → ⊥
      refused≢opened n o q = ground arith

  open_regular-Kept :
      (r : Request W H) (exists : Bool) (w : W)
      → Shielded view r.share
      → Passes r exists
      → KeptOpen r w (open_regular r exists w)
  unfolding open_regular
  open_regular-Kept r exists w sh p =
      let flags = if r.share.read_only then read_only_flags else r.flags in
      let e = kept r.share.read_only refl in
      err_ok_lem (KeptOpen r w) (r.share.fs.open_file w r.path flags).1
        (λ e1. refused_lem r w _ _ e) (λ h. (e, λ _ _ d. Passes-writable r exists p d))
    where
      kept :
          (b : Bool)
          → r.share.read_only ≡ b
          → view (r.share.fs.open_file w r.path (if b then read_only_flags else r.flags)).0 ≡ view w
      kept true q = sh.read_only_open_keeps w r.path
      kept false q = sh.open_keeps q w r.path r.flags

  make_directory-Kept :
      (r : Request W H) (w : W)
      → Shielded view r.share
      → Passes r false
      → r.wants_directory ≡ true
      → KeptOpen r w (make_directory r w)
  unfolding make_directory
  make_directory-Kept r w sh p d =
      let e = sh.mkdir_keeps (Passes-creates r p d) w r.path in
      err_ok_lem (KeptOpen r w) (r.share.fs.mkdir w r.path).1 (λ e1. refused_lem r w _ _ e)
        (λ _.
          err_ok_lem (KeptOpen r w) (r.share.fs.stat (r.share.fs.mkdir w r.path).0 r.path)
            (λ e1. refused_lem r w _ _ e) (λ _. (e, λ _ _ q. Passes-writable r false p q)))

  open_existing_name-Kept :
      (r : Request W H) (fi : FileInfo) (w : W)
      → Shielded view r.share
      → Passes r true
      → KeptOpen r w (open_existing_name r fi w)
  unfolding open_existing_name
  open_existing_name-Kept r fi w sh p =
      let plain : (out : Outcome H) → KeptOpen r w (w, out) =
        λ out. (refl, λ _ _ q. Passes-writable r true p q) in
      if_lem (KeptOpen r w) (file_refuses r fi) (λ _. plain _)
        (λ _.
          if_lem (KeptOpen r w) fi.is_dir (λ _. plain _)
            (λ _.
              if_lem (KeptOpen r w) r.wants_directory (λ _. plain _)
                (λ _. open_regular-Kept r true w sh p)))

  open_request-Kept :
      (r : Request W H) (w : W) → Shielded view r.share → KeptOpen r w (open_request r w)
  unfolding open_request open_missing_name Passes
  open_request-Kept r w sh =
      ok_err_lem (KeptOpen r w) (r.share.fs.stat w r.path)
        (λ e.
          if_lem (KeptOpen r w) (needs_existing r.disposition) (λ _. refused_lem r w _ _ refl)
            (λ _.
              if_lem (KeptOpen r w) (share_refuses r false) (λ _. refused_lem r w _ _ refl)
                (λ p.
                  if_lem (KeptOpen r w) r.wants_directory (λ d. make_directory-Kept r w sh p d)
                    (λ _. open_regular-Kept r false w sh p))))
        (λ fi.
          if_lem (KeptOpen r w) (is_exclusive r.disposition) (λ _. refused_lem r w _ _ refl)
            (λ _.
              if_lem (KeptOpen r w) (share_refuses r true) (λ _. refused_lem r w _ _ refl)
                (λ p. open_existing_name-Kept r fi w sh p)))

  finish_create-Kept :
      (body : Bytes) (r : Request W H) (o : Opening H) (s : State W H)
      → Kept view v s
      → Shielded view r.share
      → (r.delete_on_close ≡ true → r.share.read_only ≡ false)
      → KeptReply view v (finish_create body r o s)
  unfolding finish_create
  finish_create-Kept body r o s k sh p = record {
    world_kept = k.world_kept;
    trees_kept = k.trees_kept;
    handles_kept =
        (add_handle-Kept s k (new_open _ r o)
          (record { share_shielded = sh; keeps_file = p })).handles_kept;
  }

  create_on-Kept :
      (body : Bytes) (r : Request W H) (s : State W H)
      → Kept view v s
      → Shielded view r.share
      → KeptReply view v (create_on body r s)
  unfolding create_on
  create_on-Kept body r s k sh = go (open_request r s.world) (open_request-Kept r s.world sh)
    where
      go :
          (out : W × Outcome H)
          → KeptOpen r s.world out
          → KeptReply view v (elim out.1 [
            | refused status ↦ fail (with_world s out.0) status
            | opened o ↦ finish_create body r o (with_world s out.0)
          ])
      go (w, refused status) (e, p) = with_world-Kept s k w e
      go (w, opened o) (e, p) =
          finish_create-Kept body r o _ (with_world-Kept s k w e) sh (p o refl)

  pub handle_create-Kept :
      (body : Bytes) (tree_id : ℕ) (s : State W H)
      → Kept view v s
      → KeptReply view v (handle_create body tree_id s)
  unfolding handle_create parse_request
  handle_create-Kept body tree_id s k =
      if_lem (KeptReply view v) (ltb (length body) 56) (λ _. k)
        (λ _.
          if_lem (KeptReply view v) (leb max_open_files (length s.conn.handles)) (λ _. k)
            (λ _. Option_lem (KeptReply view v) (find_tree tree_id s.conn.disk_trees) k (λ sh e.
              create_on-Kept body (parse_request body sh) s k
                (find_tree-All view tree_id _ sh k.trees_kept e))))
