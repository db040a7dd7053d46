-- ===== src/Create/Handles.antt =====
-- The open that a CREATE of internal/smb/create.go leaves in the handle table.
use portable_smb_server.Base.{
  ℕ, ◌+◌, ◌%◌, ◌^◌, ◌≤◌, false, none, some, List, [], ◌∷◌, ltb, leb, ◌==◌, length, take, ◌≡◌, ◌≢◌,
  refl, sym, ◌∙◌, ap, subst, if_lem, Option_lem, arith, length-take, list_eq_refl, ◌⊎◌, inl, inr,
}
use portable_smb_server.Wire.{Bytes, u16, u32, slice, put32, has_bits, buffer_at}
use portable_smb_server.Packet.Utf16.{Str, utf16le_to_string}
use portable_smb_server.Path.{name_to_path}
use portable_smb_server.Wire.Fields.{length-put32, length-copy_at}
use portable_smb_server.Wire.Frame.{slice-copy_at, slice-append, slice-put32, slice-take}
use portable_smb_server.Packet.Status
use portable_smb_server.Conn.{
  Share, OpenFile, State, Reply, Attrs, fail, with_world, find_tree, get_handle, find_handle,
  file_id_of,
}
use portable_smb_server.Aapl.{
  create_contexts, find_context, aapl_context_name, apple_server_query_response,
  create_context_blob, with_create_contexts,
}
use portable_smb_server.Create.{
  Request, parse_request, Opening, Outcome, refused, opened, open_request, new_open,
  build_create_resp, apple_body, finish_create, create_on, handle_create, max_open_files,
}
use portable_smb_server.Create.Dispositions.{Answers, open_request-Answers}

-- the FileId of a response
abbrev pub file_id_in : Bytes → Bytes
file_id_in body = slice body 64 16

with_create_contexts-file_id :
    (resp ctxs : Bytes)
    → 88 ≤ length resp
    → file_id_in (with_create_contexts resp ctxs) ≡ file_id_in resp
unfolding with_create_contexts
with_create_contexts-file_id resp ctxs h =
    if_lem (λ b. file_id_in b ≡ file_id_in resp) (length ctxs == 0) (λ _. refl)
      (λ _.
        slice-append 64 16 (put32 (put32 (take 88 resp) 80 152) 84 (length ctxs)) ctxs (
          omega (
            arith,
            h,
            length-put32 (put32 (take 88 resp) 80 152) 84 (length ctxs),
            length-put32 (take 88 resp) 80 152,
            length-take 88 resp,
          ))
        ∙ slice-put32 64 16 84 (length ctxs) (put32 (take 88 resp) 80 152) (omega arith)
        ∙ slice-put32 64 16 80 152 (take 88 resp) (omega arith)
        ∙ slice-take 64 16 88 resp (omega arith))

-- the name that a CREATE's body carries at NameOffset and NameLength, if they lie inside the message
abbrev pub asked_name : Bytes → Str
asked_name body = elim (buffer_at body (u16 body 44) (u16 body 46)) [
  | none ↦ []
  | some buf ↦ utf16le_to_string buf
]

module _ {W H : Type 0} where
  apple_body-file_id :
      (body : Bytes) (sh : Share W H) (resp : Bytes)
      → 88 ≤ length resp
      → file_id_in (apple_body body sh resp) ≡ file_id_in resp
  unfolding apple_body
  apple_body-file_id body sh resp h =
      Option_lem (λ b. file_id_in b ≡ file_id_in resp)
        (find_context aapl_context_name (create_contexts body)) refl
        (λ req _.
          Option_lem (λ b. file_id_in b ≡ file_id_in resp) (apple_server_query_response req sh) refl
            (λ answer _.
              with_create_contexts-file_id resp (create_context_blob aapl_context_name answer) h))

  length-build_create_resp :
      (action : ℕ) (of : OpenFile W H) (a : Attrs) → length (build_create_resp action of a) ≡ 89
  unfolding build_create_resp
  length-build_create_resp action of a = length-copy_at _ 64 of.file_id

  build_create_resp-file_id :
      (action ctr : ℕ) (of : OpenFile W H) (a : Attrs)
      → of.file_id ≡ file_id_of ctr
      → file_id_in (build_create_resp action of a) ≡ of.file_id
  unfolding build_create_resp
  build_create_resp-file_id action ctr of a e =
      let size : length of.file_id ≡ 16 = ap length e in
      ap (slice (build_create_resp action of a) 64) (sym size)
      ∙ slice-copy_at _ 64 of.file_id (omega (arith, size))

  -- The open as a CREATE asks for it: on the share, at the place of its name and with the handle that
  -- the open gave, deleted on close where FILE_DELETE_ON_CLOSE asks for it, and nothing listed yet.
  pub record AsAsked (body id : Bytes) (share : Share W H) (opening : Opening H) (of : OpenFile W H)
      : Type 0 where
    pub same_id : of.file_id ≡ id
    pub same_share : of.share ≡ share
    pub same_path : of.path ≡ name_to_path (asked_name body)
    pub same_handle : of.handle ≡ opening.handle
    pub same_kind : of.is_dir ≡ opening.is_dir
    pub same_mark : of.delete_on_close ≡ has_bits (u32 body 40) 0x00001000
    pub none_listed : (of.dir_entries ≡ []) × (of.dir_pos ≡ 0) × (of.dir_loaded ≡ false)

  new_open-AsAsked :
      (body id : Bytes) (sh : Share W H) (o : Opening H)
      → AsAsked body id sh o (new_open id (parse_request body sh) o)
  unfolding parse_request
  new_open-AsAsked body id sh o = record {
    same_id = refl;
    same_share = refl;
    same_path = refl;
    same_handle = refl;
    same_kind = refl;
    same_mark = refl;
    none_listed = (refl, refl, refl);
  }

  -- What a CREATE that succeeds leaves, for the tree that it names and the request in its body.
  pub record Found (body : Bytes) (tree_id : ℕ) (s : State W H) (r : Reply W H) : Type 0 where
    pub succeeds : r.status ≡ Status.success
    pub share : Share W H
    pub in_tree : find_tree tree_id s.conn.disk_trees ≡ some share
    pub opening : Opening H
    pub was_opened : (open_request (parse_request body share) s.world).1 ≡ opened opening
    pub world_kept : r.state.world ≡ (open_request (parse_request body share) s.world).0
    pub stored : OpenFile W H
    pub in_table : get_handle r.state (file_id_in r.body) ≡ some stored
    pub as_asked : AsAsked body (file_id_in r.body) share opening stored

  -- a failure, or what was found
  abbrev pub Answered : Bytes → ℕ → State W H → Reply W H → Type 0
  Answered body tree_id s r = r.status ≢ Status.success ⊎ Found body tree_id s r

  finish_create-file_id :
      (body : Bytes) (r : Request W H) (o : Opening H) (s : State W H)
      → file_id_in (finish_create body r o s).body ≡ file_id_of ((s.conn.handle_ctr + 1) % 2 ^ 64)
  unfolding finish_create
  finish_create-file_id body r o s =
      let ctr = (s.conn.handle_ctr + 1) % 2 ^ 64 in
      apple_body-file_id body r.share _
        (omega (arith, length-build_create_resp o.action (new_open (file_id_of ctr) r o) _))
      ∙ build_create_resp-file_id o.action ctr (new_open (file_id_of ctr) r o) _ refl

  head_found :
      (of : OpenFile W H) (hs : List (OpenFile W H)) → find_handle of.file_id (of ∷ hs) ≡ some of
  unfolding find_handle
  head_found of hs = ground (arith, list_eq_refl of.file_id)

  finish_create-table :
      (body : Bytes) (r : Request W H) (o : Opening H) (s : State W H) (id : Bytes)
      → id ≡ file_id_of ((s.conn.handle_ctr + 1) % 2 ^ 64)
      → get_handle (finish_create body r o s).state id ≡ some (new_open id r o)
  unfolding finish_create
  finish_create-table body r o s id e =
      subst (λ i. get_handle (finish_create body r o s).state i ≡ some (new_open i r o)) (sym e)
        (head_found (new_open (file_id_of ((s.conn.handle_ctr + 1) % 2 ^ 64)) r o) _)

  finish_create-world :
      (body : Bytes) (r : Request W H) (o : Opening H) (s : State W H)
      → (finish_create body r o s).state.world ≡ s.world
  unfolding finish_create
  finish_create-world body r o s = refl

  finish_create-status :
      (body : Bytes) (r : Request W H) (o : Opening H) (s : State W H)
      → (finish_create body r o s).status ≡ Status.success
  unfolding finish_create
  finish_create-status body r o s = refl

  create_on-Answered :
      (body : Bytes) (tree_id : ℕ) (s : State W H) (sh : Share W H)
      → find_tree tree_id s.conn.disk_trees ≡ some sh
      → Answered body tree_id s (create_on body (parse_request body sh) s)
  unfolding create_on
  create_on-Answered body tree_id s sh e =
      go (open_request (parse_request body sh) s.world) refl (open_request-Answers body sh s.world)
    where
      r : Request W H
      r = parse_request body sh

      go :
          (out : W × Outcome H)
          → open_request r s.world ≡ out
          → Answers r (sh.fs.stat s.world r.path) (open_request r s.world).1
          → Answered body tree_id s (elim out.1 [
            | refused status ↦ fail (with_world s out.0) status
            | opened o ↦ finish_create body r o (with_world s out.0)
          ])
      go (w, refused status) q a = inl (subst (λ x. Answers r (sh.fs.stat s.world r.path) x.1) q a)
      go (w, opened o) q a =
          let s1 = with_world s w in
          let id = finish_create-file_id body r o s1 in
          inr (record {
            succeeds = finish_create-status body r o s1;
            share = sh;
            in_tree = e;
            opening = o;
            was_opened = ap (λ x. x.1) q;
            world_kept = finish_create-world body r o s1 ∙ ap (λ x. x.0) (sym q);
            stored = new_open (file_id_in (finish_create body r o s1).body) r o;
            in_table =
                finish_create-table body r o s1 (file_id_in (finish_create body r o s1).body) id;
            as_asked = new_open-AsAsked body (file_id_in (finish_create body r o s1).body) sh o;
          })

  -- A CREATE either fails, or the FileId in its response, with Apple's contexts behind it or not, is
  -- that of an open which the handle table now holds: on the share of the tree that the request names,
  -- at the cleaned path of the name that its body carries, with the mark for deletion that its
  -- options ask for, with the handle and the kind that the share's file system gave, and with no
  -- listing yet.
  pub handle_create-Answered :
      (body : Bytes) (tree_id : ℕ) (s : State W H)
      → Answered body tree_id s (handle_create body tree_id s)
  unfolding handle_create
  handle_create-Answered body tree_id s =
      if_lem (Answered body tree_id s) (ltb (length body) 56) (λ _. inl (λ e. ground (arith, e)))
        (λ _.
          if_lem (Answered body tree_id s) (leb max_open_files (length s.conn.handles))
            (λ _. inl (λ e. ground (arith, e)))
            (λ _.
              Option_lem (Answered body tree_id s) (find_tree tree_id s.conn.disk_trees)
                (inl (λ e. ground (arith, e))) (λ sh e. create_on-Answered body tree_id s sh e)))
