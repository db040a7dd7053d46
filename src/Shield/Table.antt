-- ===== src/Shield/Table.antt =====
-- Lemmas for `portable_smb_server.Shield`: the handle table and the tree tables of
-- internal/smb/create.go and server.go.
use portable_smb_server.Base.{
  ℕ, Bool, true, false, some, List, [], ◌∷◌, ◌==◌, if◌then◌else◌, list_eq, ◌≡◌, ◌∙◌, All, subst,
  some-injective, if_lem, arith,
}
use portable_smb_server.Wire.{Bytes}
use portable_smb_server.Conn.{
  Share, OpenFile, State, with_world, find_tree, delete_tree, find_handle, without_handle,
  update_handles, get_handle, add_handle, put_open, remove_handle,
}
use portable_smb_server.Shield.{Shielded, ShieldedOpen, ShieldedTree, Kept}

module _ {ℓ} {W H : Type 0} (P : OpenFile W H → Type ℓ) where
  pub find_handle_All :
      (id : Bytes) (hs : List (OpenFile W H)) (of : OpenFile W H)
      → All P hs
      → find_handle id hs ≡ some of
      → P of
  unfolding find_handle
  find_handle_All id [] of p e = ground arith
  find_handle_All id (x ∷ hs) of (px, p) e =
      go (list_eq x.file_id id) (find_handle_All id hs of p) e
    where
      go :
          (b : Bool)
          → (find_handle id hs ≡ some of → P of)
          → (if b then some x else find_handle id hs) ≡ some of
          → P of
      go true rest h = subst P (some-injective x of h) px
      go false rest h = rest h

  pub without_handle-All :
      (id : Bytes) (hs : List (OpenFile W H)) → All P hs → All P (without_handle id hs)
  unfolding without_handle
  without_handle-All id [] p = p
  without_handle-All id (x ∷ hs) (px, p) =
      if_lem (All P) (list_eq x.file_id id) (λ _. without_handle-All id hs p)
        (λ _. (px, without_handle-All id hs p))

  pub update_handles-All :
      (of : OpenFile W H) (hs : List (OpenFile W H))
      → P of
      → All P hs
      → All P (update_handles of hs)
  unfolding update_handles
  update_handles-All of [] po p = p
  update_handles-All of (x ∷ hs) po (px, p) =
      if_lem (All P) (list_eq x.file_id of.file_id) (λ _. (po, p))
        (λ _. (px, update_handles-All of hs po p))

module _ {W H V : Type 0} (view : W → V) where
  pub find_tree-All :
      (id : ℕ) (ts : List (ℕ × Share W H)) (sh : Share W H)
      → All (ShieldedTree view) ts
      → find_tree id ts ≡ some sh
      → Shielded view sh
  find_tree-All id [] sh p e = ground arith
  find_tree-All id ((k, x) ∷ ts) sh (px, p) e = go (k == id) (find_tree-All id ts sh p) e
    where
      go :
          (b : Bool)
          → (find_tree id ts ≡ some sh → Shielded view sh)
          → (if b then some x else find_tree id ts) ≡ some sh
          → Shielded view sh
      go true rest h = subst (Shielded view) (some-injective x sh h) px
      go false rest h = rest h

  pub delete_tree-All :
      (id : ℕ) (ts : List (ℕ × Share W H))
      → All (ShieldedTree view) ts
      → All (ShieldedTree view) (delete_tree id ts)
  delete_tree-All id [] p = p
  delete_tree-All id ((k, x) ∷ ts) (px, p) =
      if_lem (All (ShieldedTree view)) (k == id) (λ _. delete_tree-All id ts p)
        (λ _. (px, delete_tree-All id ts p))

module _ {W H V : Type 0} {view : W → V} {v : V} (s : State W H) (k : Kept view v s) where
  pub get_handle_kept :
      (id : Bytes) (of : OpenFile W H) → get_handle s id ≡ some of → ShieldedOpen view of
  get_handle_kept id of e =
      find_handle_All (ShieldedOpen view) id s.conn.handles of k.handles_kept e

  pub with_world-Kept : (w : W) → view w ≡ view s.world → Kept view v (with_world s w)
  with_world-Kept w e = record {
    world_kept = e ∙ k.world_kept;
    trees_kept = k.trees_kept;
    handles_kept = k.handles_kept;
  }

  pub put_open-Kept : (of : OpenFile W H) → ShieldedOpen view of → Kept view v (put_open s of)
  put_open-Kept of p = record {
    world_kept = k.world_kept;
    trees_kept = k.trees_kept;
    handles_kept = update_handles-All (ShieldedOpen view) of s.conn.handles p k.handles_kept;
  }

  pub remove_handle-Kept : (id : Bytes) → Kept view v (remove_handle s id)
  remove_handle-Kept id = record {
    world_kept = k.world_kept;
    trees_kept = k.trees_kept;
    handles_kept = without_handle-All (ShieldedOpen view) id s.conn.handles k.handles_kept;
  }

  pub add_handle-Kept : (of : OpenFile W H) → ShieldedOpen view of → Kept view v (add_handle s of)
  add_handle-Kept of p = record {
    world_kept = k.world_kept;
    trees_kept = k.trees_kept;
    handles_kept =
        (p, without_handle-All (ShieldedOpen view) of.file_id s.conn.handles k.handles_kept);
  }
