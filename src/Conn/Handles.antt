-- ===== src/Conn/Handles.antt =====
-- The handle table of internal/smb/create.go as a table: what `getHandle` finds after `addHandle`
-- and `removeHandle`.
use portable_smb_server.Base.{
  Bool, true, if◌then◌else◌, some-injective, subst, ℕ, false, none, some, List, [], ◌∷◌, list_eq,
  list_eq_refl, list_eq→eq, ◌≡◌, ◌≢◌, refl, sym, ◌∙◌, Bool-cases, inl, inr, arith,
}
use portable_smb_server.Wire.{Bytes}
use portable_smb_server.Conn.{
  OpenFile, State, find_handle, without_handle, get_handle, add_handle, remove_handle,
  update_handles,
}

list_eq_ne : (xs ys : List ℕ) → xs ≢ ys → list_eq xs ys ≡ false
list_eq_ne xs ys n = elim (Bool-cases (list_eq xs ys)) [
  | inl e ↦ elim (n (list_eq→eq xs ys e)) [ ]
  | inr e ↦ e
]

module _ {W H : Type 0} where
  find_handle-without_handle_same :
      (id : Bytes) (hs : List (OpenFile W H)) → find_handle id (without_handle id hs) ≡ none
  unfolding find_handle without_handle
  find_handle-without_handle_same id [] = refl
  find_handle-without_handle_same id (of ∷ hs) =
      let ih = find_handle-without_handle_same id hs in ground arith

  find_handle-without_handle_ne :
      (id other : Bytes) (hs : List (OpenFile W H))
      → id ≢ other
      → find_handle other (without_handle id hs) ≡ find_handle other hs
  unfolding find_handle without_handle
  find_handle-without_handle_ne id other [] n = refl
  find_handle-without_handle_ne id other (of ∷ hs) n =
      let ih = find_handle-without_handle_ne id other hs n in
      elim (Bool-cases (list_eq of.file_id id)) [
        | inr e ↦ ground arith
        | inl e ↦
            let q = list_eq→eq of.file_id id e in
            let f : list_eq of.file_id other ≡ false =
              list_eq_ne of.file_id other (λ r. n (sym q ∙ r)) in
            ground arith
      ]

  -- After an open is added, its id finds it, and every other id finds what it found before.
  pub get_handle-add_handle :
      (s : State W H) (of : OpenFile W H) (id : Bytes)
      → (get_handle (add_handle s of) of.file_id ≡ some of)
        × (of.file_id ≢ id → get_handle (add_handle s of) id ≡ get_handle s id)
  unfolding find_handle
  get_handle-add_handle s of id = (
    ground (arith, list_eq_refl of.file_id),
    λ n.
        let f : list_eq of.file_id id ≡ false = list_eq_ne of.file_id id n in
        let r = find_handle-without_handle_ne of.file_id id s.conn.handles n in ground arith,
  )

  -- After an id is removed it finds nothing, so a FileId cannot be used after its CLOSE, and every
  -- other id finds what it found before.
  pub get_handle-remove_handle :
      (s : State W H) (id other : Bytes)
      → (get_handle (remove_handle s id) id ≡ none)
        × (id ≢ other → get_handle (remove_handle s id) other ≡ get_handle s other)
  get_handle-remove_handle s id other = (
    find_handle-without_handle_same id s.conn.handles,
    find_handle-without_handle_ne id other s.conn.handles,
  )

  pub find_handle-id :
      (id : Bytes) (hs : List (OpenFile W H)) (of : OpenFile W H)
      → find_handle id hs ≡ some of
      → of.file_id ≡ id
  unfolding find_handle
  find_handle-id id [] of e = absurd (ground (arith, e))
  find_handle-id id (x ∷ hs) of e = go (find_handle-id id hs of) (list_eq x.file_id id) refl e
    where
      go :
          (find_handle id hs ≡ some of → of.file_id ≡ id)
          → (b : Bool) → list_eq x.file_id id ≡ b
          → (if b then some x else find_handle id hs) ≡ some of
          → of.file_id ≡ id
      go ih true q f =
          subst (λ (y : OpenFile W H). y.file_id ≡ id) (some-injective x of f)
            (list_eq→eq x.file_id id q)
      go ih false q f = ih f

  pub find_handle-update :
      (hs : List (OpenFile W H)) (of new : OpenFile W H)
      → find_handle new.file_id hs ≡ some of
      → find_handle new.file_id (update_handles new hs) ≡ some new
  unfolding find_handle update_handles
  find_handle-update [] of new e = absurd (ground (arith, e))
  find_handle-update (x ∷ hs) of new e =
      go (find_handle-update hs of new) (list_eq x.file_id new.file_id) refl e
    where
      go :
          (find_handle new.file_id hs ≡ some of
            → find_handle new.file_id (update_handles new hs) ≡ some new)
          → (b : Bool) → list_eq x.file_id new.file_id ≡ b
          → (if b then some x else find_handle new.file_id hs) ≡ some of
          → find_handle new.file_id (if b then new ∷ hs else x ∷ update_handles new hs) ≡ some new
      go ih true q f = ground (arith, list_eq_refl new.file_id)
      go ih false q f = ground (arith, q, ih f)
