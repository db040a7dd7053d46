-- ===== src/Shield/Files.antt =====
-- Lemmas for `portable_smb_server.Shield`: READ, WRITE, FLUSH and CLOSE of internal/smb/io.go.
use portable_smb_server.Base.{
  ℕ, Bool, true, false, Option, none, some, [], ◌∷◌, ltb, ◌==◌, length, ◌≡◌, refl, ◌∙◌, if_lem,
  Option_lem,
}
use portable_smb_server.Base.Int.{int64}
use portable_smb_server.Wire.{Bytes, slice, u32, u64}
use portable_smb_server.Fsx.{Error, Result, ok, err}
use portable_smb_server.Conn.{OpenFile, State, Reply, get_handle}
use portable_smb_server.Io.{
  read_reply, read_open, handle_read, write_data, write_open, handle_write, handle_flush,
  close_open, delete_closed, close_world, handle_close, max_io_size,
}
use portable_smb_server.Shield.{ShieldedOpen, Kept}
use portable_smb_server.Shield.Table.{get_handle_kept, with_world-Kept, remove_handle-Kept}

pub err_ok_lem {ℓ κ μ} :
    {A : Type ℓ} {B : Type μ} (P : B → Type κ) (r : Result A) {f : Error → B} {g : A → B}
    → ((e : Error) → P (f e))
    → ((a : A) → P (g a))
    → P (elim r [ err e ↦ f e | ok a ↦ g a ])
err_ok_lem P (err e) p q = p e
err_ok_lem P (ok a) p q = q a

-- the same, of cases in the other order
pub ok_err_lem {ℓ κ μ} :
    {A : Type ℓ} {B : Type μ} (P : B → Type κ) (r : Result A) {f : Error → B} {g : A → B}
    → ((e : Error) → P (f e))
    → ((a : A) → P (g a))
    → P (elim r [ ok a ↦ g a | err e ↦ f e ])
ok_err_lem P (err e) p q = p e
ok_err_lem P (ok a) p q = q a

pub some_none_lem {ℓ κ μ} :
    {A : Type ℓ} {B : Type μ} (P : B → Type κ) (o : Option A) {x : B} {f : A → B}
    → P x
    → ((a : A) → o ≡ some a → P (f a))
    → P (elim o [ some a ↦ f a | none ↦ x ])
some_none_lem P none p q = p
some_none_lem P (some a) p q = q a refl

false_true_lem {ℓ κ} :
    {B : Type ℓ} (P : B → Type κ) (b : Bool) {x y : B}
    → (b ≡ false → P x)
    → (b ≡ true → P y)
    → P (elim b [ false ↦ x | true ↦ y ])
false_true_lem P false p q = p refl
false_true_lem P true p q = q refl

-- what a step on the world leaves of the view
abbrev pub KeptWorld : {W V A : Type 0} → (W → V) → W → W × A → Type 0
KeptWorld view w r = view r.0 ≡ view w

module _ {W H V : Type 0} (view : W → V) (v : V) where
  abbrev pub KeptReply : Reply W H → Type 0
  KeptReply r = Kept view v r.state

  read_reply-Kept :
      (s : State W H) (got : Bytes) (e : Option Error)
      → Kept view v s
      → KeptReply (read_reply s got e)
  unfolding read_reply
  read_reply-Kept s [] none k = k
  read_reply-Kept s [] (some e) k = k
  read_reply-Kept s (x ∷ xs) e k = k

  read_open-Kept :
      (s : State W H) (of : OpenFile W H) (h : H) (len offset : ℕ)
      → Kept view v s
      → ShieldedOpen view of
      → KeptReply (read_open s of h len offset)
  unfolding read_open
  read_open-Kept s of h len offset k o =
      if_lem KeptReply (ltb max_io_size len) (λ _. k)
        (λ _.
          if_lem KeptReply (len == 0) (λ _. k)
            (λ _. read_reply-Kept _ _ _ (
              with_world-Kept s k _ (o.share_shielded.read_at_keeps s.world h len (int64 offset)))))

  pub handle_read-Kept :
      (body : Bytes) (s : State W H) → Kept view v s → KeptReply (handle_read body s)
  unfolding handle_read
  handle_read-Kept body s k =
      if_lem KeptReply (ltb (length body) 48) (λ _. k)
        (λ _. Option_lem KeptReply (get_handle s (slice body 16 16)) k (λ of e.
          Option_lem KeptReply of.handle k (λ h _.
            read_open-Kept s of h (u32 body 4) (u64 body 8) k (get_handle_kept s k _ of e))))

  write_open-Kept :
      (s : State W H) (of : OpenFile W H) (h : H) (bytes : Bytes) (offset : ℕ)
      → Kept view v s
      → ShieldedOpen view of
      → of.share.read_only ≡ false
      → KeptReply (write_open s of h bytes offset)
  unfolding write_open
  write_open-Kept s of h bytes offset k o e =
      let done =
        with_world-Kept s k _ (o.share_shielded.write_at_keeps e s.world h bytes (int64 offset)) in
      err_ok_lem KeptReply (of.share.fs.write_at s.world h bytes (int64 offset)).1 (λ _. done)
        (λ _. done)

  pub handle_write-Kept :
      (body : Bytes) (s : State W H) → Kept view v s → KeptReply (handle_write body s)
  unfolding handle_write
  handle_write-Kept body s k =
      if_lem KeptReply (ltb (length body) 48) (λ _. k)
        (λ _. Option_lem KeptReply (get_handle s (slice body 16 16)) k (λ of e.
          Option_lem KeptReply of.handle k (λ h _.
            if_lem KeptReply of.share.read_only (λ _. k)
              (λ writable. Option_lem KeptReply (write_data body) k (λ bytes _.
                write_open-Kept s of h bytes (u64 body 8) k (get_handle_kept s k _ of e)
                  writable)))))

  pub handle_flush-Kept :
      (body : Bytes) (s : State W H) → Kept view v s → KeptReply (handle_flush body s)
  unfolding handle_flush
  handle_flush-Kept body s k =
      if_lem KeptReply (ltb (length body) 24) (λ _. k)
        (λ _. Option_lem KeptReply (get_handle s (slice body 8 16)) k (λ of e.
          Option_lem KeptReply of.handle k (λ h _.
            let synced = (get_handle_kept s k _ of e).share_shielded.sync_keeps s.world h in
            let done = with_world-Kept s k _ synced in
            err_ok_lem KeptReply (of.share.fs.sync s.world h).1 (λ _. done) (λ _. done))))

  close_open-KeptWorld :
      (w : W) (of : OpenFile W H) → ShieldedOpen view of → KeptWorld view w (close_open w of)
  unfolding close_open
  close_open-KeptWorld w of o = Option_lem (KeptWorld view w) of.handle refl (λ h _.
      let e = o.share_shielded.close_keeps w h in
      ok_err_lem (KeptWorld view w) (of.share.fs.close w h).1 (λ _. e) (λ _. e))

  delete_closed-KeptWorld :
      (w : W) (of : OpenFile W H) → ShieldedOpen view of → KeptWorld view w (delete_closed w of)
  unfolding delete_closed
  delete_closed-KeptWorld w of o =
      false_true_lem (KeptWorld view w) of.delete_on_close (λ _. refl)
        (λ marked.
          let e = o.share_shielded.remove_keeps (o.keeps_file marked) w of.path in
          ok_err_lem (KeptWorld view w) (of.share.fs.remove w of.path).1 (λ _. e) (λ _. e))

  close_world-KeptWorld :
      (w : W) (of : OpenFile W H) → ShieldedOpen view of → KeptWorld view w (close_world w of)
  unfolding close_world
  close_world-KeptWorld w of o =
      let closed = close_open-KeptWorld w of o in
      some_none_lem (KeptWorld view w) (close_open w of).1
        (delete_closed-KeptWorld (close_open w of).0 of o ∙ closed) (λ e _. closed)

  pub handle_close-Kept :
      (body : Bytes) (s : State W H) → Kept view v s → KeptReply (handle_close body s)
  unfolding handle_close
  handle_close-Kept body s k =
      let id = slice body 8 16 in
      let removed = remove_handle-Kept s k id in
      if_lem KeptReply (ltb (length body) 24) (λ _. k)
        (λ _. Option_lem KeptReply (get_handle s id) removed (λ of e.
          let closed = close_world-KeptWorld s.world of (get_handle_kept s k id of e) in
          let done = with_world-Kept _ removed _ closed in
          some_none_lem KeptReply (close_world s.world of).1 done (λ _ _. done)))
