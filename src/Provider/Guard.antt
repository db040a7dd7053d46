-- ===== src/Provider/Guard.antt =====
-- What the gates of the provider keep out: `Handler` and `writeGate` of
-- internal/vfsprovider/vfsprovider.go.
use portable_smb_server.Base.{
  ℕ, min, Bool, true, false, ◌&&◌, not, Option, ◌≡◌, ◌≢◌, refl, sym, ◌∙◌, ap, subst, ◌==◌,
  if◌then◌else◌, if_lem, Option_lem, list_eq, list_eq→eq, [], ◌∷◌, Bool-cases, inl, inr, arith,
}
use portable_smb_server.Base.Int.{ℤ, pos}
use portable_smb_server.Base.Decimal.{parse_int}
use portable_smb_server.Wire.{Bytes}
use portable_smb_server.Packet.Utf16.{Str}
use portable_smb_server.Packet.Filetime.{Time}
use portable_smb_server.Path.{is_empty}
use portable_smb_server.Fsx.{Error, Result, ok, err, FileSystem}
use portable_smb_server.Http.{
  Method, get, head, post, put, delete, other_method, Endpoint, capabilities, stat, list, read,
  statfs, create, write, mkdir, rename, remove, truncate, chtimes, unknown_endpoint, Param, path,
  offset, query_get, Json, Request, Response,
}
use portable_smb_server.Provider.{
  Options, flags_read, handle_stat, handle_list, handle_statfs, handle_capabilities, handle_read,
  write_gate, read_file, on_get, on_post, on_put, on_delete, route, handler, write_err, fail_status,
  max_read_chunk, both, natural,
}

-- the endpoints behind `writeGate`
abbrev pub is_change : Endpoint → Bool
is_change create = true
is_change write = true
is_change mkdir = true
is_change rename = true
is_change remove = true
is_change truncate = true
is_change chtimes = true
is_change _ = false

module _ {W H V : Type 0} (view : W → V) (fs : FileSystem W H) (opt : Options)
    (encode : Json → Bytes) (decode : Bytes → Option Json) (parse_time : Str → Option Time) where
  -- what is seen stays, and a change is not answered with 200
  pub record Guarded (w : W) (e : Endpoint) (r : W × Response) : Type 0 where
    pub kept : view r.0 ≡ view w
    pub refused : (is_change e && r.1.status == 200) ≡ false

  abbrev err_of : ℕ → Response
  err_of status = write_err fs opt encode decode parse_time status

  -- a method that the path takes, or any other
  on_get_lem :
      (P : W × Response → Type 0) (m : Method) (h : W → Request → W × Response) (w : W)
      (r : Request)
      → P (h w r)
      → P (w, err_of 405)
      → P (on_get fs opt encode decode parse_time m h w r)
  on_get_lem P get h w r p q = p
  on_get_lem P head h w r p q = p
  on_get_lem P post h w r p q = q
  on_get_lem P put h w r p q = q
  on_get_lem P delete h w r p q = q
  on_get_lem P other_method h w r p q = q

  on_post_lem :
      (P : W × Response → Type 0) (m : Method) (h : W → Request → W × Response) (w : W)
      (r : Request)
      → P (h w r)
      → P (w, err_of 405)
      → P (on_post fs opt encode decode parse_time m h w r)
  on_post_lem P get h w r p q = q
  on_post_lem P head h w r p q = q
  on_post_lem P post h w r p q = p
  on_post_lem P put h w r p q = q
  on_post_lem P delete h w r p q = q
  on_post_lem P other_method h w r p q = q

  on_put_lem :
      (P : W × Response → Type 0) (m : Method) (h : W → Request → W × Response) (w : W)
      (r : Request)
      → P (h w r)
      → P (w, err_of 405)
      → P (on_put fs opt encode decode parse_time m h w r)
  on_put_lem P get h w r p q = q
  on_put_lem P head h w r p q = q
  on_put_lem P post h w r p q = q
  on_put_lem P put h w r p q = p
  on_put_lem P delete h w r p q = q
  on_put_lem P other_method h w r p q = q

  on_delete_lem :
      (P : W × Response → Type 0) (m : Method) (h : W → Request → W × Response) (w : W)
      (r : Request)
      → P (h w r)
      → P (w, err_of 405)
      → P (on_delete fs opt encode decode parse_time m h w r)
  on_delete_lem P get h w r p q = q
  on_delete_lem P head h w r p q = q
  on_delete_lem P post h w r p q = q
  on_delete_lem P put h w r p q = q
  on_delete_lem P delete h w r p q = p
  on_delete_lem P other_method h w r p q = q

  -- a response that is no success leaves everything
  err_of-Guarded :
      (w : W) (e : Endpoint) (status : ℕ) → (status == 200) ≡ false → Guarded w e (w, err_of status)
  err_of-Guarded w e status h = record { kept = refl; refused = ground (arith, h) }

  -- an endpoint that only asks
  asks-Guarded :
      (w : W) (e : Endpoint) (r : W × Response)
      → is_change e ≡ false
      → view r.0 ≡ view w
      → Guarded w e r
  asks-Guarded w e r h k = record { kept = k; refused = ap (λ b. b && r.1.status == 200) h }

  -- a question that the file system answers
  answer_keeps :
      {A : Type 0} (w : W) (res : Result A) (bad : Error → Response) (good : A → Response)
      → view (elim res as (λ _. W × Response) [ err e ↦ (w, bad e) | ok a ↦ (w, good a) ]).0
        ≡ view w
  answer_keeps w (ok a) bad good = refl
  answer_keeps w (err e) bad good = refl

  module _ (open_keeps : (w : W) (p : Str) → view (fs.open_file w p flags_read).0 ≡ view w)
      (read_keeps : (w : W) (h : H) (n : ℕ) (o : ℤ) → view (fs.read_at w h n o).0 ≡ view w)
      (close_keeps : (w : W) (h : H) → view (fs.close w h).0 ≡ view w) where
    read_file_keeps :
        (w : W) (o n : ℕ) (res : Result H)
        → view
            (elim res as (λ _. W × Response) [
              | err e ↦ (w, err_of (fail_status e))
              | ok h ↦
                  let (w2, answered) = read_file fs opt encode decode parse_time o n w h in
                  ((fs.close w2 h).0, answered)
            ]).0
          ≡ view w
    read_file_keeps w o n (err e) = refl
    read_file_keeps w o n (ok h) =
        close_keeps (fs.read_at w h (min n max_read_chunk) (pos o)).0 h
        ∙ read_keeps w h (min n max_read_chunk) (pos o)

    handle_read_keeps :
        (w : W) (r : Request) → view (handle_read fs opt encode decode parse_time w r).0 ≡ view w
    unfolding handle_read
    handle_read_keeps w r =
        let p = query_get path r.query in
        Option_lem (λ (x : W × Response). view x.0 ≡ view w)
          (both (natural (parse_int (query_get offset r.query)))
            (natural (parse_int (query_get Param.length r.query))))
          refl
          (λ on _.
            read_file_keeps (fs.open_file w p flags_read).0 on.0 on.1
              (fs.open_file w p flags_read).1
            ∙ open_keeps w p)

    module _ (gated : opt.read_only ≡ true) where
      write_gate-Guarded :
          (h : W → Request → W × Response) (w : W) (r : Request) (e : Endpoint)
          → Guarded w e (write_gate fs opt encode decode parse_time h w r)
      unfolding write_gate
      write_gate-Guarded h w r e =
          subst (λ b. Guarded w e (if b then (w, err_of 403) else h w r)) (sym gated)
            (err_of-Guarded w e 403 refl)

      route-Guarded :
          (e : Endpoint) (m : Method) (w : W) (r : Request)
          → Guarded w e (route fs opt encode decode parse_time e m w r)
      unfolding handle_capabilities handle_stat handle_list handle_statfs
      route-Guarded capabilities m w r =
          on_get_lem (Guarded w capabilities) m _ w r (asks-Guarded w capabilities _ refl refl)
            (err_of-Guarded w capabilities 405 refl)
      route-Guarded stat m w r =
          on_get_lem (Guarded w stat) m _ w r
            (asks-Guarded w stat _ refl (answer_keeps w (fs.stat w (query_get path r.query)) _ _))
            (err_of-Guarded w stat 405 refl)
      route-Guarded list m w r =
          on_get_lem (Guarded w list) m _ w r
            (asks-Guarded w list _ refl
              (answer_keeps w (fs.read_dir w (query_get path r.query)) _ _))
            (err_of-Guarded w list 405 refl)
      route-Guarded read m w r =
          on_get_lem (Guarded w read) m _ w r (asks-Guarded w read _ refl (handle_read_keeps w r))
            (err_of-Guarded w read 405 refl)
      route-Guarded statfs m w r =
          on_get_lem (Guarded w statfs) m _ w r
            (asks-Guarded w statfs _ refl (answer_keeps w (fs.statfs w) _ _))
            (err_of-Guarded w statfs 405 refl)
      route-Guarded create m w r =
          on_post_lem (Guarded w create) m _ w r (write_gate-Guarded _ w r create)
            (err_of-Guarded w create 405 refl)
      route-Guarded write m w r =
          on_put_lem (Guarded w write) m _ w r (write_gate-Guarded _ w r write)
            (err_of-Guarded w write 405 refl)
      route-Guarded mkdir m w r =
          on_post_lem (Guarded w mkdir) m _ w r (write_gate-Guarded _ w r mkdir)
            (err_of-Guarded w mkdir 405 refl)
      route-Guarded rename m w r =
          on_post_lem (Guarded w rename) m _ w r (write_gate-Guarded _ w r rename)
            (err_of-Guarded w rename 405 refl)
      route-Guarded remove m w r =
          on_delete_lem (Guarded w remove) m _ w r (write_gate-Guarded _ w r remove)
            (err_of-Guarded w remove 405 refl)
      route-Guarded truncate m w r =
          on_post_lem (Guarded w truncate) m _ w r (write_gate-Guarded _ w r truncate)
            (err_of-Guarded w truncate 405 refl)
      route-Guarded chtimes m w r =
          on_post_lem (Guarded w chtimes) m _ w r (write_gate-Guarded _ w r chtimes)
            (err_of-Guarded w chtimes 405 refl)
      route-Guarded unknown_endpoint m w r = err_of-Guarded w unknown_endpoint 404 refl

      -- A provider that is read-only keeps what it serves, whatever the request, and answers no
      -- request for a change with a success: let `view` be what is seen of the world, which opens
      -- for reading, reads and closes leave as it is.
      pub handler-Guarded :
          (w : W) (r : Request) → Guarded w r.endpoint (handler fs opt encode decode parse_time w r)
      unfolding handler
      handler-Guarded w r =
          if_lem (Guarded w r.endpoint)
            (not (is_empty opt.token) && not (list_eq r.token opt.token))
            (λ _. err_of-Guarded w r.endpoint 401 refl) (λ _. route-Guarded r.endpoint r.method w r)

wrong_token : (t r : Str) → t ≢ [] → r ≢ t → (not (is_empty t) && not (list_eq r t)) ≡ true
wrong_token [] r h k = absurd (h refl)
wrong_token (c ∷ s) r h k = elim (Bool-cases (list_eq r (c ∷ s))) [
  | inl same ↦ absurd (k (list_eq→eq r (c ∷ s) same))
  | inr other ↦ ap not other
]

module _ {W H : Type 0} (fs : FileSystem W H) (opt : Options) (encode : Json → Bytes)
    (decode : Bytes → Option Json) (parse_time : Str → Option Time) where
  -- A provider with a token answers a request with another one, or without, with 401, and does
  -- nothing for it: not even a question reaches the file system.
  pub handler_token :
      (w : W) (r : Request)
      → opt.token ≢ []
      → r.token ≢ opt.token
      → handler fs opt encode decode parse_time w r
        ≡ (w, write_err fs opt encode decode parse_time 401)
  unfolding handler
  handler_token w r some_token wrong =
      ap
        (λ b.
          if b
          then (w, write_err fs opt encode decode parse_time 401)
          else route fs opt encode decode parse_time r.endpoint r.method w r)
        (wrong_token opt.token r.token some_token wrong)
