-- ===== src/Remote/Reads.antt =====
-- A read of an open file of internal/httpvfs/httpvfs.go, from the handle through its read-ahead window
-- and the /read of internal/vfsprovider/vfsprovider.go to the file.
use portable_smb_server.Base.{
  ℕ, zero, suc, min, ◌≤◌, ◌<◌, ◌^◌, Option, none, some, List, [], ◌∷◌, take, drop, set, get_elem?,
  ◌≡◌, refl, sym, ◌∙◌, ap, ap₂, subst, ◌⊎◌, inl, inr, arith,
}
use portable_smb_server.Base.Int.{pos}
use portable_smb_server.Base.Decimal.{parse_int, format_int, parse_int-format_int}
use portable_smb_server.Wire.{Bytes}
use portable_smb_server.Packet.Utf16.{Str}
use portable_smb_server.Packet.Filetime.{Time}
use portable_smb_server.Fsx.{Error, eof, other, ok, err, FileSystem}
use portable_smb_server.Http.{Json, Response, answer}
use portable_smb_server.Provider
use portable_smb_server.Provider.{
  Options, flags_read, max_read_chunk, natural, both, with_file, handler, handle_read, read_answer,
  read_file,
}
use portable_smb_server.HttpVfs.ReadAhead.{Serves, Holds, direct, read_at-direct}
use portable_smb_server.HttpVfs.Client.{
  Send, Settings, Remote, RemoteFile, read_request, read_handle, read_open, bytes_of,
}
use portable_smb_server.Remote.Requests.{answered, handler-route}

-- A file system that has the file's contents under a path, and reads them through a handle: fewer
-- bytes than asked for only at the end, with or without io.EOF.
pub record Contains {W H : Type 0} (fs : FileSystem W H) (w : W) (p : Str) (file : Bytes)
    : Type 0 where
  pub handle : H
  pub opens : (fs.open_file w p flags_read).1 ≡ ok handle
  pub reads :
      (o n : ℕ)
      → let r = fs.read_at (fs.open_file w p flags_read).0 handle n (pos o) in
        (r.1 ≡ take n (drop o file)) × ((r.2 ≡ none) ⊎ (r.2 ≡ some eof))

get_elem?-set :
    {A : Type 0} (xs : List A) (i : ℕ) (a b : A)
    → get_elem? xs i ≡ some a
    → get_elem? (set xs i b) i ≡ some b
get_elem?-set [] i a b h = ground arith
get_elem?-set (x ∷ xs) zero a b h = refl
get_elem?-set (x ∷ xs) (suc i) a b h = get_elem?-set xs i a b h

-- what a read through a handle brings, and leaves
abbrev pub Direct :
    {W : Type 0} → ℕ → ℕ → ℕ → RemoteFile → Bytes → Remote W × Bytes × Option Error → Type 0
Direct h len o f file r =
    (Path (Bytes × Option Error) (r.1, r.2) (direct file len o))
    × ((g : RemoteFile) × (get_elem? r.0.files h ≡ some g)
        × (g.path ≡ f.path)
        × Holds file r.0.gen g.window)

module _ {W H : Type 0} (fs : FileSystem W H) (po : Options) (so : Settings) (encode : Json → Bytes)
    (decode : Bytes → Option Json) (parse_time : Str → Option Time) (format_time : Time → Str) where
  abbrev pub send : Send W
  send = answered (handler fs po encode decode parse_time)

  read_answer_direct :
      (b : Bytes) (e : Option Error)
      → (e ≡ none) ⊎ (e ≡ some eof)
      → read_answer fs po encode decode parse_time b e
        ≡ Provider.octets fs po encode decode parse_time b
  read_answer_direct b e (inl q) = ap (read_answer fs po encode decode parse_time b) q
  read_answer_direct b e (inr q) = ap (read_answer fs po encode decode parse_time b) q

  -- a /read of a file that is there
  with_file_direct :
      (w : W) (p : Str) (file : Bytes) (o n : ℕ)
      → Contains fs w p file
      → n ≤ max_read_chunk
      → (with_file fs po encode decode parse_time w p flags_read
          (read_file fs po encode decode parse_time o n)).1
        ≡ Provider.octets fs po encode decode parse_time (take n (drop o file))
  with_file_direct w p file o n c few =
      let w1 = (fs.open_file w p flags_read).0 in
      let got = λ (k : ℕ). fs.read_at w1 c.handle k (pos o) in
      let whole : min n max_read_chunk ≡ n = omega (arith, few) in
      let r = c.reads o n in
      ap
        (λ opened.
          (elim opened as (λ _. W × Response) [
            | err e ↦ (w1, Provider.fail fs po encode decode parse_time e)
            | ok h ↦
                let (w2, a) = read_file fs po encode decode parse_time o n w1 h in
                ((fs.close w2 h).0, a)
          ]).1)
        c.opens
      ∙ ap (λ k. read_answer fs po encode decode parse_time (got k).1 (got k).2) whole
      ∙ read_answer_direct (got n).1 (got n).2 r.1
      ∙ ap (Provider.octets fs po encode decode parse_time) r.0

  module _ (same_token : so.token ≡ po.token) where
    read_request-Serves :
        (w : W) (p : Str) (file : Bytes)
        → Contains fs w p file
        → Serves max_read_chunk (read_request send so encode format_time p) w file
    unfolding handle_read
    read_request-Serves w p file c o n near few =
        let numbers : both (natural (parse_int (format_int (pos o))))
              (natural (parse_int (format_int (pos n))))
            ≡ some (o, n) =
          ap₂ (λ a b. both (natural a) (natural b)) (parse_int-format_int (pos o) near)
            (parse_int-format_int (pos n) (omega (arith, few))) in
        ap (λ (x : W × Response). bytes_of (answer x.1.status x.1.body))
          (handler-route fs po encode decode parse_time w _ same_token)
        ∙ ap
            (λ (x : Option (ℕ × ℕ)).
              let r = elim x as (λ _. W × Response) [
                | none ↦ (w, Provider.write_err fs po encode decode parse_time 400)
                | some (a, b) ↦
                    with_file fs po encode decode parse_time w p flags_read
                      (read_file fs po encode decode parse_time a b)
              ] in
              bytes_of (answer r.1.status r.1.body))
            numbers
        ∙ ap (λ (a : Response). bytes_of (answer a.status a.body))
            (with_file_direct w p file o n c few)

    -- A READ of an open file of a share on a provider returns the bytes that the file behind the
    -- provider has there, with io.EOF exactly where they are fewer than asked for: whatever window
    -- the handle holds from before, as long as it was fetched since the last change, or is out of
    -- date; and the window stays so. The read and the read-ahead are within the provider's limit of
    -- 8 MiB, the offset is an int64, the client has the provider's token, and the file system
    -- behind the provider reads the file as `Contains` says.
    pub read_handle-Direct :
        (s : Remote W) (h len o : ℕ) (f : RemoteFile) (file : Bytes)
        → get_elem? s.files h ≡ some f
        → Contains fs s.world f.path file
        → Holds file s.gen f.window
        → o < 2 ^ 63
        → so.read_ahead ≤ max_read_chunk
        → len ≤ max_read_chunk
        → Direct h len o f file (read_handle send so encode format_time s h len (pos o))
    unfolding read_handle
    read_handle-Direct s h len o f file there c held near few_ahead few =
        subst (Direct h len o f file)
          (sym (
            ap
              (λ x. elim x as (λ _. Remote W × Bytes × Option Error) [
                | none ↦ (s, [], some other)
                | some g ↦ read_open send so encode format_time len (pos o) s h g
              ])
              there))
          (let r =
              read_at-direct max_read_chunk (read_request send so encode format_time f.path) s.world
                file so.read_ahead s.gen len o f.window near few_ahead few
                (read_request-Serves s.world f.path file c) held in
            (r.0, (_, get_elem?-set s.files h f _ there, refl, r.1)))
