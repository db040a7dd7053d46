-- ===== src/HttpVfs/Client.antt =====
-- `FS` of internal/httpvfs/httpvfs.go, the file system that a share gets from a provider: its requests
-- and what it makes of the answers. `send` is the HTTP client, over a world that holds the provider;
-- `format_time` is Format of RFC3339Nano, and `encode` what encoding/json writes.
use portable_smb_server.Base.{
  ℕ, ◌^◌, Bool, true, false, ◌||◌, ◌&&◌, Option, none, some, List, [], ◌∷◌, ◌++◌, map, ◌==◌,
  if◌then◌else◌, length, get_elem?, set,
}
use portable_smb_server.Base.Int.{ℤ, pos}
use portable_smb_server.Base.Decimal.{format_int}
use portable_smb_server.Wire.{Bytes}
use portable_smb_server.Packet.Utf16.{Str}
use portable_smb_server.Packet.Filetime.{Time, zero_time}
use portable_smb_server.Conn.{or_else}
use portable_smb_server.Fsx.{
  Error, invalid, other, is_not_exist, Result, ok, err, FileInfo, OpenFlags, FileSystem,
}
use portable_smb_server.Http.{
  Method, get, post, put, delete, Endpoint, stat, list, read, statfs, create, write, mkdir, rename,
  remove, truncate, chtimes, Param, path, offset, size, mod_time, exclusive, Query, FileInfoJson,
  Json, no_fields, Body, Request, Answer, no_answer, answer,
}
use portable_smb_server.HttpVfs.{check_resp, Window, read_at, write_at, mutated}

-- remoteInfo, with the permissions of its Mode
unfoldable pub remote_info : FileInfoJson → FileInfo
remote_info i = record {
  name = i.name;
  size = i.size;
  perm = if i.is_dir then 0o777 else if i.read_only then 0o444 else 0o666;
  mod_time = i.mod_time;
  is_dir = i.is_dir;
}

abbrev pub zero_info : FileInfoJson
zero_info = record { name = []; size = 0; mod_time = zero_time; is_dir = false; read_only = false }

-- The fields of `FS` that stay as they are. A `readAhead` of 0 or less is 0.
pub record Settings : Type 0 where
  pub name : Str
  pub read_only : Bool
  pub case_insensitive : Bool
  pub token : Str
  pub read_ahead : ℕ

-- NewWithOptions, once the URL has been found to be one: what it makes of /capabilities
unfoldable pub connect : Str → ℕ → Answer Body → Result Settings
connect token read_ahead (no_answer e) = err e
connect token read_ahead (answer status body) =
    let plain : Settings = record {
      name = [];
      read_only = false;
      case_insensitive = false;
      token = token;
      read_ahead = read_ahead;
    } in
    if status == 200
    then elim body.json [
      | none ↦ err other
      | some v ↦ ok (record plain {
        name = or_else v.share_name [];
        read_only = or_else v.provider_read_only false;
        case_insensitive = or_else v.case_insensitive false;
      })
    ]
    else if status == 404
    then ok plain
    else err other

-- a `file`: a path and its read-ahead window
pub record RemoteFile : Type 0 where
  pub path : Str
  pub window : Window

abbrev pub no_window : Window
no_window = record { bytes = none; offset = pos 0; gen = 0; at_eof = false }

-- What is behind the HTTP client, the counter `gen`, and the files that have been opened: a `*file`
-- is a place in the list.
pub record Remote (W : Type 0) : Type 0 where
  pub world : W
  pub gen : ℕ
  pub files : List RemoteFile

abbrev pub text_true : Str
text_true = b't' ∷ b'r' ∷ b'u' ∷ b'e' ∷ []

abbrev pub nothing : Body
nothing = record { bytes = []; json = none }

-- writeIntent
abbrev pub writes : OpenFlags → Bool
writes f = f.write || f.append || f.create || f.trunc

abbrev pub Send : Type 0 → Type 0
Send W = W → Request → W × Answer Body

-- the error of an answer, if there is one
unfoldable pub refusal : Bool → Answer Body → Option Error
unfolding check_resp
refusal not_empty (no_answer e) = some e
refusal not_empty (answer status body) = check_resp status not_empty

abbrev pub done : Option Error → Result (Unit {0})
done none = ok tt
done (some e) = err e

abbrev pub decoded : Option Error → Answer Body → Result Json
decoded (some e) a = err e
decoded none (no_answer e) = err e
decoded none (answer status body) = elim body.json [ none ↦ err other | some v ↦ ok v ]

-- getJSON of an answer
unfoldable pub json_of : Answer Body → Result Json
unfolding refusal
json_of a = decoded (refusal false a) a

abbrev pub bytes_of : Answer Body → Answer Bytes
bytes_of (no_answer e) = no_answer e
bytes_of (answer status body) = answer status body.bytes

abbrev written_in : Option Json → Option ℕ
written_in none = none
written_in (some v) = some (or_else v.written 0)

abbrev pub written_of_body : Answer Body → Answer (Option ℕ)
written_of_body (no_answer e) = no_answer e
written_of_body (answer status body) = answer status (written_in body.json)

abbrev pub outcome_of : ℕ × Option Error → Result ℕ
outcome_of (n, none) = ok n
outcome_of (n, some e) = err e

abbrev pub fail_if : {A : Type 0} → Option Error → A → Result A
fail_if none a = ok a
fail_if (some e) a = err e

abbrev pub info_in : Result Json → Result FileInfo
info_in (err e) = err e
info_in (ok v) = ok (remote_info (or_else v.info zero_info))

abbrev pub infos_in : Result Json → Result (List FileInfo)
infos_in (err e) = err e
infos_in (ok v) = ok (map remote_info (or_else v.entries []))

-- a provider without /statfs stands for a volume of 1 TiB, half of it free
abbrev pub space_in : Result Json → Result (ℤ × ℤ)
space_in (err e) = if is_not_exist e then ok (pos (2 ^ 40), pos (2 ^ 39)) else err e
space_in (ok v) = ok (or_else v.total_bytes (pos 0), or_else v.free_bytes (pos 0))

-- mutated
abbrev pub stale : {W : Type 0} → Remote W → Remote W
stale s = record s { gen = mutated s.gen }

abbrev pub unchanged : {W : Type 0} → Remote W → Remote W
unchanged s = s

module _ {W : Type 0} (send : Send W) (opt : Settings) (encode : Json → Bytes)
    (format_time : Time → Str) where
  -- newRequest; a token that is empty is not sent
  abbrev pub request : Method → Endpoint → Query → Body → Request
  request m e q b = record { method = m; endpoint = e; query = q; token = opt.token; body = b }

  abbrev pub on_path : Str → Query → Query
  on_path p q = (path, p) ∷ q

  -- a request that only asks
  abbrev pub ask : Remote W → Endpoint → Query → Result Json
  ask s e q = json_of (send s.world (request get e q nothing)).1

  -- a request for a change, and what follows where it is taken
  abbrev pub change :
      Bool → (Remote W → Remote W) → Remote W → Request → Remote W × Result (Unit {0})
  change not_empty after s r =
      let (w1, a) = send s.world r in
      let s1 = record s { world = w1 } in
      elim (refusal not_empty a) [ none ↦ (after s1, ok tt) | some e ↦ (s1, err e) ]

  unfoldable pub stat_path : Remote W → Str → Result FileInfo
  unfolding json_of remote_info
  stat_path s p = info_in (ask s stat (on_path p []))

  unfoldable pub read_dir_path : Remote W → Str → Result (List FileInfo)
  unfolding json_of remote_info
  read_dir_path s p = infos_in (ask s list (on_path p []))

  unfoldable pub statfs_all : Remote W → Result (ℤ × ℤ)
  unfolding json_of
  statfs_all s = space_in (ask s statfs [])

  unfoldable pub truncate_path : Remote W → Str → ℤ → Remote W × Result (Unit {0})
  unfolding refusal
  truncate_path s p n =
      change false stale s (request post truncate (on_path p ((size, format_int n) ∷ [])) nothing)

  unfoldable pub mkdir_path : Remote W → Str → Remote W × Result (Unit {0})
  unfolding refusal
  mkdir_path s p = change false unchanged s (request post mkdir (on_path p []) nothing)

  unfoldable pub rename_path : Remote W → Str → Str → Remote W × Result (Unit {0})
  unfolding refusal
  rename_path s old new =
      let v : Json = record no_fields { from = some old; to = some new; replace = some true } in
      change false stale s (request post rename [] (record { bytes = encode v; json = some v }))

  unfoldable pub remove_path : Remote W → Str → Remote W × Result (Unit {0})
  unfolding refusal
  remove_path s p = change true stale s (request delete remove (on_path p []) nothing)

  unfoldable pub chtimes_path : Remote W → Str → Time → Remote W × Result (Unit {0})
  unfolding refusal
  chtimes_path s p t =
      change false unchanged s
        (request post chtimes (on_path p ((mod_time, format_time t) ∷ [])) nothing)

  abbrev opened : Str → Remote W → Remote W × Result ℕ
  opened p s = (
    record s { files = s.files ++ (record { path = p; window = no_window } ∷ []) },
    ok (length s.files),
  )

  -- the next step, unless this one has failed
  abbrev next :
      Remote W × Result (Unit {0}) → (Remote W → Remote W × Result ℕ) → Remote W × Result ℕ
  next (s, err e) k = (s, err e)
  next (s, ok _) k = k s

  abbrev with_trunc : Str → OpenFlags → Remote W → Remote W × Result ℕ
  unfolding truncate_path
  with_trunc p f s = if f.trunc then next (truncate_path s p (pos 0)) (opened p) else opened p s

  abbrev create_query : OpenFlags → Query
  create_query f = if f.excl then (exclusive, text_true) ∷ [] else []

  abbrev existing : Str → OpenFlags → Remote W → Result FileInfo → Remote W × Result ℕ
  unfolding with_trunc
  existing p f s (err e) = (s, err e)
  existing p f s (ok fi) = if fi.is_dir then (s, err invalid) else with_trunc p f s

  unfoldable pub open_path : Remote W → Str → OpenFlags → Remote W × Result ℕ
  unfolding existing stat_path refusal
  open_path s p f =
      if opt.read_only && writes f
      then (s, err Error.read_only)
      else if f.create
      then next (change false stale s (request post create (on_path p (create_query f)) nothing))
          (with_trunc p f)
      else existing p f s (stat_path s p)

  abbrev pub read_request : Str → W → ℤ → ℕ → W × Answer Bytes
  read_request p w off n =
      let q = on_path p ((offset, format_int off) ∷ (Param.length, format_int (pos n)) ∷ []) in
      let (w1, a) = send w (request get read q nothing) in (w1, bytes_of a)

  abbrev pub write_request : Str → W → Bytes → ℤ → W × Answer (Option ℕ)
  write_request p w b off =
      let q = on_path p ((offset, format_int off) ∷ []) in
      let (w1, a) = send w (request put write q (record { bytes = b; json = none })) in
      (w1, written_of_body a)

  abbrev pub put_window : Remote W → ℕ → RemoteFile → Window → List RemoteFile
  put_window s h f win = set s.files h (record f { window = win })

  abbrev pub read_open : ℕ → ℤ → Remote W → ℕ → RemoteFile → Remote W × Bytes × Option Error
  unfolding read_at
  read_open len off s h f =
      let (w1, out, win) =
        read_at (read_request f.path) s.world opt.read_ahead s.gen len off f.window in
      (record s { world = w1; files = put_window s h f win }, out.0, out.1)

  abbrev pub write_open : Bytes → ℤ → Remote W → ℕ → RemoteFile → Remote W × Result ℕ
  unfolding write_at
  write_open b off s h f =
      let r = write_at (write_request f.path) s.world s.gen b off f.window in
      (
        record { world = r.world; gen = r.gen; files = put_window s h f r.window },
        outcome_of r.outcome,
      )

  -- Every handle that `open_path` gives out is in the list; the case of one that is not is not met.
  unfoldable pub read_handle : Remote W → ℕ → ℕ → ℤ → Remote W × Bytes × Option Error
  unfolding read_open
  read_handle s h len off = elim (get_elem? s.files h) [
    | none ↦ (s, [], some other)
    | some f ↦ read_open len off s h f
  ]

  unfoldable pub write_handle : Remote W → ℕ → Bytes → ℤ → Remote W × Result ℕ
  unfolding write_open
  write_handle s h b off = elim (get_elem? s.files h) [
    | none ↦ (s, err other)
    | some f ↦ write_open b off s h f
  ]

  unfoldable pub truncate_handle : Remote W → ℕ → ℤ → Remote W × Result (Unit {0})
  unfolding truncate_path
  truncate_handle s h n = elim (get_elem? s.files h) [
    | none ↦ (s, err other)
    | some f ↦ truncate_path s f.path n
  ]

  unfoldable pub stat_handle : Remote W → ℕ → Result FileInfo
  unfolding stat_path
  stat_handle s h = elim (get_elem? s.files h) [ none ↦ err other | some f ↦ stat_path s f.path ]

  -- The whole of it, as a share uses it. `Close` and `Sync` do nothing.
  abbrev pub remote_fs : FileSystem (Remote W) ℕ
  remote_fs = record {
    stat = stat_path;
    open_file = open_path;
    mkdir = mkdir_path;
    read_dir = read_dir_path;
    rename = rename_path;
    remove = remove_path;
    truncate = truncate_path;
    chtimes = chtimes_path;
    statfs = statfs_all;
    case_insensitive = opt.case_insensitive;
    read_at = read_handle;
    write_at = write_handle;
    close = λ s h. (s, ok tt);
    truncate_handle = truncate_handle;
    sync = λ s h. (s, ok tt);
    stat_handle = stat_handle;
  }
