-- ===== src/Provider.antt =====
-- The reference provider of internal/vfsprovider/vfsprovider.go: `Handler`, its gates and its
-- handlers, over any file system. `encode` is the text that encoding/json writes, `decode` what it
-- reads in a body that the provider itself wrote, and `parse_time` is time.Parse of RFC3339Nano.
pub mod Guard
use portable_smb_server.Base.{
  ℕ, suc, ◌+◌, ◌*◌, ◌<◌, Bool, true, false, ◌&&◌, not, Option, none, some, List, [], ◌∷◌, map, ltb,
  ◌==◌, if◌then◌else◌, length, min, bit_and, list_eq,
}
use portable_smb_server.Base.Int.{ℤ, pos, negsuc}
use portable_smb_server.Base.Decimal.{parse_int}
use portable_smb_server.Wire.{Bytes}
use portable_smb_server.Packet.Utf16.{Str}
use portable_smb_server.Packet.Filetime.{Time}
use portable_smb_server.Path.{is_empty}
use portable_smb_server.Conn.{or_else}
use portable_smb_server.Fsx.{
  Error, eof, is_not_exist, is_exist, is_permission, Result, ok, err, FileInfo, OpenFlags,
  FileSystem, file_is_read_only,
}
use portable_smb_server.Http.{
  Method, get, head, post, put, delete, Endpoint, capabilities, stat, list, read, statfs, create,
  write, mkdir, rename, remove, truncate, chtimes, unknown_endpoint, Param, path, offset, size,
  mod_time, exclusive, query_get, FileInfoJson, Json, no_fields, Body, Request, Response,
}

abbrev pub max_read_chunk : ℕ
max_read_chunk = 8388608

-- `Options` of the provider
pub record Options : Type 0 where
  pub name : Str
  pub read_only : Bool
  pub token : Str

unfoldable pub to_json : FileInfo → FileInfoJson
to_json fi = record {
  name = fi.name;
  size = fi.size;
  mod_time = fi.mod_time;
  is_dir = fi.is_dir;
  read_only = file_is_read_only fi;
}

-- fail: the HTTP status of an error
unfoldable pub fail_status : Error → ℕ
fail_status e =
    if is_not_exist e then 404 else if is_exist e then 409 else if is_permission e then 403 else 500

abbrev pub text_true : Str
text_true = b't' ∷ b'r' ∷ b'u' ∷ b'e' ∷ []

abbrev pub flags_read : OpenFlags
flags_read = record {
  read = true;
  write = false;
  append = false;
  create = false;
  excl = false;
  trunc = false;
}

-- a count that strconv reads and that is not negative
abbrev pub natural : Option ℤ → Option ℕ
natural (some (pos n)) = some n
natural _ = none

-- the two numbers of a /read
abbrev pub both : Option ℕ → Option ℕ → Option (ℕ × ℕ)
both (some a) (some b) = some (a, b)
both _ _ = none

-- `tail` of an entry whose size is that of a directory
abbrev pub is_full_dir : Result FileInfo → Result (List FileInfo) → Bool
is_full_dir (ok fi) (ok (x ∷ xs)) = fi.is_dir
is_full_dir _ _ = false

module _ {W H : Type 0} (fs : FileSystem W H) (opt : Options) (encode : Json → Bytes)
    (decode : Bytes → Option Json) (parse_time : Str → Option Time) where
  abbrev pub write_json : ℕ → Json → Response
  write_json status v = record {
    status = status;
    body = record { bytes = encode v; json = some v };
  }

  -- writeErr: the message under the name `error` is no field that a client asks for here
  abbrev pub write_err : ℕ → Response
  write_err status = write_json status no_fields

  abbrev pub fail : Error → Response
  fail e = write_err (fail_status e)

  abbrev pub octets : Bytes → Response
  octets b = record { status = 200; body = record { bytes = b; json = decode b } }

  abbrev pub answer_ok : Response
  answer_ok = write_json 200 no_fields

  -- the answer of an operation that has no value
  abbrev pub done : W × Result (Unit {0}) → W × Response
  done (w, ok _) = (w, answer_ok)
  done (w, err e) = (w, fail e)

  abbrev pub query : Request → Param → Str
  query r k = query_get k r.query

  unfoldable pub handle_capabilities : W → Request → W × Response
  handle_capabilities w r = (
    w,
    write_json 200 (record no_fields {
      share_name = some opt.name;
      provider_read_only = some opt.read_only;
      case_insensitive = some fs.case_insensitive;
    }),
  )

  unfoldable pub handle_stat : W → Request → W × Response
  handle_stat w r = elim (fs.stat w (query r path)) [
    | err e ↦ (w, fail e)
    | ok fi ↦ (w, write_json 200 (record no_fields { info = some (to_json fi) }))
  ]

  unfoldable pub handle_list : W → Request → W × Response
  handle_list w r = elim (fs.read_dir w (query r path)) [
    | err e ↦ (w, fail e)
    | ok infos ↦ (w, write_json 200 (record no_fields { entries = some (map to_json infos) }))
  ]

  -- what ReadAt of an open file brings: an error other than io.EOF, or the bytes
  abbrev pub read_answer : Bytes → Option Error → Response
  read_answer b none = octets b
  read_answer b (some eof) = octets b
  read_answer b (some e) = fail e

  -- a file is opened, used and closed
  abbrev pub with_file : W → Str → OpenFlags → (W → H → W × Response) → W × Response
  with_file w p flags use_it =
      let (w1, opened) = fs.open_file w p flags in
      elim opened [
        | err e ↦ (w1, fail e)
        | ok h ↦ let (w2, answered) = use_it w1 h in ((fs.close w2 h).0, answered)
      ]

  abbrev pub read_file : ℕ → ℕ → W → H → W × Response
  read_file o n w h =
      let (w1, b, e) = fs.read_at w h (min n max_read_chunk) (pos o) in (w1, read_answer b e)

  unfoldable pub handle_read : W → Request → W × Response
  handle_read w r =
      elim (both (natural (parse_int (query r offset)))
        (natural (parse_int (query r Param.length)))) [
          | none ↦ (w, write_err 400)
          | some (o, n) ↦ with_file w (query r path) flags_read (read_file o n)
        ]

  unfoldable pub handle_statfs : W → Request → W × Response
  handle_statfs w r = elim (fs.statfs w) [
    | err e ↦ (w, fail e)
    | ok (total, free) ↦
        (w, write_json 200 (record no_fields { total_bytes = some total; free_bytes = some free }))
  ]

  unfoldable pub handle_create : W → Request → W × Response
  handle_create w r =
      let flags : OpenFlags = record flags_read {
        read = false;
        write = true;
        create = true;
        excl = list_eq (query r exclusive) text_true;
      } in
      with_file w (query r path) flags (λ w1 h. (w1, answer_ok))

  abbrev pub write_answer : W × Result ℕ → W × Response
  write_answer (w, err e) = (w, fail e)
  write_answer (w, ok n) = (w, write_json 200 (record no_fields { written = some n }))

  -- the body is read up to one byte more than is taken
  unfoldable pub handle_write : W → Request → W × Response
  handle_write w r = elim (natural (parse_int (query r offset))) [
    | none ↦ (w, write_err 400)
    | some o ↦
        if ltb max_read_chunk (length r.body.bytes)
        then (w, write_err 400)
        else with_file w (query r path) (record flags_read { write = true })
            (λ w1 h. write_answer (fs.write_at w1 h r.body.bytes (pos o)))
  ]

  unfoldable pub handle_mkdir : W → Request → W × Response
  handle_mkdir w r = done (fs.mkdir w (query r path))

  -- a rename without `replace` onto a name that can be looked up
  abbrev pub target_exists : W → Bool → Str → Bool
  target_exists w true to = false
  target_exists w false to = elim (fs.stat w to) [ ok fi ↦ true | err e ↦ false ]

  unfoldable pub handle_rename : W → Request → W × Response
  handle_rename w r = elim r.body.json [
    | none ↦ (w, write_err 400)
    | some v ↦
        let to = or_else v.to [] in
        if target_exists w (or_else v.replace false) to
        then (w, write_err 409)
        else done (fs.rename w (or_else v.from []) to)
  ]

  -- a directory that holds entries is found out after the removal has failed
  unfoldable pub handle_remove : W → Request → W × Response
  handle_remove w r =
      let (w1, removed) = fs.remove w (query r path) in
      elim removed [
        | ok _ ↦ (w1, answer_ok)
        | err e ↦
            if is_full_dir (fs.stat w1 (query r path)) (fs.read_dir w1 (query r path))
            then (w1, write_err 409)
            else (w1, fail e)
      ]

  unfoldable pub handle_truncate : W → Request → W × Response
  handle_truncate w r = elim (natural (parse_int (query r size))) [
    | none ↦ (w, write_err 400)
    | some n ↦ done (fs.truncate w (query r path) (pos n))
  ]

  unfoldable pub handle_chtimes : W → Request → W × Response
  handle_chtimes w r = elim (parse_time (query r mod_time)) [
    | none ↦ (w, write_err 400)
    | some t ↦ done (fs.chtimes w (query r path) t)
  ]

  abbrev pub Handled : Type 0
  Handled = W → Request → W × Response

  -- writeGate
  unfoldable pub write_gate : Handled → Handled
  write_gate h w r = if opt.read_only then (w, write_err 403) else h w r

  -- The mux: a pattern with GET takes HEAD too, a known path with another method is answered with
  -- 405, and an unknown path with 404.
  abbrev pub on_get : Method → Handled → Handled
  on_get get h w r = h w r
  on_get head h w r = h w r
  on_get _ h w r = (w, write_err 405)

  abbrev pub on_post : Method → Handled → Handled
  on_post post h w r = h w r
  on_post _ h w r = (w, write_err 405)

  abbrev pub on_put : Method → Handled → Handled
  on_put put h w r = h w r
  on_put _ h w r = (w, write_err 405)

  abbrev pub on_delete : Method → Handled → Handled
  on_delete delete h w r = h w r
  on_delete _ h w r = (w, write_err 405)

  abbrev pub route : Endpoint → Method → Handled
  route capabilities m = on_get m handle_capabilities
  route stat m = on_get m handle_stat
  route list m = on_get m handle_list
  route read m = on_get m handle_read
  route statfs m = on_get m handle_statfs
  route create m = on_post m (write_gate handle_create)
  route write m = on_put m (write_gate handle_write)
  route mkdir m = on_post m (write_gate handle_mkdir)
  route rename m = on_post m (write_gate handle_rename)
  route remove m = on_delete m (write_gate handle_remove)
  route truncate m = on_post m (write_gate handle_truncate)
  route chtimes m = on_post m (write_gate handle_chtimes)
  route unknown_endpoint m = λ w r. (w, write_err 404)

  -- `Handler`: with a token, a request without it is refused before it is routed.
  unfoldable pub handler : Handled
  unfolding write_gate
  handler w r =
      if not (is_empty opt.token) && not (list_eq r.token opt.token)
      then (w, write_err 401)
      else route r.endpoint r.method w r
