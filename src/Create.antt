-- ===== src/Create.antt =====
-- CREATE: `handleCreate`, `buildCreateResp` and `accessToFlags` of internal/smb/create.go, and
-- `withAppleContext` of internal/smb/aapl.go.
pub mod Dispositions
pub mod Handles
use portable_smb_server.Base.{
  ℕ, ◌+◌, ◌%◌, ◌^◌, Bool, true, false, ◌||◌, ◌&&◌, not, Option, none, some, [], ltb, leb, ◌==◌,
  if◌then◌else◌, length,
}
use portable_smb_server.Wire.{
  Bytes, u16, u32, put16, put32, put64, zeros, copy_at, has_bits, buffer_at,
}
use portable_smb_server.Packet.Status
use portable_smb_server.Packet.Filetime.{time_to_filetime}
use portable_smb_server.Packet.Utf16.{Str, utf16le_to_string}
use portable_smb_server.Path.{name_to_path}
use portable_smb_server.Fsx.{FileInfo, ok, err, OpenFlags, file_is_read_only, map_os_error}
use portable_smb_server.Conn.{
  Share, OpenFile, State, Reply, reply, fail, with_conn, with_world, find_tree, file_id_of,
  add_handle, open_attrs, Attrs,
}
use portable_smb_server.Aapl.{
  create_contexts, find_context, aapl_context_name, apple_server_query_response,
  wants_read_dir_attr, with_create_contexts, create_context_blob,
}

-- The CreateDisposition values.
pub data Disposition : Type 0 where
  supersede open_existing create open_if overwrite overwrite_if other_disposition : Disposition

unfoldable pub disposition_of : ℕ → Disposition
disposition_of n =
    if n == 0
    then supersede
    else if n == 1
    then open_existing
    else if n == 2
    then create
    else if n == 3
    then open_if
    else if n == 4
    then overwrite
    else if n == 5
    then overwrite_if
    else other_disposition

abbrev pub opt_directory_file : ℕ
opt_directory_file = 0x00000001

abbrev pub opt_non_directory_file : ℕ
opt_non_directory_file = 0x00000040

abbrev pub opt_delete_on_close : ℕ
opt_delete_on_close = 0x00001000

abbrev pub action_opened : ℕ
action_opened = 1

abbrev pub action_created : ℕ
action_created = 2

abbrev pub action_overwritten : ℕ
action_overwritten = 3

abbrev pub acc_write_data : ℕ
acc_write_data = 0x00000002

abbrev pub acc_append_data : ℕ
acc_append_data = 0x00000004

-- accGenericWrite|accGenericAll|accFileWriteData|accFileAppendData
abbrev pub acc_any_write : ℕ
acc_any_write = 0x50000006

abbrev pub creates_missing : Disposition → Bool
creates_missing create = true
creates_missing open_if = true
creates_missing overwrite_if = true
creates_missing supersede = true
creates_missing _ = false

abbrev pub truncates : Disposition → Bool
truncates overwrite = true
truncates overwrite_if = true
truncates supersede = true
truncates _ = false

abbrev pub is_exclusive : Disposition → Bool
is_exclusive create = true
is_exclusive _ = false

unfoldable pub access_to_flags : ℕ → Disposition → OpenFlags
access_to_flags access disposition = record {
  read = true;
  write = has_bits access acc_any_write;
  append = has_bits access acc_append_data && not (has_bits access acc_write_data);
  create = creates_missing disposition;
  excl = is_exclusive disposition;
  trunc = truncates disposition;
}

-- FILE_OPEN and FILE_OVERWRITE need the name to exist
abbrev pub needs_existing : Disposition → Bool
needs_existing open_existing = true
needs_existing overwrite = true
needs_existing _ = false

-- maxOpenFiles
abbrev pub max_open_files : ℕ
max_open_files = 16384

-- os.O_RDONLY
abbrev pub read_only_flags : OpenFlags
read_only_flags = record {
  read = true;
  write = false;
  append = false;
  create = false;
  excl = false;
  trunc = false;
}

-- flags&(os.O_RDWR|os.O_WRONLY|os.O_APPEND|os.O_TRUNC) != 0
abbrev pub writes : OpenFlags → Bool
writes f = f.write || f.append || f.trunc

-- The fields of a CREATE request that the handler reads, with the share of its tree.
pub record Request (W H : Type 0) : Type 0 where
  pub share : Share W H
  pub flags : OpenFlags
  pub disposition : Disposition
  pub wants_directory : Bool
  pub refuses_directory : Bool
  pub delete_on_close : Bool
  pub path : Str

module _ {W H : Type 0} where
  unfoldable pub parse_request : Bytes → Share W H → Request W H
  unfolding access_to_flags disposition_of
  parse_request body sh =
      let options = u32 body 40 in
      let disposition = disposition_of (u32 body 36) in
      let name : Str = elim (buffer_at body (u16 body 44) (u16 body 46)) [
        | none ↦ []
        | some buf ↦ utf16le_to_string buf
      ] in
      record {
        share = sh;
        flags = access_to_flags (u32 body 24) disposition;
        disposition = disposition;
        wants_directory = has_bits options opt_directory_file;
        refuses_directory = has_bits options opt_non_directory_file;
        delete_on_close = has_bits options opt_delete_on_close;
        path = name_to_path name;
      }

  -- The two read-only gates, for a name that exists or does not.
  unfoldable pub share_refuses : Request W H → Bool → Bool
  share_refuses r exists =
      let creates = not exists && (r.flags.create || r.wants_directory) in
      r.share.read_only && (writes r.flags || creates || r.delete_on_close)

  unfoldable pub file_refuses : Request W H → FileInfo → Bool
  file_refuses r fi = file_is_read_only fi && (writes r.flags || r.delete_on_close)

-- What the second `switch` leaves behind a success: the open's handle, its kind and the action.
pub record Opening (H : Type 0) : Type 0 where
  pub handle : Option H
  pub is_dir : Bool
  pub action : ℕ

-- A status, or an opening.
pub data Outcome (H : Type 0) : Type 0 where
  refused : ℕ → Outcome H
  opened : Opening H → Outcome H

module _ {W H : Type 0} where
  -- `case !exists && createOptions&optDirectoryFile != 0`
  unfoldable pub make_directory : Request W H → W → W × Outcome H
  make_directory r w =
      let (w1, made) = r.share.fs.mkdir w r.path in
      elim made [
        | err e ↦ (w1, refused (map_os_error e))
        | ok _ ↦ elim (r.share.fs.stat w1 r.path) [
          | err e ↦ (w1, refused (map_os_error e))
          | ok _ ↦ (w1, opened (record { handle = none; is_dir = true; action = action_created }))
        ]
      ]

  -- the default case; on a read-only share the flags are O_RDONLY
  unfoldable pub open_regular : Request W H → Bool → W → W × Outcome H
  open_regular r exists w =
      let flags = if r.share.read_only then read_only_flags else r.flags in
      let (w1, result) = r.share.fs.open_file w r.path flags in
      let action =
        if not exists
        then action_created
        else if flags.trunc
        then action_overwritten
        else action_opened in
      elim result [
        | err e ↦ (w1, refused (map_os_error e))
        | ok h ↦ (w1, opened (record { handle = some h; is_dir = false; action = action }))
      ]

  -- The name exists: the file gate, then the directory, the clash of kinds, or the file.
  unfoldable pub open_existing_name : Request W H → FileInfo → W → W × Outcome H
  open_existing_name r fi w =
      if file_refuses r fi
      then (w, refused Status.access_denied)
      else if fi.is_dir
      then (
        w,
        if r.refuses_directory
            then refused Status.file_is_a_directory
            else opened (record { handle = none; is_dir = true; action = action_opened }),
      )
      else if r.wants_directory
      then (w, refused Status.not_a_directory)
      else open_regular r true w

  unfoldable pub open_missing_name : Request W H → W → W × Outcome H
  open_missing_name r w = if r.wants_directory then make_directory r w else open_regular r false w

  -- the disposition's precondition, the share gate, then the open
  unfoldable pub open_request : Request W H → W → W × Outcome H
  unfolding open_existing_name open_missing_name make_directory open_regular share_refuses
      file_refuses
  open_request r w = elim (r.share.fs.stat w r.path) [
    | ok fi ↦
        if is_exclusive r.disposition
        then (w, refused Status.object_name_collision)
        else if share_refuses r true
        then (w, refused Status.media_write_protected)
        else open_existing_name r fi w
    | err e ↦
        if needs_existing r.disposition
        then (w, refused (map_os_error e))
        else if share_refuses r false
        then (w, refused Status.media_write_protected)
        else open_missing_name r w
  ]

  -- buildCreateResp
  unfoldable pub build_create_resp : ℕ → OpenFile W H → Attrs → Bytes
  build_create_resp action of a =
      let ft = time_to_filetime a.mtime in
      let b1 = put32 (put16 (zeros 89) 0 89) 4 action in
      let b2 = put64 (put64 (put64 (put64 b1 8 ft) 16 ft) 24 ft) 32 ft in
      let b3 = put32 (put64 (put64 b2 40 a.size) 48 a.size) 56 a.attrs in copy_at b3 64 of.file_id

  -- withAppleContext: the body, with Apple's answer behind it where the request asks for one
  unfoldable pub apple_body : Bytes → Share W H → Bytes → Bytes
  apple_body req_body sh resp = elim (find_context aapl_context_name (create_contexts req_body)) [
    | none ↦ resp
    | some req ↦ elim (apple_server_query_response req sh) [
      | none ↦ resp
      | some answer ↦ with_create_contexts resp (create_context_blob aapl_context_name answer)
    ]
  ]

  -- `c.aapl = true`, set while the answer is built
  unfoldable pub apple_enabled : Bytes → Share W H → Bool
  apple_enabled req_body sh = elim (find_context aapl_context_name (create_contexts req_body)) [
    | none ↦ false
    | some req ↦ elim (apple_server_query_response req sh) [
      | none ↦ false
      | some _ ↦ wants_read_dir_attr req
    ]
  ]

  abbrev pub new_open : Bytes → Request W H → Opening H → OpenFile W H
  new_open id r o = record {
    file_id = id;
    share = r.share;
    path = r.path;
    handle = o.handle;
    is_dir = o.is_dir;
    delete_on_close = r.delete_on_close;
    dir_entries = [];
    dir_pos = 0;
    dir_loaded = false;
  }

  -- newFileID and addHandle, then the response
  unfoldable pub finish_create : Bytes → Request W H → Opening H → State W H → Reply W H
  finish_create body r o s =
      let ctr = (s.conn.handle_ctr + 1) % 2 ^ 64 in
      let of = new_open (file_id_of ctr) r o in
      let s1 = add_handle (with_conn s (record s.conn { handle_ctr = ctr })) of in
      let s2 =
        with_conn s1 (record s1.conn { aapl = s1.conn.aapl || apple_enabled body r.share }) in
      reply s2 Status.success
        (apple_body body r.share (build_create_resp o.action of (open_attrs s1.world of)))

  unfoldable pub create_on : Bytes → Request W H → State W H → Reply W H
  create_on body r s =
      let (w, outcome) = open_request r s.world in
      elim outcome [
        | refused status ↦ fail (with_world s w) status
        | opened o ↦ finish_create body r o (with_world s w)
      ]

  unfoldable pub handle_create : Bytes → ℕ → State W H → Reply W H
  handle_create body tree_id s =
      if ltb (length body) 56
      then fail s Status.invalid_parameter
      else if leb max_open_files (length s.conn.handles)
      then fail s Status.insufficient_resources
      else elim (find_tree tree_id s.conn.disk_trees) [
        | none ↦ fail s Status.network_name_deleted
        | some sh ↦ create_on body (parse_request body sh) s
      ]
