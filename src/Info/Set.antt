-- ===== src/Info/Set.antt =====
-- `handleSetInfo` and `truncate` of internal/smb/info.go.
use portable_smb_server.Base.{
  ◌+◌, ◌-◌, Bool, true, false, ◌||◌, ◌&&◌, not, Option, none, some, List, [], ◌∷◌, ltb, ◌==◌,
  if◌then◌else◌, length,
}
use portable_smb_server.Base.Int.{ℤ, int64}
use portable_smb_server.Wire.{Bytes, u8, u16, u32, u64, slice, smb2_header_size}
use portable_smb_server.Packet.Status
use portable_smb_server.Packet.Filetime.{filetime_to_time}
use portable_smb_server.Packet.Utf16.{Str, utf16le_to_string}
use portable_smb_server.Path.{name_to_path}
use portable_smb_server.Pattern.{equal_fold}
use portable_smb_server.Fsx.{FileInfo, Result, ok, err, map_os_error}
use portable_smb_server.Conn.{
  OpenFile, Env, State, Reply, reply, fail, with_world, get_handle, put_open, read_only_file,
}
use portable_smb_server.Info.Encode.{set_info_response_body}
use portable_smb_server.Info.Query.{
  info_type_file, FileClass, file_class, basic, rename, disposition, allocation, end_of_file,
}

-- The request's buffer; `none` where it does not lie inside the body.
unfoldable pub set_buffer : Bytes → Option Bytes
set_buffer body =
    let start = u16 body 8 in
    let len = u32 body 4 in
    if ltb start smb2_header_size || ltb (length body) (start - smb2_header_size + len)
    then none
    else some (slice body (start - smb2_header_size) len)

abbrev pub listed : Result (List FileInfo) → Bool
listed (ok (x ∷ xs)) = true
listed _ = false

abbrev pub exists : Result FileInfo → Bool
exists (ok fi) = true
exists (err e) = false

module _ {W H : Type 0} where
  abbrev pub done : State W H → Reply W H
  done s = reply s Status.success set_info_response_body

  -- the two gates of a change: the share's, and the file's
  unfoldable pub guarded : State W H → OpenFile W H → Reply W H → Reply W H
  guarded s of r =
      if of.share.read_only
      then fail s Status.media_write_protected
      else if read_only_file s.world of
      then fail s Status.access_denied
      else r

  unfoldable pub set_disposition : OpenFile W H → Bytes → State W H → Reply W H
  set_disposition of [] s = done s
  set_disposition of (x ∷ xs) s =
      if x == 0
      then done (put_open s (record of { delete_on_close = false }))
      else guarded s of (
          if of.is_dir && listed (of.share.fs.read_dir s.world of.path)
          then fail s Status.directory_not_empty
          else done (put_open s (record of { delete_on_close = true })))

  -- c.truncate(of, size)
  unfoldable pub truncate_open : W → OpenFile W H → ℤ → W × Result (Unit {0})
  truncate_open w of size = elim of.handle [
    | none ↦ of.share.fs.truncate w of.path size
    | some h ↦ of.share.fs.truncate_handle w h size
  ]

  unfoldable pub set_end_of_file : OpenFile W H → Bytes → State W H → Reply W H
  unfolding truncate_open guarded
  set_end_of_file of buf s =
      let (w, result) = truncate_open s.world of (int64 (u64 buf 0)) in
      if ltb (length buf) 8
      then done s
      else guarded s of (elim result [
        | err e ↦ fail (with_world s w) (map_os_error e)
        | ok _ ↦ done (with_world s w)
      ])

  unfoldable pub rename_open : OpenFile W H → Str → State W H → Reply W H
  rename_open of new_path s =
      let (w, result) = of.share.fs.rename s.world of.path new_path in
      elim result [
        | err e ↦ fail (with_world s w) (map_os_error e)
        | ok _ ↦ done (put_open (with_world s w) (record of { path = new_path }))
      ]

  -- the last write time, which a read-only share and a read-only file ignore
  unfoldable pub set_basic : OpenFile W H → Bytes → State W H → Reply W H
  set_basic of buf s =
      let last_write = u64 buf 16 in
      let (w, _) = of.share.fs.chtimes s.world of.path (filetime_to_time last_write) in
      if ltb (length buf) 32 || last_write == 0 || of.share.read_only || read_only_file s.world of
      then done s
      else done (with_world s w)

module _ {W H : Type 0} (env : Env W H) where
  unfoldable pub set_rename : OpenFile W H → Bytes → State W H → Reply W H
  unfolding rename_open
  set_rename of buf s =
      let name_len = u32 buf 16 in
      let new_path = name_to_path (utf16le_to_string (slice buf 20 name_len)) in
      if ltb (length buf) 20 || ltb (length buf) (20 + name_len)
      then done s
      else if u8 buf 0 == 0
          && not (equal_fold env.unicode new_path of.path)
          && exists (of.share.fs.stat s.world new_path)
      then fail s Status.object_name_collision
      else rename_open of new_path s

  unfoldable pub set_info : FileClass → OpenFile W H → Bytes → State W H → Reply W H
  unfolding set_rename set_basic set_end_of_file set_disposition guarded
  set_info disposition of buf s = set_disposition of buf s
  set_info end_of_file of buf s = set_end_of_file of buf s
  set_info allocation of buf s = guarded s of (done s)
  set_info rename of buf s = guarded s of (set_rename of buf s)
  set_info basic of buf s = set_basic of buf s
  set_info _ of buf s = fail s Status.invalid_info_class

  unfoldable pub handle_set_info : Bytes → State W H → Reply W H
  unfolding set_info set_buffer
  handle_set_info body s =
      if ltb (length body) 32
      then fail s Status.invalid_parameter
      else elim (get_handle s (slice body 16 16)) [
        | none ↦ fail s Status.invalid_parameter
        | some of ↦ elim (set_buffer body) [
          | none ↦ fail s Status.invalid_parameter
          | some buf ↦
              if u8 body 2 == info_type_file
              then set_info (file_class (u8 body 3)) of buf s
              else fail s Status.not_supported
        ]
      ]
