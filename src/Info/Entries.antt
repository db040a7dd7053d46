-- ===== src/Info/Entries.antt =====
-- `buildDirInfoBuffer` of internal/smb/info.go: the chain of entries that one QUERY_DIRECTORY
-- response carries.
use portable_smb_server.Base.{
  ℕ, ◌+◌, Bool, ◌||◌, ◌&&◌, List, [], ◌∷◌, ◌++◌, ltb, ◌==◌, if◌then◌else◌, length,
}
use portable_smb_server.Wire.{Bytes, put32, put64, zeros, copy_at}
use portable_smb_server.Packet.Filetime.{time_to_filetime}
use portable_smb_server.Packet.Utf16.{string_to_utf16le}
use portable_smb_server.Path.{join_path}
use portable_smb_server.Fsx.{FileInfo, file_is_read_only}
use portable_smb_server.Crypto.{Primitives}
use portable_smb_server.Conn.{OpenFile, file_info_attrs}
use portable_smb_server.Aapl.{round_up8, apple_read_dir_attr}
use portable_smb_server.Info.Encode.{path_file_id, put_times}

-- dirInfoLayout: the size of the fixed part and the offset of the name, which are equal in every
-- class, and 64 for a class that is not known
unfoldable pub dir_info_layout : ℕ → ℕ
dir_info_layout class =
    if class == 0x01
    then 64
    else if class == 0x02
    then 68
    else if class == 0x03
    then 94
    else if class == 0x0c
    then 12
    else if class == 0x25
    then 104
    else if class == 0x26
    then 80
    else 64

-- roundUp(fixed+len(nameBytes), 8)
unfoldable pub padded_size : ℕ → FileInfo → ℕ
unfolding dir_info_layout
padded_size class fi = round_up8 (dir_info_layout class + length (string_to_utf16le fi.name))

module _ {W H : Type 0} (c : Primitives) (class : ℕ) (of : OpenFile W H) (aapl : Bool) where
  -- the file ids of the two classes that carry them, and Apple's fields
  unfoldable pub entry_ids : FileInfo → Bytes → Bytes
  entry_ids fi e =
      let id = path_file_id c of.share.name (join_path of.path fi.name) in
      let e25 = put64 e 96 id in
      if class == 0x26
      then put64 e 72 id
      else if class == 0x25
      then if aapl
        then apple_read_dir_attr e25 (of.share.read_only || file_is_read_only fi) fi.is_dir
        else e25
      else e

  -- the fields behind NextEntryOffset
  unfoldable pub entry_fields : FileInfo → ℕ → Bytes → Bytes
  unfolding entry_ids
  entry_fields fi name_len e =
      let e1 = put_times e 8 (time_to_filetime fi.mod_time) in
      let e2 = put32 (put64 (put64 e1 40 fi.size) 48 fi.size) 56 (file_info_attrs fi) in
      if class == 0x0c then put32 e 8 name_len else entry_ids fi (put32 e2 60 name_len)

  unfoldable pub dir_entry : FileInfo → Bytes
  unfolding entry_fields padded_size
  dir_entry fi =
      let name_bytes = string_to_utf16le fi.name in
      let padded = padded_size class fi in
      let e = entry_fields fi (length name_bytes) (put32 (zeros padded) 0 padded) in
      copy_at e (dir_info_layout class) name_bytes

  -- The loop, with the buffer, where its last entry starts, and the count.
  unfoldable pub dir_info_loop : List FileInfo → ℕ → Bytes → ℕ → ℕ → Bytes × ℕ × ℕ
  dir_info_loop [] max_len buf last_start count = (buf, last_start, count)
  dir_info_loop (fi ∷ fis) max_len buf last_start count =
      let rest = dir_info_loop fis max_len (buf ++ dir_entry fi) (length buf) (count + 1) in
      if ltb 0 count && ltb max_len (length buf + padded_size class fi)
      then (buf, last_start, count)
      else rest

  unfoldable pub build_dir_info_buffer : List FileInfo → ℕ → Bytes × ℕ
  unfolding dir_info_loop
  build_dir_info_buffer entries max_len =
      let (buf, last_start, count) = dir_info_loop entries max_len [] 0 0 in
      (if ltb 0 count then put32 buf last_start 0 else buf, count)
