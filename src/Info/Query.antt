-- ===== src/Info/Query.antt =====
-- `handleQueryInfo` of internal/smb/info.go.
use portable_smb_server.Base.{ℕ, Option, none, some, ltb, ◌==◌, if◌then◌else◌, length, take}
use portable_smb_server.Wire.{Bytes, u8, u32, zeros, slice, has_bits}
use portable_smb_server.Packet.Status
use portable_smb_server.Conn.{
  OpenFile, Env, State, Reply, Attrs, reply, fail, get_handle, open_attrs, open_name,
  attr_directory,
}
use portable_smb_server.Info.Encode.{
  info_response_body, file_basic_info, path_file_id, file_internal_info, file_network_open_info,
  file_attribute_tag_info, file_standard_info, file_all_info, fs_full_size_info, fs_size_info,
  fs_attribute_info, fs_volume_info, fs_device_info,
}

abbrev pub info_type_file : ℕ
info_type_file = 0x01

abbrev pub info_type_filesystem : ℕ
info_type_filesystem = 0x02

-- The classes that SET_INFO and QUERY_INFO know.
pub data FileClass : Type 0 where
  basic standard internal ea rename disposition all allocation end_of_file : FileClass
  network_open attribute_tag other_class : FileClass

unfoldable pub file_class : ℕ → FileClass
file_class n =
    if n == 0x04
    then basic
    else if n == 0x05
    then standard
    else if n == 0x06
    then internal
    else if n == 0x07
    then ea
    else if n == 0x0a
    then rename
    else if n == 0x0d
    then disposition
    else if n == 0x12
    then all
    else if n == 0x13
    then allocation
    else if n == 0x14
    then end_of_file
    else if n == 0x22
    then network_open
    else if n == 0x23
    then attribute_tag
    else other_class

module _ {W H : Type 0} (env : Env W H) where
  abbrev pub open_file_id : OpenFile W H → ℕ
  open_file_id of = path_file_id env.prims of.share.name of.path

  unfoldable pub file_info : FileClass → OpenFile W H → Attrs → Option Bytes
  file_info all of a = some (
      file_all_info a.attrs a.size a.mtime (open_name of) (has_bits a.attrs attr_directory)
        (open_file_id of))
  file_info standard of a = some (file_standard_info a.size (has_bits a.attrs attr_directory))
  file_info basic of a = some (file_basic_info a.attrs a.mtime)
  file_info internal of a = some (file_internal_info (open_file_id of))
  file_info ea of a = some (zeros 4)
  file_info network_open of a = some (file_network_open_info a.attrs a.size a.mtime)
  file_info attribute_tag of a = some (file_attribute_tag_info a.attrs)
  file_info _ of a = none

  unfoldable pub filesystem_info : ℕ → OpenFile W H → W → Option Bytes
  filesystem_info class of w =
      if class == 0x07
      then some (fs_full_size_info of.share.fs w)
      else if class == 0x03
      then some (fs_size_info of.share.fs w)
      else if class == 0x05
      then some (fs_attribute_info of.share.read_only)
      else if class == 0x01
      then some (fs_volume_info env.server_guid of.share.name)
      else if class == 0x04
      then some fs_device_info
      else none

  -- the two switches; `none` is one of their defaults
  unfoldable pub query_info : ℕ → ℕ → OpenFile W H → W → Option Bytes
  unfolding file_info filesystem_info file_class
  query_info info_type info_class of w =
      if info_type == info_type_file
      then file_info (file_class info_class) of (open_attrs w of)
      else if info_type == info_type_filesystem
      then filesystem_info info_class of w
      else none

  -- no more than OutputBufferLength
  unfoldable pub answer_info : State W H → ℕ → Bytes → Reply W H
  answer_info s out_len info =
      if ltb out_len (length info)
      then reply s Status.buffer_overflow (info_response_body (take out_len info))
      else reply s Status.success (info_response_body info)

  unfoldable pub handle_query_info : Bytes → State W H → Reply W H
  unfolding query_info answer_info
  handle_query_info body s =
      if ltb (length body) 40
      then fail s Status.invalid_parameter
      else elim (get_handle s (slice body 24 16)) [
        | none ↦ fail s Status.invalid_parameter
        | some of ↦ elim (query_info (u8 body 2) (u8 body 3) of s.world) [
          | none ↦ fail s Status.not_supported
          | some info ↦ answer_info s (u32 body 4) info
        ]
      ]
