-- ===== src/Info/Encode.antt =====
-- The information classes of internal/smb/info.go as bytes.
use portable_smb_server.Base.{
  ℕ, ◌+◌, ◌*◌, ◌/◌, ◌%◌, Bool, [], ◌∷◌, ◌++◌, ltb, if◌then◌else◌, length, bit_or,
}
use portable_smb_server.Base.Int.{ℤ, pos, negsuc}
use portable_smb_server.Wire.{
  Bytes, u32, u64, put8, put16, put32, put64, zeros, copy_at, smb2_header_size,
}
use portable_smb_server.Packet.Filetime.{Time, time_to_filetime}
use portable_smb_server.Packet.Utf16.{Str, string_to_utf16le}
use portable_smb_server.Fsx.{FileSystem, Result, ok, err}
use portable_smb_server.Crypto.{Primitives}

-- `string([]byte)`: the UTF-8 bytes of a string of runes
abbrev utf8_rune : ℕ → Bytes
utf8_rune r =
    if ltb r 0x80
    then r ∷ []
    else if ltb r 0x800
    then (0xc0 + r / 64) ∷ (0x80 + r % 64) ∷ []
    else if ltb r 0x10000
    then (0xe0 + r / 4096) ∷ (0x80 + r / 64 % 64) ∷ (0x80 + r % 64) ∷ []
    else (0xf0 + r / 262144) ∷ (0x80 + r / 4096 % 64) ∷ (0x80 + r / 64 % 64) ∷ (0x80 + r % 64) ∷ []

abbrev pub utf8_bytes : Str → Bytes
utf8_bytes [] = []
utf8_bytes (r ∷ rs) = utf8_rune r ++ utf8_bytes rs

-- infoResponseBody
unfoldable pub info_response_body : Bytes → Bytes
info_response_body info =
    put32 (put16 (put16 (zeros 8) 0 9) 2 (smb2_header_size + 8)) 4 (length info) ++ info

abbrev pub set_info_response_body : Bytes
set_info_response_body = put16 (zeros 2) 0 2

-- the four timestamps, of which the server keeps one
abbrev pub put_times : Bytes → ℕ → ℕ → Bytes
put_times b i ft = put64 (put64 (put64 (put64 b i ft) (i + 8) ft) (i + 16) ft) (i + 24) ft

unfoldable pub file_basic_info : ℕ → Time → Bytes
file_basic_info attrs t = put32 (put_times (zeros 40) 0 (time_to_filetime t)) 32 attrs

-- pathFileID: the first eight bytes of an MD5 sum
unfoldable pub path_file_id : Primitives → Str → Str → ℕ
path_file_id c share_name path = u64 (c.md5 (utf8_bytes share_name ++ (0 ∷ utf8_bytes path))) 0

unfoldable pub file_internal_info : ℕ → Bytes
file_internal_info inode = put64 (zeros 8) 0 inode

unfoldable pub file_network_open_info : ℕ → ℕ → Time → Bytes
file_network_open_info attrs size t =
    let b = put_times (zeros 56) 0 (time_to_filetime t) in
    put32 (put64 (put64 b 32 size) 40 size) 48 attrs

unfoldable pub file_attribute_tag_info : ℕ → Bytes
file_attribute_tag_info attrs = put32 (zeros 8) 0 attrs

unfoldable pub file_standard_info : ℕ → Bool → Bytes
file_standard_info size is_dir =
    let b = put32 (put64 (put64 (zeros 24) 0 size) 8 size) 16 1 in if is_dir then put8 b 21 1 else b

-- the name of FileAllInformation, two zero bytes for the share's root
abbrev all_info_name : Bytes → Bytes
all_info_name [] = 0 ∷ 0 ∷ []
all_info_name (x ∷ xs) = x ∷ xs

unfoldable pub file_all_info : ℕ → ℕ → Time → Str → Bool → ℕ → Bytes
unfolding file_basic_info file_standard_info
file_all_info attrs size t name is_dir file_id =
    let name_bytes = all_info_name (string_to_utf16le name) in
    let b1 = copy_at (zeros 100) 0 (file_basic_info attrs t) in
    let b2 = copy_at b1 40 (file_standard_info size is_dir) in
    put32 (put64 b2 64 file_id) 96 (length name_bytes) ++ name_bytes

-- allocUnits
abbrev pub alloc_units : ℤ → ℕ → ℕ
alloc_units (pos n) unit = n / unit
alloc_units (negsuc n) unit = 0

-- `total, free, _ := f.Statfs()`, where a failure leaves zeros
abbrev totals : Result (ℤ × ℤ) → ℤ × ℤ
totals (ok t) = t
totals (err e) = (pos 0, pos 0)

abbrev pub bytes_per_sector : ℕ
bytes_per_sector = 512

abbrev pub sectors_per_unit : ℕ
sectors_per_unit = 8

module _ {W H : Type 0} where
  unfoldable pub fs_full_size_info : FileSystem W H → W → Bytes
  fs_full_size_info f w =
      let (total, free) = totals (f.statfs w) in
      let unit = bytes_per_sector * sectors_per_unit in
      let b = put64 (put64 (zeros 32) 0 (alloc_units total unit)) 8 (alloc_units free unit) in
      put32 (put32 (put64 b 16 (alloc_units free unit)) 24 sectors_per_unit) 28 bytes_per_sector

  unfoldable pub fs_size_info : FileSystem W H → W → Bytes
  fs_size_info f w =
      let (total, free) = totals (f.statfs w) in
      let unit = bytes_per_sector * sectors_per_unit in
      let b = put64 (put64 (zeros 24) 0 (alloc_units total unit)) 8 (alloc_units free unit) in
      put32 (put32 b 16 sectors_per_unit) 20 bytes_per_sector

-- FILE_CASE_PRESERVED_NAMES, and FILE_READ_ONLY_VOLUME; the name is "psmb"
unfoldable pub fs_attribute_info : Bool → Bytes
fs_attribute_info read_only =
    let name = string_to_utf16le (b'p' ∷ b's' ∷ b'm' ∷ b'b' ∷ []) in
    let attrs = if read_only then bit_or 0x00000002 0x00080000 else 0x00000002 in
    put32 (put32 (put32 (zeros 12) 0 attrs) 4 255) 8 (length name) ++ name

unfoldable pub fs_volume_info : Bytes → Str → Bytes
fs_volume_info guid label =
    let label_bytes = string_to_utf16le label in
    put32 (put32 (zeros 18) 8 (u32 guid 0)) 12 (length label_bytes) ++ label_bytes

abbrev pub fs_device_info : Bytes
fs_device_info = put32 (zeros 8) 0 0x00000007
