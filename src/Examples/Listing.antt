-- ===== src/Examples/Listing.antt =====
-- A response to QUERY_DIRECTORY of internal/smb/info.go with two entries.
use portable_smb_server.Base.{[], ◌∷◌, ◌≡◌, refl, arith, ◌<◌, ◌^◌, true, map, take, ◌+◌}
use portable_smb_server.Wire.{copy_at}
use portable_smb_server.Fsx.{FileInfo}
use portable_smb_server.Info.Entries.{
  build_dir_info_buffer, padded_size, dir_entry, entry_fields, dir_info_loop, dir_info_layout,
}
use portable_smb_server.Info.Fields.{name_bytes}
use portable_smb_server.Info.Walk.{read_names, read_names-build_dir_info_buffer}
use portable_smb_server.Packet.Utf16.{string_to_utf16le}
use portable_smb_server.Examples.Backend.{info_of, primitives, open_of, open_share}

abbrev first : FileInfo
first = info_of (b'a' ∷ []) []

abbrev second : FileInfo
second = info_of (b'b' ∷ b'c' ∷ []) []

-- FileNamesInformation, and room for both
names_test :
    read_names 0x0c 9
      (build_dir_info_buffer primitives 0x0c (open_of open_share) true (first ∷ second ∷ []) 100).0
    ≡ (b'a' ∷ 0 ∷ []) ∷ (b'b' ∷ 0 ∷ b'c' ∷ 0 ∷ []) ∷ []
unfolding build_dir_info_buffer dir_entry entry_fields dir_info_loop padded_size read_names
    string_to_utf16le copy_at dir_info_layout
names_test = refl

small_first : padded_size 0x0c first < 2 ^ 32
unfolding padded_size string_to_utf16le
small_first = omega arith

small_second : padded_size 0x0c second < 2 ^ 32
unfolding padded_size string_to_utf16le
small_second = omega arith

read_names-build_dir_info_buffer_example :
    let (buffer, count) =
      build_dir_info_buffer primitives 0x0c (open_of open_share) true (first ∷ second ∷ []) 100 in
    read_names 0x0c (count + 7) buffer ≡ map name_bytes (take count (first ∷ second ∷ []))
read_names-build_dir_info_buffer_example =
    read_names-build_dir_info_buffer primitives 0x0c (open_of open_share) true first (second ∷ [])
      100 7 (small_first, (small_second, tt))
