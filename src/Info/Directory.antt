-- ===== src/Info/Directory.antt =====
-- `handleQueryDirectory` and `filterByPattern` of internal/smb/info.go, and `listDir` of
-- internal/smb/create.go.
use portable_smb_server.Base.{
  ℕ, ◌+◌, Bool, true, false, ◌||◌, not, none, some, List, [], ◌∷◌, ltb, leb, ◌==◌, if◌then◌else◌,
  length, take, drop, list_eq,
}
use portable_smb_server.Wire.{Bytes, u8, u16, u32, slice, has_bits, buffer_at}
use portable_smb_server.Packet.Status
use portable_smb_server.Packet.Utf16.{Str, utf16le_to_string}
use portable_smb_server.Path.{is_empty, join_path}
use portable_smb_server.Pattern.{Unicode, single_name, match_pattern, star_rune}
use portable_smb_server.Fsx.{FileInfo, ok, err}
use portable_smb_server.Conn.{OpenFile, Env, State, Reply, reply, fail, get_handle, put_open}
use portable_smb_server.Info.Encode.{info_response_body}
use portable_smb_server.Info.Entries.{build_dir_info_buffer}

abbrev pub flag_restart_scans : ℕ
flag_restart_scans = 0x01

abbrev pub flag_return_single_entry : ℕ
flag_return_single_entry = 0x02

-- outputBufferLength, which is capped at 1 MiB
abbrev pub max_dir_buffer : ℕ
max_dir_buffer = 0x00100000

abbrev pub dir_buffer_length : Bytes → ℕ
dir_buffer_length body = let n = u32 body 28 in if ltb max_dir_buffer n then max_dir_buffer else n

abbrev keep : Bool → FileInfo → List FileInfo → List FileInfo
keep true fi out = fi ∷ out
keep false fi out = out

unfoldable pub matching : Unicode → Str → Bool → List FileInfo → List FileInfo
matching u pattern insensitive [] = []
matching u pattern insensitive (fi ∷ fis) =
    keep (match_pattern u pattern fi.name insensitive) fi (matching u pattern insensitive fis)

unfoldable pub filter_by_pattern : Unicode → List FileInfo → Str → Bool → List FileInfo
unfolding matching
filter_by_pattern u entries pattern insensitive =
    if is_empty pattern || list_eq pattern (star_rune ∷ [])
    then entries
    else matching u pattern insensitive entries

-- the search pattern of a request
unfoldable pub search_pattern : Bytes → Str
search_pattern body = elim (buffer_at body (u16 body 24) (u16 body 26)) [
  | none ↦ []
  | some b ↦ utf16le_to_string b
]

module _ {W H : Type 0} (env : Env W H) where
  abbrev pub loaded : OpenFile W H → List FileInfo → OpenFile W H
  loaded of entries = record of { dir_entries = entries; dir_pos = 0; dir_loaded = true }

  -- `flags&flagRestartScans != 0`
  unfoldable pub restart : ℕ → OpenFile W H → OpenFile W H
  restart flags of =
      if has_bits flags flag_restart_scans
      then record of { dir_entries = []; dir_pos = 0; dir_loaded = false }
      else of

  -- one stat for a name, a listing for a wildcard; what cannot be listed is empty
  unfoldable pub list_entries : OpenFile W H → Str → W → List FileInfo
  unfolding filter_by_pattern
  list_entries of pattern w =
      if single_name pattern
      then elim (of.share.fs.stat w (join_path of.path pattern)) [ ok fi ↦ fi ∷ [] | err e ↦ [] ]
      else elim (of.share.fs.read_dir w of.path) [
        | err e ↦ filter_by_pattern env.unicode [] pattern of.share.fs.case_insensitive
        | ok entries ↦ filter_by_pattern env.unicode entries pattern of.share.fs.case_insensitive
      ]

  unfoldable pub load : OpenFile W H → Str → W → OpenFile W H
  unfolding list_entries
  load of pattern w = if of.dir_loaded then of else loaded of (list_entries of pattern w)

  abbrev pub one_of : ℕ → List FileInfo → List FileInfo
  one_of flags entries = if has_bits flags flag_return_single_entry then take 1 entries else entries

  -- the response from where the scan stands, and the scan behind it
  unfoldable pub next_page : ℕ → ℕ → ℕ → OpenFile W H → State W H → Reply W H
  next_page class flags max_len of s =
      let entries = one_of flags (drop of.dir_pos of.dir_entries) in
      let (buf, n) = build_dir_info_buffer env.prims class of s.conn.aapl entries max_len in
      if leb (length of.dir_entries) of.dir_pos || n == 0
      then fail (put_open s of) Status.no_more_files
      else reply (put_open s (record of { dir_pos = of.dir_pos + n })) Status.success
          (info_response_body buf)

  unfoldable pub handle_query_directory : Bytes → State W H → Reply W H
  unfolding next_page load restart
  handle_query_directory body s =
      let flags = u8 body 3 in
      if ltb (length body) 32
      then fail s Status.invalid_parameter
      else elim (get_handle s (slice body 8 16)) [
        | none ↦ fail s Status.invalid_parameter
        | some of ↦
            if not of.is_dir
            then fail s Status.invalid_parameter
            else next_page (u8 body 2) flags (dir_buffer_length body)
                (load (restart flags of) (search_pattern body) s.world) s
      ]
