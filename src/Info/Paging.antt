-- ===== src/Info/Paging.antt =====
-- What a response to QUERY_DIRECTORY, `handleQueryDirectory` of internal/smb/info.go, carries while
-- entries are left.
use portable_smb_server.Base.{ℕ, ◌+◌, ◌≤◌, ◌<◌, true, List, [], length, take, drop, ◌≡◌, ◌⊎◌}
use portable_smb_server.Wire.{Bytes, has_bits}
use portable_smb_server.Packet.Status
use portable_smb_server.Fsx.{FileInfo}
use portable_smb_server.Conn.{OpenFile, Env, State, Reply, put_open}
use portable_smb_server.Info.Encode.{info_response_body}
use portable_smb_server.Info.Entries.{dir_info_loop, build_dir_info_buffer}
use portable_smb_server.Info.Walk.{closed}
use portable_smb_server.Info.Directory.{one_of, flag_return_single_entry}

module _ {W H : Type 0} (env : Env W H) (class flags max_len : ℕ) (s : State W H) where
  -- how many entries the next response carries
  abbrev pub page_count : OpenFile W H → ℕ
  page_count of =
      (build_dir_info_buffer env.prims class of s.conn.aapl
        (one_of env flags (drop of.dir_pos of.dir_entries)) max_len).1

  -- the entries that it carries, and the open behind it
  abbrev pub page : OpenFile W H → List FileInfo
  page of = take (page_count of) (drop of.dir_pos of.dir_entries)

  abbrev pub advanced : OpenFile W H → OpenFile W H
  advanced of = record of { dir_pos = of.dir_pos + page_count of }

  -- A response while entries are left.
  pub record PageOk (of : OpenFile W H) (r : Reply W H) : Type 0 where
    pub progress : 1 ≤ page_count of
    pub within : of.dir_pos + page_count of ≤ length of.dir_entries
    pub single : has_bits flags flag_return_single_entry ≡ true → page_count of ≡ 1
    pub succeeds : r.status ≡ Status.success
    pub stored : r.state ≡ put_open s (advanced of)
    pub buffer : Bytes
    pub sent : r.body ≡ info_response_body buffer
    pub fits : (length buffer ≤ max_len) ⊎ (page_count of ≡ 1)
    pub packed : buffer ≡ closed env.prims class of s.conn.aapl (page of)

  module _ (of : OpenFile W H) (left : of.dir_pos < length of.dir_entries) where
    entries : List FileInfo
    entries = drop of.dir_pos of.dir_entries

    looped : Bytes × ℕ × ℕ
    looped = dir_info_loop env.prims class of s.conn.aapl (one_of env flags entries) max_len [] 0 0
