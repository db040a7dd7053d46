-- ===== src/Info/Scan.antt =====
-- A directory scan over several QUERY_DIRECTORY requests, as a client runs it against
-- `handleQueryDirectory` of internal/smb/info.go.
use portable_smb_server.Base.{
  ℕ, zero, suc, ◌≤◌, true, false, some, List, [], ◌++◌, ◌==◌, if◌then◌else◌, length, ◌≡◌, All,
}
use portable_smb_server.Wire.{Bytes, u8, u32, slice, has_bits}
use portable_smb_server.Packet.Status
use portable_smb_server.Fsx.{FileInfo}
use portable_smb_server.Conn.{OpenFile, Env, State, Reply, get_handle}
use portable_smb_server.Info.Fields.{Small}
use portable_smb_server.Info.Walk.{read_names}
use portable_smb_server.Info.Directory.{
  next_page, handle_query_directory, dir_buffer_length, flag_restart_scans,
}
use portable_smb_server.Info.Paging.{page, advanced}

-- the entries in a response: what its length field says, behind the eight bytes of the fixed part
abbrev pub buffer_in : Bytes → Bytes
buffer_in body = slice body 8 (u32 body 4)

module _ {W H : Type 0} (env : Env W H) (body : Bytes) where
  -- A client that sends the request again until it does not succeed, and reads the names of every
  -- response.
  unfoldable pub client_scan : ℕ → State W H → List Bytes
  client_scan zero s = []
  client_scan (suc k) s =
      let r = handle_query_directory env body s in
      let rest = client_scan k r.state in
      let names = read_names (u8 body 2) (length (buffer_in r.body)) (buffer_in r.body) in
      if r.status == Status.success then names ++ rest else []

  module _ (long : 32 ≤ length body)
      (goes_on : has_bits (u8 body 3) flag_restart_scans ≡ false) where
    -- an open directory whose entries have been listed
    record Listed (s : State W H) (of : OpenFile W H) : Type 0 where
      found : get_handle s (slice body 8 16) ≡ some of
      is_directory : of.is_dir ≡ true
      was_loaded : of.dir_loaded ≡ true
      small : All (Small (u8 body 2)) of.dir_entries

    page_reply : OpenFile W H → State W H → Reply W H
    page_reply of s = next_page env (u8 body 2) (u8 body 3) (dir_buffer_length body) of s

    -- what the client makes of a response
    after : ℕ → Reply W H → List Bytes
    after k r =
        let rest = client_scan k r.state in
        let names = read_names (u8 body 2) (length (buffer_in r.body)) (buffer_in r.body) in
        if r.status == Status.success then names ++ rest else []

    page_of : State W H → OpenFile W H → List FileInfo
    page_of s of = page env (u8 body 2) (u8 body 3) (dir_buffer_length body) s of

    moved : State W H → OpenFile W H → OpenFile W H
    moved s of = advanced env (u8 body 2) (u8 body 3) (dir_buffer_length body) s of
