-- ===== src/Conn.antt =====
-- The server and a connection: `Server`, `share` and `conn` of internal/smb/server.go, `openFile`
-- and the handle table of internal/smb/create.go, `Options` of internal/smb/options.go.
pub mod Handles
use portable_smb_server.Base.{
  ℕ, suc, ◌+◌, ◌%◌, ◌^◌, Bool, true, false, ◌&&◌, Option, none, some, List, [], ◌∷◌, ◌++◌, ◌==◌,
  if◌then◌else◌, list_eq, length,
}
use portable_smb_server.Wire.{Bytes, le64}
use portable_smb_server.Packet.Filetime.{Time, zero_time}
use portable_smb_server.Packet.Utf16.{Str}
use portable_smb_server.Packet.Status
use portable_smb_server.Packet.{error_response_body}
use portable_smb_server.Path.{is_empty, base_name}
use portable_smb_server.Pattern.{Unicode, equal_fold}
use portable_smb_server.Crypto.{Primitives}
use portable_smb_server.Fsx.{FileSystem, FileInfo, Result, ok, err, file_is_read_only}

pub record Share (W H : Type 0) : Type 0 where
  pub name : Str
  pub fs : FileSystem W H
  pub read_only : Bool

-- What a connection reads and does not change: the options, the shares, the GUID, and what stands
-- outside the program (the primitives of the standard library, the clock, the random bytes).
pub record Env (W H : Type 0) : Type 0 where
  pub user : Str
  pub pass : Str
  pub shares : List (Share W H)
  pub server_guid : Bytes
  pub prims : Primitives
  pub unicode : Unicode
  pub now : Time
  pub random : ℕ → Bytes

pub record OpenFile (W H : Type 0) : Type 0 where
  pub file_id : Bytes
  pub share : Share W H
  pub path : Str
  pub handle : Option H
  pub is_dir : Bool
  pub delete_on_close : Bool
  pub dir_entries : List FileInfo
  pub dir_pos : ℕ
  pub dir_loaded : Bool

-- The fields of `conn`; `sign_key = none` is the nil key of a guest session.
pub record Conn (W H : Type 0) : Type 0 where
  pub dialect : ℕ
  pub auth_challenge : Bytes
  pub sign_key : Option Bytes
  pub warned_windows_guest : Bool
  pub aapl : Bool
  pub authed_sessions : List ℕ
  pub pipe_trees : List ℕ
  pub disk_trees : List (ℕ × Share W H)
  pub handles : List (OpenFile W H)
  pub handle_ctr : ℕ

-- A connection with the counters of the server, the state of the backends, and how often random
-- bytes were drawn.
pub record State (W H : Type 0) : Type 0 where
  pub conn : Conn W H
  pub world : W
  pub session_ctr : ℕ
  pub tree_ctr : ℕ
  pub draws : ℕ

-- What a handler returns: a status and a response body.
pub record Reply (W H : Type 0) : Type 0 where
  pub state : State W H
  pub status : ℕ
  pub body : Bytes

-- newConn
abbrev pub new_conn : {W H : Type 0} → Conn W H
new_conn = record {
  dialect = 0;
  auth_challenge = 0 ∷ 0 ∷ 0 ∷ 0 ∷ 0 ∷ 0 ∷ 0 ∷ 0 ∷ [];
  sign_key = none;
  warned_windows_guest = false;
  aapl = false;
  authed_sessions = [];
  pipe_trees = [];
  disk_trees = [];
  handles = [];
  handle_ctr = 0;
}

abbrev pub mem : ℕ → List ℕ → Bool
mem a [] = false
mem a (x ∷ xs) = if x == a then true else mem a xs

abbrev pub delete : ℕ → List ℕ → List ℕ
delete a [] = []
delete a (x ∷ xs) = let rest = delete a xs in if x == a then rest else x ∷ rest

abbrev pub or_else {ℓ} : {A : Type ℓ} → Option A → A → A
or_else none d = d
or_else (some a) d = a

-- newFileID: the persistent and the volatile half are the counter
abbrev pub file_id_of : ℕ → Bytes
file_id_of id = le64 id ++ le64 id

module _ {W H : Type 0} where
  abbrev pub reply : State W H → ℕ → Bytes → Reply W H
  reply s status body = record { state = s; status = status; body = body }

  -- an error status with the error body
  abbrev pub fail : State W H → ℕ → Reply W H
  fail s status = reply s status error_response_body

  abbrev pub with_conn : State W H → Conn W H → State W H
  with_conn s c = record s { conn = c }

  abbrev pub with_world : State W H → W → State W H
  with_world s w = record s { world = w }

  -- findShare
  unfoldable pub find_share : Unicode → Str → List (Share W H) → Option (Share W H)
  find_share u name [] = none
  find_share u name (sh ∷ shs) =
      if equal_fold u sh.name name then some sh else find_share u name shs

  -- c.diskTrees[treeID]
  abbrev pub find_tree : ℕ → List (ℕ × Share W H) → Option (Share W H)
  find_tree id [] = none
  find_tree id ((k, sh) ∷ ts) = if k == id then some sh else find_tree id ts

  abbrev pub delete_tree : ℕ → List (ℕ × Share W H) → List (ℕ × Share W H)
  delete_tree id [] = []
  delete_tree id ((k, sh) ∷ ts) =
      let rest = delete_tree id ts in if k == id then rest else (k, sh) ∷ rest

  unfoldable pub find_handle : Bytes → List (OpenFile W H) → Option (OpenFile W H)
  find_handle id [] = none
  find_handle id (of ∷ hs) = if list_eq of.file_id id then some of else find_handle id hs

  unfoldable pub without_handle : Bytes → List (OpenFile W H) → List (OpenFile W H)
  without_handle id [] = []
  without_handle id (of ∷ hs) =
      let rest = without_handle id hs in if list_eq of.file_id id then rest else of ∷ rest

  -- getHandle
  abbrev pub get_handle : State W H → Bytes → Option (OpenFile W H)
  get_handle s id = find_handle id s.conn.handles

  -- addHandle
  abbrev pub add_handle : State W H → OpenFile W H → State W H
  add_handle s of =
      with_conn s (record s.conn { handles = of ∷ without_handle of.file_id s.conn.handles })

  -- The open is a pointer in Go: what a handler writes to it is what the table holds.
  unfoldable pub update_handles : OpenFile W H → List (OpenFile W H) → List (OpenFile W H)
  update_handles of [] = []
  update_handles of (x ∷ hs) =
      if list_eq x.file_id of.file_id then of ∷ hs else x ∷ update_handles of hs

  abbrev pub put_open : State W H → OpenFile W H → State W H
  put_open s of = with_conn s (record s.conn { handles = update_handles of s.conn.handles })

  -- removeHandle
  abbrev pub remove_handle : State W H → Bytes → State W H
  remove_handle s id = with_conn s (record s.conn { handles = without_handle id s.conn.handles })

  -- of.stat()
  unfoldable pub stat_open : W → OpenFile W H → Result FileInfo
  stat_open w of = elim of.handle [
    | none ↦ of.share.fs.stat w of.path
    | some h ↦ of.share.fs.stat_handle w h
  ]

  -- of.readOnlyFile()
  unfoldable pub read_only_file : W → OpenFile W H → Bool
  read_only_file w of = elim (stat_open w of) [ ok fi ↦ file_is_read_only fi | err e ↦ false ]

  -- of.name()
  abbrev pub open_name : OpenFile W H → Str
  open_name of = if is_empty of.path then [] else base_name of.path

abbrev pub attr_readonly : ℕ
attr_readonly = 0x01

abbrev pub attr_directory : ℕ
attr_directory = 0x10

abbrev pub attr_normal : ℕ
attr_normal = 0x80

-- fileInfoAttrs
unfoldable pub file_info_attrs : FileInfo → ℕ
file_info_attrs fi =
    if fi.is_dir
    then attr_directory
    else if file_is_read_only fi
    then attr_readonly
    else attr_normal

pub record Attrs : Type 0 where
  pub attrs : ℕ
  pub size : ℕ
  pub mtime : Time

-- of.attrs()
unfoldable pub open_attrs : {W H : Type 0} → W → OpenFile W H → Attrs
open_attrs w of = elim (stat_open w of) [
  | ok fi ↦ record { attrs = file_info_attrs fi; size = fi.size; mtime = fi.mod_time }
  | err e ↦ record {
    attrs = if of.is_dir then attr_directory else attr_normal;
    size = 0;
    mtime = zero_time;
  }
]
