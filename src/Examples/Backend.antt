-- ===== src/Examples/Backend.antt =====
-- Two files in memory behind `fsx.FileSystem` of internal/fsx/fsx.go, and a server of two shares
-- over them.
use portable_smb_server.Base.{
  ℕ, Bool, true, false, ◌≡◌, refl, some, [], ◌∷◌, ◌++◌, length, take, drop, arith,
}
use portable_smb_server.Base.Int.{ℤ, pos, negsuc}
use portable_smb_server.Wire.{Bytes, zeros}
use portable_smb_server.Packet.{Header, build_response}
use portable_smb_server.Packet.Filetime.{unix_nano}
use portable_smb_server.Packet.Utf16.{Str}
use portable_smb_server.Pattern.{Unicode}
use portable_smb_server.Crypto.{Primitives}
use portable_smb_server.Fsx.{FileSystem, FileInfo, ok, err, eof, exist}
use portable_smb_server.Conn.{Share, Env, State, OpenFile, new_conn, file_id_of}
use portable_smb_server.Shield.{Shielded}

-- The two files: one behind the read-only share, one behind the other.
pub record World : Type 0 where
  pub kept_file : Bytes
  pub open_file : Bytes

abbrev at_offset : ℤ → ℕ
at_offset (pos n) = n
at_offset (negsuc n) = 0

abbrev pub info_of : Str → Bytes → FileInfo
info_of name bytes = record {
  name = name;
  size = length bytes;
  perm = 0o644;
  mod_time = unix_nano (pos 1700000000000000000);
  is_dir = false;
}

-- One file, under every name.
abbrev pub memory_fs : (World → Bytes) → (World → Bytes → World) → FileSystem World ℕ
memory_fs get put = record {
  stat = λ w p. ok (info_of p (get w));
  open_file = λ w p f. (elim f.trunc [ true ↦ put w [] | false ↦ w ], ok 7);
  mkdir = λ w p. (w, err exist);
  read_dir = λ w p. ok (info_of (b'a' ∷ []) (get w) ∷ info_of (b'b' ∷ []) (get w) ∷ []);
  rename = λ w p q. (w, ok tt);
  remove = λ w p. (put w [], ok tt);
  truncate = λ w p n. (put w (take (at_offset n) (get w)), ok tt);
  chtimes = λ w p t. (w, ok tt);
  statfs = λ w. ok (pos 1000000, pos 500000);
  case_insensitive = false;
  read_at = λ w h n off. (w, take n (drop (at_offset off) (get w)), some eof);
  write_at = λ w h b off. (put w (take (at_offset off) (get w) ++ b), ok (length b));
  close = λ w h. (w, ok tt);
  truncate_handle = λ w h n. (put w (take (at_offset n) (get w)), ok tt);
  sync = λ w h. (w, ok tt);
  stat_handle = λ w h. ok (info_of [] (get w));
}

abbrev pub kept_share : Share World ℕ
kept_share = record {
  name = b'k' ∷ [];
  fs = memory_fs World.kept_file (λ w b. record w { kept_file = b });
  read_only = true;
}

abbrev pub open_share : Share World ℕ
open_share = record {
  name = b'o' ∷ [];
  fs = memory_fs World.open_file (λ w b. record w { open_file = b });
  read_only = false;
}

abbrev pub primitives : Primitives
primitives = record {
  md4 = λ m. zeros 16;
  md5 = λ m. zeros 16;
  hmac_md5 = λ k m. take 16 (k ++ zeros 16);
  hmac_sha256 = λ k m. take 32 (m ++ zeros 32);
  aes = λ k. some (λ b. take 16 (b ++ zeros 16));
  rc4 = λ k m. some m;
}

abbrev pub ascii : Unicode
ascii = record { fold = λ c. c; lower = λ c. c; upper = λ c. c }

abbrev pub env : Env World ℕ
env = record {
  user = b'u' ∷ [];
  pass = b'p' ∷ [];
  shares = kept_share ∷ open_share ∷ [];
  server_guid = zeros 16;
  prims = primitives;
  unicode = ascii;
  now = unix_nano (pos 1700000000000000000);
  random = λ n. 1 ∷ 2 ∷ 3 ∷ 4 ∷ 5 ∷ 6 ∷ 7 ∷ 8 ∷ [];
}

abbrev pub start : State World ℕ
start = record {
  conn = new_conn;
  world = record { kept_file = 1 ∷ 2 ∷ 3 ∷ []; open_file = 4 ∷ 5 ∷ [] };
  session_ctr = 0;
  tree_ctr = 0;
  draws = 0;
}

-- an open file, and a connection that has it open under id 1
abbrev pub open_of : Share World ℕ → OpenFile World ℕ
open_of sh = record {
  file_id = file_id_of 1;
  share = sh;
  path = b'f' ∷ [];
  handle = some 7;
  is_dir = false;
  delete_on_close = false;
  dir_entries = [];
  dir_pos = 0;
  dir_loaded = false;
}

abbrev pub with_open : OpenFile World ℕ → State World ℕ
with_open of = record start { conn = record new_conn { handles = of ∷ []; handle_ctr = 1 } }

abbrev pub header : ℕ → Header
header command = record {
  credit_charge = 1;
  command = command;
  credit_req_resp = 1;
  flags = 0;
  next_command = 0;
  message_id = 5;
  tree_id = 1;
  session_id = 1;
}

-- a request with a body, as a message
abbrev pub request : ℕ → Bytes → Bytes
request command body = build_response (header command) command 0 1 1 1 body

-- The read-only share is seen by `kept_file`, and the other one is not.
pub kept_share-Shielded : Shielded World.kept_file kept_share
kept_share-Shielded = record {
  read_at_keeps = λ w h n off. refl;
  read_only_open_keeps = λ w p. refl;
  sync_keeps = λ w h. refl;
  close_keeps = λ w h. refl;
  open_keeps = λ e. elim (true≢false e) [ ];
  mkdir_keeps = λ e. elim (true≢false e) [ ];
  rename_keeps = λ e. elim (true≢false e) [ ];
  remove_keeps = λ e. elim (true≢false e) [ ];
  truncate_keeps = λ e. elim (true≢false e) [ ];
  chtimes_keeps = λ e. elim (true≢false e) [ ];
  write_at_keeps = λ e. elim (true≢false e) [ ];
  truncate_handle_keeps = λ e. elim (true≢false e) [ ];
}
  where
    true≢false : true ≡ false → ⊥
    true≢false e = ground arith

pub open_share-Shielded : Shielded World.kept_file open_share
open_share-Shielded = record {
  read_at_keeps = λ w h n off. refl;
  read_only_open_keeps = λ w p. refl;
  sync_keeps = λ w h. refl;
  close_keeps = λ w h. refl;
  open_keeps = λ e w p f. opened w f.trunc;
  mkdir_keeps = λ e w p. refl;
  rename_keeps = λ e w p q. refl;
  remove_keeps = λ e w p. refl;
  truncate_keeps = λ e w p n. refl;
  chtimes_keeps = λ e w p t. refl;
  write_at_keeps = λ e w h b off. refl;
  truncate_handle_keeps = λ e w h n. refl;
}
  where
    opened :
        (w : World) (b : Bool)
        → World.kept_file (elim b [ true ↦ record w { open_file = [] } | false ↦ w ]) ≡ w.kept_file
    opened w true = refl
    opened w false = refl
