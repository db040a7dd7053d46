-- ===== src/Examples/Server.antt =====
-- The theorems on the handlers, the gates and the messages, at the server of
-- `portable_smb_server.Examples.Backend`.
use portable_smb_server.Base.{
  ℕ, ltb, if◌then◌else◌, ◌+◌, map, ◌⊎◌, ◌≤◌, Bool, true, false, ◌≡◌, refl, some, some-injective,
  subst, List, [], ◌∷◌, ◌++◌, length, All, arith, inr,
}
use portable_smb_server.Wire.{Bytes, IsByte, buffer_at, put8, zeros, put16, put32, copy_at}
use portable_smb_server.Packet.Status
use portable_smb_server.Packet.{build_response, parse_header}
use portable_smb_server.Base.Int.{pos}
use portable_smb_server.Fsx.{FileInfo, file_is_read_only}
use portable_smb_server.Conn.{
  State, OpenFile, file_id_of, file_info_attrs, open_attrs, stat_open, find_handle,
}
use portable_smb_server.Io.{handle_read, handle_write}
use portable_smb_server.Io.Bounds.{
  handle_read-success, handle_write-success, ReadOk, WriteOk, ReadsAtMost,
}
use portable_smb_server.Negotiate.{choose_dialect}
use portable_smb_server.Negotiate.Choice.{choose_dialect_best, Settles}
use portable_smb_server.Info.Encode.{file_standard_info}
use portable_smb_server.Info.Query.{handle_query_info}
use portable_smb_server.Info.Truncation.{handle_query_info_answer, InfoOk}
use portable_smb_server.Dispatch.Message.{Part, parts, parts_loop}
use portable_smb_server.Dispatch.Segments.{parts_cut, parts_enough, Cut}
use portable_smb_server.Dispatch.Serve.{serve, serve_loop}
use portable_smb_server.Shield.Messages.{serve_read_only}
use portable_smb_server.Login.{Untouched}
use portable_smb_server.Login.Messages.{serve_unauthenticated, ProvedBy}
use portable_smb_server.Examples.Backend.{
  World, env, start, open_share, kept_share-Shielded, open_share-Shielded, open_of, with_open,
  request, info_of,
}

-- bytes, tested one by one
abbrev are_bytes : Bytes → Bool
are_bytes [] = true
are_bytes (b ∷ bs) = if ltb b 256 then are_bytes bs else false

are_bytes-IsByte : (bs : Bytes) → are_bytes bs ≡ true → All IsByte bs
are_bytes-IsByte [] e = tt
are_bytes-IsByte (b ∷ bs) e = (ground arith, are_bytes-IsByte bs (ground arith))

-- A TREE_CONNECT, a CREATE that truncates, a WRITE and a CLOSE.
abbrev messages : List Bytes
messages =
    request 3 (zeros 8)
    ∷ request 5 (put32 (zeros 60) 36 4)
    ∷ request 9 (zeros 50)
    ∷ request 6 (zeros 24)
    ∷ []

serve_read_only_example : (serve env messages start).0.world.kept_file ≡ start.world.kept_file
serve_read_only_example =
    serve_read_only World.kept_file env (kept_share-Shielded, (open_share-Shielded, tt)) messages
      start refl

serve_unauthenticated_example :
    Untouched start (serve_loop env messages start).0 ⊎ ProvedBy env messages start
serve_unauthenticated_example = serve_unauthenticated env refl messages start refl

-- a READ of 2 bytes from offset 0 and a WRITE of 2 bytes to offset 0, of the file with id 1
abbrev read_body : Bytes
read_body = copy_at (put32 (zeros 48) 4 2) 16 (file_id_of 1)

abbrev write_body : Bytes
write_body = copy_at (put32 (put16 (zeros 50) 2 112) 4 2) 16 (file_id_of 1)

abbrev opened : State World ℕ
opened = with_open (open_of open_share)

read_test : (handle_read read_body opened).status ≡ Status.success
unfolding handle_read find_handle copy_at
read_test = refl

read_contract : ReadsAtMost opened read_body
unfolding find_handle copy_at
read_contract of h e =
    subst (λ (o : OpenFile World ℕ). length (o.share.fs.read_at opened.world h 2 (pos 0)).1 ≤ 2)
      (some-injective (open_of open_share) of e) (omega arith)

handle_read-success_example : ReadOk read_body opened (handle_read read_body opened)
handle_read-success_example = handle_read-success read_body opened read_contract read_test

write_test : (handle_write write_body opened).status ≡ Status.success
unfolding handle_write find_handle copy_at
write_test = refl

handle_write-success_example : WriteOk write_body opened (handle_write write_body opened)
handle_write-success_example = handle_write-success write_body opened write_test

-- a NEGOTIATE that offers 2.0.2, 3.0.2 and 3.1.1
abbrev negotiate_body : Bytes
negotiate_body = put16 (put16 (put16 (put16 (zeros 42) 2 3) 36 0x0202) 38 0x0302) 40 0x0311

choose_dialect_test : choose_dialect negotiate_body ≡ some 0x0302
unfolding choose_dialect
choose_dialect_test = refl

choose_dialect_best_example : Settles negotiate_body (choose_dialect negotiate_body)
choose_dialect_best_example = choose_dialect_best negotiate_body (omega arith)

-- a QUERY_INFO for FileStandardInformation with room for 4 bytes
abbrev query_body : Bytes
query_body = copy_at (put32 (put8 (put8 (zeros 40) 2 1) 3 5) 4 4) 24 (file_id_of 1)

query_test : (handle_query_info env query_body opened).status ≡ Status.buffer_overflow
unfolding handle_query_info find_handle stat_open open_attrs copy_at file_standard_info
    file_info_attrs file_is_read_only
query_test = refl

query_body_bytes : All IsByte query_body
unfolding copy_at
query_body_bytes = are_bytes-IsByte query_body refl

handle_query_info_answer_example :
    InfoOk env query_body opened (handle_query_info env query_body opened)
handle_query_info_answer_example =
    handle_query_info_answer env query_body opened query_body_bytes (inr query_test)

-- a scan of three entries, two of which have been sent
abbrev listing : List FileInfo
listing = info_of (b'a' ∷ []) [] ∷ info_of (b'b' ∷ []) [] ∷ info_of (b'c' ∷ []) [] ∷ []

abbrev scanned : ℕ → OpenFile World ℕ
scanned n = record (open_of open_share) {
  is_dir = true;
  dir_entries = listing;
  dir_pos = n;
  dir_loaded = true;
}

-- a QUERY_DIRECTORY of class 0x25 with room for 200 bytes
abbrev directory_body : Bytes
directory_body = copy_at (put32 (put8 (zeros 40) 2 0x25) 28 200) 8 (file_id_of 1)

abbrev scanning : State World ℕ
scanning = with_open (scanned 0)

-- two commands in one message, of which the first says where the second stands
abbrev compound : Bytes
compound = put32 (request 13 (zeros 8)) 20 72 ++ request 13 (zeros 4)

parts_test : length (map Part.bytes (parts compound)) ≡ 2
unfolding parts build_response parse_header copy_at
parts_test = refl

parts_cut_example : Cut compound 0 (parts compound)
parts_cut_example = parts_cut compound

parts_enough_example : parts_loop (length compound + 1 + 9) compound 0 ≡ parts compound
parts_enough_example = parts_enough 9 compound

abbrev four : Bytes
four = 1 ∷ 2 ∷ 3 ∷ 4 ∷ []

buffer_test : buffer_at four 66 2 ≡ some (3 ∷ 4 ∷ [])
unfolding buffer_at
buffer_test = refl
