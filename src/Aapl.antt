-- ===== src/Aapl.antt =====
-- Create contexts and Apple's extensions: internal/smb/aapl.go.
use portable_smb_server.Base.{
  ℕ, zero, suc, ◌+◌, ◌-◌, ◌*◌, ◌/◌, Bool, true, false, ◌||◌, not, Option, none, some, List, [], ◌∷◌,
  ◌++◌, ltb, ◌==◌, if◌then◌else◌, length, take, list_eq, bit_or,
}
use portable_smb_server.Wire.{
  Bytes, u16, u32, u64, put8, put16, put32, put64, zeros, copy_at, slice, has_bits, le32, le64,
  smb2_header_size,
}
use portable_smb_server.Packet.Utf16.{string_to_utf16le}
use portable_smb_server.Conn.{Share}

-- roundUp(n, 8)
abbrev pub round_up8 : ℕ → ℕ
round_up8 n = (n + 7) / 8 * 8

abbrev pub aapl_context_name : Bytes
aapl_context_name = b'A' ∷ b'A' ∷ b'P' ∷ b'L' ∷ []

abbrev pub Contexts : Type 0
Contexts = List (Bytes × Bytes)

-- One context at `base`; `none` where the loop breaks before it is recorded.
abbrev pub context_at : Bytes → ℕ → Option (Bytes × Bytes)
context_at body base =
    let name_off = u16 body (base + 4) in
    let name_len = u16 body (base + 6) in
    let data_off = u16 body (base + 10) in
    let data_len = u32 body (base + 12) in
    if name_len == 0
      || ltb (length body) (base + name_off + name_len)
      || ltb (length body) (base + data_off + data_len)
    then none
    else some (slice body (base + name_off) name_len, slice body (base + data_off) data_len)

-- The loop. `end` is `off+length`; each round moves `base` on, so `length body` rounds are enough.
-- A later context of the same name stands in front of an earlier one, as it replaces it in a map.
unfoldable pub contexts_loop : ℕ → Bytes → ℕ → ℕ → Contexts → Contexts
contexts_loop zero body base end ctxs = ctxs
contexts_loop (suc fuel) body base end ctxs =
    let next = u32 body base in
    let on = λ (c : Bytes × Bytes). contexts_loop fuel body (base + next) end (c ∷ ctxs) in
    if ltb end (base + 16)
    then ctxs
    else elim (context_at body base) [ none ↦ ctxs | some c ↦ if next == 0 then c ∷ ctxs else on c ]

-- nil where there are none or they are malformed
unfoldable pub create_contexts : Bytes → Contexts
unfolding contexts_loop
create_contexts body =
    let off = u32 body 48 - smb2_header_size in
    let len = u32 body 52 in
    if ltb (length body) 56
      || ltb (u32 body 48) smb2_header_size
      || len == 0
      || ltb (length body) (off + len)
    then []
    else contexts_loop (length body) body off (off + len) []

-- ctxs[name]
unfoldable pub find_context : Bytes → Contexts → Option Bytes
find_context name [] = none
find_context name ((n, d) ∷ ctxs) = if list_eq n name then some d else find_context name ctxs

unfoldable pub create_context_blob : Bytes → Bytes → Bytes
create_context_blob name data' =
    let data_off = round_up8 (16 + length name) in
    let b0 = zeros (round_up8 (data_off + length data')) in
    let b1 = put16 b0 4 16 in
    let b2 = put16 b1 6 (length name) in
    let b3 = put16 b2 10 data_off in
    let b4 = put32 b3 12 (length data') in copy_at (copy_at b4 16 name) data_off data'

unfoldable pub with_create_contexts : Bytes → Bytes → Bytes
with_create_contexts resp contexts =
    if length contexts == 0
    then resp
    else put32 (put32 (take 88 resp) 80 (smb2_header_size + 88)) 84 (length contexts) ++ contexts

abbrev pub server_query : ℕ
server_query = 1

abbrev pub server_caps : ℕ
server_caps = 1

abbrev pub volume_caps : ℕ
volume_caps = 2

abbrev pub model_info : ℕ
model_info = 4

abbrev pub supports_read_dir_attr : ℕ
supports_read_dir_attr = 1

abbrev pub unix_based : ℕ
unix_based = 4

abbrev pub case_sensitive : ℕ
case_sensitive = 2

-- "MacSamba"
abbrev apple_model : List ℕ
apple_model = b'M' ∷ b'a' ∷ b'c' ∷ b'S' ∷ b'a' ∷ b'm' ∷ b'b' ∷ b'a' ∷ []

abbrev part : Bool → Bytes → Bytes
part true b = b
part false b = []

-- Whether the answer turns ReadDirAttr on for the connection.
unfoldable pub wants_read_dir_attr : Bytes → Bool
wants_read_dir_attr req =
    if has_bits (u64 req 8) server_caps then has_bits (u64 req 16) supports_read_dir_attr else false

module _ {W H : Type 0} where
  unfoldable pub apple_server_query_response : Bytes → Share W H → Option Bytes
  unfolding wants_read_dir_attr
  apple_server_query_response req sh =
      let bitmap = u64 req 8 in
      let caps =
        if wants_read_dir_attr req then bit_or unix_based supports_read_dir_attr else unix_based in
      let vol = if sh.fs.case_insensitive then 0 else case_sensitive in
      let model = string_to_utf16le apple_model in
      if ltb (length req) 24 || not (u32 req 0 == server_query)
      then none
      else some (
          put64 (put32 (zeros 16) 0 server_query) 8 bitmap
          ++ (part (has_bits bitmap server_caps) (le64 caps)
              ++ (part (has_bits bitmap volume_caps) (le64 vol)
                  ++ part (has_bits bitmap model_info) (le32 0 ++ (le32 (length model) ++ model)))))

abbrev pub access_all : ℕ
access_all = 0x001F01FF

abbrev pub access_read_execute : ℕ
access_read_execute = 0x001200A9

-- `mode &^= 0o222` of the two modes
abbrev apple_mode : Bool → Bool → ℕ
apple_mode true true = 0o555
apple_mode true false = 0o444
apple_mode false true = 0o755
apple_mode false false = 0o644

-- appleReadDirAttr(e, readOnly, isDir)
unfoldable pub apple_read_dir_attr : Bytes → Bool → Bool → Bytes
apple_read_dir_attr e read_only is_dir =
    let e1 = put32 e 64 (if read_only then access_read_execute else access_all) in
    let e2 = put8 (put8 e1 68 24) 69 0 in
    let e3 = copy_at e2 70 (zeros 24) in put16 e3 94 (apple_mode read_only is_dir)
