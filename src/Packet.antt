-- ===== src/Packet.antt =====
-- The SMB2 header and the reply that is built on it: internal/smb/packet.go.
pub mod Status
pub mod Filetime
pub mod Utf16
pub mod Reply
use portable_smb_server.Base.{
  ℕ, ◌+◌, Bool, ◌||◌, ◌&&◌, not, Option, none, some, List, [], ◌∷◌, ◌++◌, ltb, ◌==◌, if◌then◌else◌,
  length, list_eq,
}
use portable_smb_server.Wire.{
  Bytes, u16, u32, u64, put16, put32, put64, zeros, copy_at, slice, smb2_header_size,
}

-- "\xfeSMB"
abbrev pub smb2_magic : Bytes
smb2_magic = 0xfe ∷ b'S' ∷ b'M' ∷ b'B' ∷ []

-- The command codes that `handleCommand` tells apart.
pub data Command : Type 0 where
  negotiate session_setup logoff tree_connect tree_disconnect create close flush : Command
  read write lock ioctl cancel echo query_directory query_info set_info unknown : Command

-- The code 0x0F (CHANGE_NOTIFY) and the codes from 0x12 on have no case of their own.
unfoldable pub command_of : ℕ → Command
command_of n =
    if n == 0x00
    then negotiate
    else if n == 0x01
    then session_setup
    else if n == 0x02
    then logoff
    else if n == 0x03
    then tree_connect
    else if n == 0x04
    then tree_disconnect
    else if n == 0x05
    then create
    else if n == 0x06
    then close
    else if n == 0x07
    then flush
    else if n == 0x08
    then read
    else if n == 0x09
    then write
    else if n == 0x0a
    then lock
    else if n == 0x0b
    then ioctl
    else if n == 0x0c
    then cancel
    else if n == 0x0d
    then echo
    else if n == 0x0e
    then query_directory
    else if n == 0x10
    then query_info
    else if n == 0x11
    then set_info
    else unknown

abbrev pub flags_server_to_redir : ℕ
flags_server_to_redir = 1

abbrev pub flags_related_ops : ℕ
flags_related_ops = 4

abbrev pub flags_signed : ℕ
flags_signed = 8

abbrev pub dialect202 : ℕ
dialect202 = 0x0202

abbrev pub dialect210 : ℕ
dialect210 = 0x0210

abbrev pub dialect300 : ℕ
dialect300 = 0x0300

abbrev pub dialect302 : ℕ
dialect302 = 0x0302

abbrev pub dialect_wildcard : ℕ
dialect_wildcard = 0x02ff

pub record Header : Type 0 where
  pub credit_charge : ℕ
  pub command : ℕ
  pub credit_req_resp : ℕ
  pub flags : ℕ
  pub next_command : ℕ
  pub message_id : ℕ
  pub tree_id : ℕ
  pub session_id : ℕ

unfoldable pub parse_header : Bytes → Option Header
parse_header b =
    if ltb (length b) smb2_header_size || not (list_eq (slice b 0 4) smb2_magic)
    then none
    else some (record {
      credit_charge = u16 b 6;
      command = u16 b 12;
      credit_req_resp = u16 b 14;
      flags = u32 b 16;
      next_command = u32 b 20;
      message_id = u64 b 24;
      tree_id = u32 b 36;
      session_id = u64 b 40;
    })

-- The 64 bytes that `buildResponse` writes before it copies the body behind them.
unfoldable pub response_header : Header → ℕ → ℕ → ℕ → ℕ → ℕ → Bytes
response_header req command status session_id tree_id credits =
    let b0 = copy_at (zeros smb2_header_size) 0 smb2_magic in
    let b1 = put16 b0 4 smb2_header_size in
    let b2 = put16 b1 6 req.credit_charge in
    let b3 = put32 b2 8 status in
    let b4 = put16 b3 12 command in
    let b5 = put16 b4 14 credits in
    let b6 = put32 b5 16 flags_server_to_redir in
    let b7 = put64 b6 24 req.message_id in let b8 = put32 b7 36 tree_id in put64 b8 40 session_id

unfoldable pub build_response : Header → ℕ → ℕ → ℕ → ℕ → ℕ → Bytes → Bytes
unfolding response_header
build_response req command status session_id tree_id credits body =
    response_header req command status session_id tree_id credits ++ body

abbrev pub error_response_body : Bytes
error_response_body = put16 (zeros 9) 0 9
