-- ===== src/Transport.antt =====
-- Frames of the Direct TCP transport: internal/smb/transport.go.
use portable_smb_server.Base.{
  ℕ, ◌+◌, ◌*◌, ◌/◌, ◌%◌, ◌<◌, ◌≡◌, refl, Option, none, some, [], ◌∷◌, ◌++◌, arith, ltb, ◌==◌,
  if◌then◌else◌, length, take, drop, take-append, drop-append, length-append,
}
use portable_smb_server.Wire.{Bytes}

abbrev pub max_message_size : ℕ
max_message_size = 16 * 1024 * 1024

-- What `readMessage` returns; `short` is the error of `io.ReadFull` on a stream that ends.
pub data Received : Type 0 where
  message : Bytes → Bytes → Received
  short : Received
  too_large : Received

-- the second `io.ReadFull`: `n` bytes and what the stream holds after them
abbrev read_full : ℕ → Bytes → Received
read_full n stream =
    if ltb (length stream) n then short else message (take n stream) (drop n stream)

-- `uint32(hdr[1])<<16 | uint32(hdr[2])<<8 | uint32(hdr[3])`, of bytes
unfoldable pub read_message : Bytes → Received
read_message (h0 ∷ h1 ∷ h2 ∷ h3 ∷ stream) =
    let n = h1 * 65536 + h2 * 256 + h3 in
    if n == 0
    then message [] stream
    else if ltb max_message_size n
    then too_large
    else read_full n stream
read_message _ = short

-- The frame and the message; `none` is the error for a message that is too large.
unfoldable pub write_message : Bytes → Option Bytes
write_message msg =
    let n = length msg in
    if ltb max_message_size n
    then none
    else some (0 ∷ n / 65536 % 256 ∷ n / 256 % 256 ∷ n % 256 ∷ msg)

read_full-append : (msg rest : Bytes) → read_full (length msg) (msg ++ rest) ≡ message msg rest
read_full-append msg rest =
    ground (arith, length-append msg rest, take-append msg rest, drop-append msg rest)

-- A message shorter than 16 MiB is framed, and the peer reads back exactly it, with whatever the
-- stream holds behind it.
pub read_message-write_message :
    (msg rest : Bytes)
    → length msg < max_message_size
    → (frame : Bytes) × (write_message msg ≡ some frame)
      × (read_message (frame ++ rest) ≡ message msg rest)
unfolding read_message write_message
read_message-write_message [] rest h = (0 ∷ 0 ∷ 0 ∷ 0 ∷ [], refl, refl)
read_message-write_message (b ∷ msg) rest h =
    let n : ℕ = length (b ∷ msg) in
    (
      0 ∷ n / 65536 % 256 ∷ n / 256 % 256 ∷ n % 256 ∷ b ∷ msg,
      ground arith,
      ground (arith, read_full-append (b ∷ msg) rest),
    )

-- A message of exactly 16 MiB passes the size test of the writer, and its frame declares the
-- length 0: the reader sees an empty message, and takes the message itself for the next frames.
pub write_message_limit :
    (msg rest : Bytes)
    → length msg ≡ max_message_size
    → (frame : Bytes) × (write_message msg ≡ some frame)
      × (read_message (frame ++ rest) ≡ message [] (msg ++ rest))
unfolding read_message write_message
write_message_limit msg rest h =
    let n : ℕ = length msg in
    (0 ∷ n / 65536 % 256 ∷ n / 256 % 256 ∷ n % 256 ∷ msg, ground arith, ground arith)
