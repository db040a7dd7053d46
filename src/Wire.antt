-- ===== src/Wire.antt =====
-- Little-endian fields of a byte buffer: `le` of internal/smb/transport.go (encoding/binary), and
-- the buffer that a request's offset and length name (`bufferAt` of internal/smb/session.go).
pub mod Fields
pub mod Slices
pub mod Copy
pub mod Frame
use portable_smb_server.Base.{
  ℕ, zero, suc, ◌+◌, ◌-◌, ◌*◌, ◌/◌, ◌%◌, ◌^◌, ◌<◌, Bool, ◌||◌, not, Option, none, some, List, [],
  ◌∷◌, ◌++◌, ltb, ◌==◌, if◌then◌else◌, length, get_or, set, take, drop, replicate, bit_and,
}

abbrev pub Bytes : Type 0
Bytes = List ℕ

abbrev pub IsByte : ℕ → Type 0
IsByte b = b < 256

-- b[i], behind a length test that has passed
abbrev pub u8 : Bytes → ℕ → ℕ
u8 b i = get_or b i 0

-- le.Uint16(b[i:i+2]), le.Uint32(b[i:i+4]), le.Uint64(b[i:i+8])
abbrev pub u16 : Bytes → ℕ → ℕ
u16 b i = u8 b i + 256 * u8 b (i + 1)

abbrev pub u32 : Bytes → ℕ → ℕ
u32 b i = u16 b i + 65536 * u16 b (i + 2)

abbrev pub u64 : Bytes → ℕ → ℕ
u64 b i = u32 b i + 2 ^ 32 * u32 b (i + 4)

-- le.PutUint16(b[i:i+2], v), le.PutUint32, le.PutUint64
abbrev pub put8 : Bytes → ℕ → ℕ → Bytes
put8 b i v = set b i (v % 256)

abbrev pub put16 : Bytes → ℕ → ℕ → Bytes
put16 b i v = put8 (put8 b i v) (i + 1) (v / 256)

abbrev pub put32 : Bytes → ℕ → ℕ → Bytes
put32 b i v = put16 (put16 b i v) (i + 2) (v / 65536)

abbrev pub put64 : Bytes → ℕ → ℕ → Bytes
put64 b i v = put32 (put32 b i v) (i + 4) (v / 2 ^ 32)

-- le.AppendUint32 and le.AppendUint64, and what a counted field is built from
abbrev pub le16 : ℕ → Bytes
le16 v = v % 256 ∷ v / 256 % 256 ∷ []

abbrev pub le32 : ℕ → Bytes
le32 v = le16 v ++ le16 (v / 65536)

abbrev pub le64 : ℕ → Bytes
le64 v = le32 v ++ le32 (v / 2 ^ 32)

-- make([]byte, n)
abbrev pub zeros : ℕ → Bytes
zeros n = replicate n 0

-- copy(b[i:], xs): what does not fit is dropped
unfoldable pub copy_at : Bytes → ℕ → Bytes → Bytes
copy_at b i [] = b
copy_at b i (x ∷ xs) = copy_at (set b i x) (suc i) xs

-- b[i : i+n], of a range that lies inside b
abbrev pub slice : Bytes → ℕ → ℕ → Bytes
slice b i n = take n (drop i b)

-- x & mask != 0
abbrev pub has_bits : ℕ → ℕ → Bool
has_bits x mask = not (bit_and x mask == 0)

abbrev pub smb2_header_size : ℕ
smb2_header_size = 64

-- `int(fileOffset) - smb2HeaderSize` is negative exactly if the offset is below the header's size.
unfoldable pub buffer_at : Bytes → ℕ → ℕ → Option Bytes
buffer_at body file_offset len =
    let start = file_offset - smb2_header_size in
    if ltb file_offset smb2_header_size || len == 0 || ltb (length body) (start + len)
    then none
    else some (slice body start len)
