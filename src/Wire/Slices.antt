-- ===== src/Wire/Slices.antt =====
-- Slices of a buffer, and `bufferAt` of internal/smb/session.go.
use portable_smb_server.Base.{
  ℕ, ◌+◌, ◌-◌, ◌≤◌, ◌≡◌, some, arith, length, drop, length-take, length-drop,
}
use portable_smb_server.Wire.{Bytes, slice, buffer_at}

pub length-slice : (b : Bytes) (i n : ℕ) → i + n ≤ length b → length (slice b i n) ≡ n
length-slice b i n h = omega (arith, length-take n (drop i b), length-drop i b)

-- A buffer that `buffer_at` hands out lies in the body and has the length asked for.
pub buffer_at_inside :
    (body : Bytes) (off len : ℕ) {buf : Bytes}
    → buffer_at body off len ≡ some buf
    → (64 ≤ off)
      × (off + len ≤ length body + 64)
      × (buf ≡ slice body (off - 64) len)
      × (length buf ≡ len)
unfolding buffer_at
buffer_at_inside body off len h = ground (arith, length-slice body (off - 64) len)
