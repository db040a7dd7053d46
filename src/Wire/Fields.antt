-- ===== src/Wire/Fields.antt =====
-- Reading and writing fields of a buffer (encoding/binary in internal/smb).
use portable_smb_server.Base.{
  ℕ, suc, ◌+◌, ◌/◌, ◌%◌, ◌^◌, ◌<◌, ◌≡◌, ◌≢◌, refl, ◌∙◌, [], ◌∷◌, arith, length, set, length-set,
  get_or-set_self, get_or-set_ne,
}
use portable_smb_server.Wire.{Bytes, u8, u16, u32, put8, put16, put32, put64, copy_at}

pub length-put16 : (b : Bytes) (i v : ℕ) → length (put16 b i v) ≡ length b
length-put16 b i v = length-set _ (i + 1) _ ∙ length-set b i _

pub length-put32 : (b : Bytes) (i v : ℕ) → length (put32 b i v) ≡ length b
length-put32 b i v = length-put16 _ (i + 2) _ ∙ length-put16 b i v

pub length-put64 : (b : Bytes) (i v : ℕ) → length (put64 b i v) ≡ length b
length-put64 b i v = length-put32 _ (i + 4) _ ∙ length-put32 b i v

pub u8-put16_ne : (b : Bytes) (i v j : ℕ) → i ≢ j → i + 1 ≢ j → u8 (put16 b i v) j ≡ u8 b j
u8-put16_ne b i v j h k = get_or-set_ne _ (i + 1) j _ 0 k ∙ get_or-set_ne b i j _ 0 h

pub u16-put16 : (b : Bytes) (i v : ℕ) → i + 1 < length b → u16 (put16 b i v) i ≡ v % 65536
u16-put16 b i v h = omega (
  arith,
  get_or-set_self (put8 b i v) (i + 1) (v / 256 % 256) 0 (omega (arith, length-set b i (v % 256))),
  get_or-set_ne (put8 b i v) (i + 1) i (v / 256 % 256) 0 (omega arith),
  get_or-set_self b i (v % 256) 0 (omega arith),
)

pub u32-put32 : (b : Bytes) (i v : ℕ) → i + 3 < length b → u32 (put32 b i v) i ≡ v % 2 ^ 32
u32-put32 b i v h = omega (
  arith,
  u16-put16 (put16 b i v) (i + 2) (v / 65536) (omega (arith, length-put16 b i v)),
  u8-put16_ne (put16 b i v) (i + 2) (v / 65536) i (omega arith) (omega arith),
  u8-put16_ne (put16 b i v) (i + 2) (v / 65536) (i + 1) (omega arith) (omega arith),
  u16-put16 b i v (omega arith),
)

pub length-copy_at : (b : Bytes) (i : ℕ) (xs : Bytes) → length (copy_at b i xs) ≡ length b
unfolding copy_at
length-copy_at b i [] = refl
length-copy_at b i (x ∷ xs) = length-copy_at (set b i x) (suc i) xs ∙ length-set b i x
