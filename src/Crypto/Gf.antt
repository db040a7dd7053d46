-- ===== src/Crypto/Gf.antt =====
-- `gfMulX` of internal/smb/crypto.go on the big-endian number that the bytes stand for.
use portable_smb_server.Base.{
  ℕ, bit_xor, subst, sym, if_lem, ◌==◌, if◌then◌else◌, ◌+◌, ◌*◌, ◌/◌, ◌%◌, ◌<◌, ◌≡◌, refl, ap, [],
  ◌∷◌, arith, All,
}
use portable_smb_server.Base.Bits.{reduced_byte}
use portable_smb_server.Wire.{Bytes, IsByte}
use portable_smb_server.Crypto.{shift_left, gf_mul_x, xor_last}

-- the number that the bytes write, most significant first
abbrev pub weight : Bytes → ℕ
weight [] = 1
weight (x ∷ xs) = 256 * weight xs

abbrev pub value : Bytes → ℕ
value [] = 0
value (x ∷ xs) = x * weight xs + value xs

shift_left-value :
    (b : Bytes)
    → All IsByte b
    → (value (shift_left b).0 + (shift_left b).1 * weight b ≡ 2 * value b)
      × (weight (shift_left b).0 ≡ weight b)
      × ((shift_left b).1 < 2)
unfolding shift_left
shift_left-value [] h = omega arith
shift_left-value (x ∷ xs) (hx, h) =
    let (ih, iw, ic) = shift_left-value xs h in
    let w = weight xs in
    let byte : x * 2 ≡ x * 2 % 256 + 256 * (x / 128) = omega arith in
    (
      omega (
        arith,
        ih,
        ap (λ (t : ℕ). t * weight xs) byte,
        ap (λ (t : ℕ). (x * 2 % 256 + (shift_left xs).1) * t) iw,
      ),
      omega (arith, iw),
      omega arith,
    )

shift_left-IsByte : (b : Bytes) → All IsByte b → All IsByte (shift_left b).0
unfolding shift_left
shift_left-IsByte [] h = tt
shift_left-IsByte (x ∷ xs) (hx, h) =
    let (_, _, carry) = shift_left-value xs h in (omega arith, shift_left-IsByte xs h)

-- the byte 0x87 added to the last one
abbrev pub reduced : Bytes → Bytes
reduced [] = []
reduced (x ∷ []) = bit_xor x 0x87 ∷ []
reduced (x ∷ y ∷ ys) = x ∷ reduced (y ∷ ys)

reduced_lem : (b : Bytes) → xor_last 0x87 b ≡ reduced b
reduced_lem [] = refl
reduced_lem (x ∷ []) = refl
reduced_lem (x ∷ y ∷ ys) = ap (λ t. x ∷ t) (reduced_lem (y ∷ ys))

-- `d` is `b` doubled in the field: twice the number, or, where that has a bit too many, twice the number
-- without that bit and with 0x87 added.
pub record Doubled (b d : Bytes) : Type 0 where
  pub out : Bytes
  pub bytes : All IsByte out
  pub same_size : weight out ≡ weight b
  pub carry : ℕ
  pub twice : value out + carry * weight b ≡ 2 * value b
  pub small : carry < 2
  pub result : d ≡ (if carry == 0 then out else reduced out)

pub gf_mul_x-Doubled : (b : Bytes) → All IsByte b → Doubled b (gf_mul_x b)
unfolding gf_mul_x
gf_mul_x-Doubled b h =
    let (v, w, c) = shift_left-value b h in
    record {
      out = (shift_left b).0;
      bytes = shift_left-IsByte b h;
      same_size = w;
      carry = (shift_left b).1;
      twice = v;
      small = c;
      result =
          ap (λ t. if (shift_left b).1 == 0 then (shift_left b).0 else t)
            (reduced_lem (shift_left b).0);
    }

reduced-IsByte : (b : Bytes) → All IsByte b → All IsByte (reduced b)
reduced-IsByte [] h = tt
reduced-IsByte (x ∷ []) (hx, h) = (reduced_byte x hx, tt)
reduced-IsByte (x ∷ y ∷ ys) (hx, h) = (hx, reduced-IsByte (y ∷ ys) h)

pub Doubled-IsByte : (b d : Bytes) → Doubled b d → All IsByte d
Doubled-IsByte b d h =
    subst (All IsByte) (sym h.result)
      (if_lem (All IsByte) (h.carry == 0) (λ _. h.bytes) (λ _. reduced-IsByte h.out h.bytes))
