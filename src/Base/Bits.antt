-- ===== src/Base/Bits.antt =====
-- Facts on a byte that one evaluation for all bytes decides: its top bit, as `bit_and` finds it and as a
-- number, and that 0x87 added to it is a byte.
use Prim.Native.Nat.{ℕ, zero, suc, ◌*◌, ◌/◌, ◌<◌, bit_and, bit_xor}
use mathlib.Core.Path.{◌≡◌, refl, subst}
use mathlib.Core.Bool.{Bool, true, false}
use mathlib.Core.Logic.{◌⊎◌, inl, inr}
use native.Mathlib.Omega.{arith}
use portable_smb_server.Base.Tests.{◌==◌, ==_iff, ltb, ltb→lt, if◌then◌else◌}

-- the test of the `count` smallest numbers, the largest first
unfoldable holds_to : (ℕ → Bool) → ℕ → Bool
holds_to test zero = true
holds_to test (suc largest) =
    let smaller = holds_to test largest in if test largest then smaller else false

largest_or_less : (byte largest : ℕ) → byte < suc largest → (largest ≡ byte) ⊎ (byte < largest)
largest_or_less byte largest h = omega arith

holds_to-below :
    (test : ℕ → Bool) (byte count : ℕ)
    → byte < count
    → holds_to test count ≡ true
    → test byte ≡ true
unfolding holds_to
holds_to-below test byte zero h tested = absurd (omega arith)
holds_to-below test byte (suc largest) h tested = elim (largest_or_less byte largest h) [
  | inl same ↦ subst (λ b. test b ≡ true) same (ground (arith, tested))
  | inr less ↦ holds_to-below test byte largest less (ground (arith, tested))
]

abbrev top_bit_agrees : ℕ → Bool
top_bit_agrees byte = bit_and byte 0x80 == byte / 128 * 128

top_bit_test : holds_to top_bit_agrees 256 ≡ true
unfolding holds_to
top_bit_test = refl

pub top_bit : (byte : ℕ) → byte < 256 → bit_and byte 0x80 ≡ byte / 128 * 128
top_bit byte h =
    (==_iff (bit_and byte 0x80) (byte / 128 * 128)).0
      (holds_to-below top_bit_agrees byte 256 h top_bit_test)

abbrev reduced_is_byte : ℕ → Bool
reduced_is_byte byte = ltb (bit_xor byte 0x87) 256

reduced_test : holds_to reduced_is_byte 256 ≡ true
unfolding holds_to
reduced_test = refl

pub reduced_byte : (byte : ℕ) → byte < 256 → bit_xor byte 0x87 < 256
reduced_byte byte h =
    ltb→lt (bit_xor byte 0x87) 256 (holds_to-below reduced_is_byte byte 256 h reduced_test)
