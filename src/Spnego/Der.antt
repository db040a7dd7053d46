-- ===== src/Spnego/Der.antt =====
-- `derTLV` and `derReadTLV` of internal/smb/spnego.go, and its walk for the token.
use portable_smb_server.Base.{
  ℕ, zero, suc, ◌+◌, ◌/◌, ◌%◌, ◌≤◌, ◌<◌, ◌≡◌, refl, inl, inr, some, [], ◌∷◌, ◌++◌, arith, length,
  drop, length-append, take-append, drop-append, drop-drop, Option-cases, length-take, length-drop,
  append_assoc, bit_and,
}
use portable_smb_server.Base.Bits.{top_bit}
use portable_smb_server.Wire.{Bytes, u8, slice}
use portable_smb_server.Spnego.{
  Element, element_at, der_len, der_tlv, der_read_tlv, big_endian, find_token,
}

element_at-append :
    (tag : ℕ) (head content rest : Bytes)
    → element_at (tag ∷ (head ++ (content ++ rest))) (suc (length head)) (length content)
      ≡ some (record { tag = tag; content = content; rest = rest })
element_at-append tag head content rest = ground (
  arith,
  length-append head (content ++ rest),
  length-append content rest,
  drop-append head (content ++ rest),
  take-append content rest,
  drop-append content rest,
  drop-drop (length content) (suc (length head)) (tag ∷ (head ++ (content ++ rest))),
)

pub der_read_tlv-der_tlv :
    (tag : ℕ) (content rest : Bytes)
    → length content < 65536
    → der_read_tlv (der_tlv tag content ++ rest)
      ≡ some (record { tag = tag; content = content; rest = rest })
unfolding der_read_tlv der_tlv
der_read_tlv-der_tlv tag content rest h = ground (
  arith,
  append_assoc (der_len (length content)) content rest,
  length-append content rest,
  top_bit (length content),
  element_at-append tag (length content ∷ []) content rest,
  element_at-append tag (0x81 ∷ length content ∷ []) content rest,
  element_at-append tag (0x82 ∷ length content / 256 % 256 ∷ length content % 256 ∷ []) content
      rest,
)

-- Whatever the bytes are, an element that is read lies inside them: its contents and what follows
-- it, with at least two bytes of head, make up the buffer.
pub der_read_tlv_inside :
    (b : Bytes) (e : Element)
    → der_read_tlv b ≡ some e
    → 2 + length e.content + length e.rest ≤ length b
unfolding der_read_tlv
der_read_tlv_inside b e h = ground (
  arith,
  length-take (bit_and (u8 b 1) 0x7f) (drop 2 b),
  length-take (u8 b 1) (drop 2 b),
  length-drop 2 b,
  length-drop (2 + u8 b 1) b,
  length-take (big_endian 0 (slice b 2 (bit_and (u8 b 1) 0x7f)))
      (drop (2 + bit_and (u8 b 1) 0x7f) b),
  length-drop (2 + bit_and (u8 b 1) 0x7f) b,
  length-drop (2 + bit_and (u8 b 1) 0x7f + big_endian 0 (slice b 2 (bit_and (u8 b 1) 0x7f))) b,
)

-- The walk reaches the end of the sequence: from its length on, more fuel changes nothing.
pub find_token_fuel :
    (f g : ℕ) (seq : Bytes) → length seq ≤ f → length seq ≤ g → find_token f seq ≡ find_token g seq
unfolding find_token
find_token_fuel f g [] hf hg = refl
find_token_fuel zero g (x ∷ xs) hf hg = absurd (omega arith)
find_token_fuel (suc f) zero (x ∷ xs) hf hg = absurd (omega arith)
find_token_fuel (suc f) (suc g) (x ∷ xs) hf hg = elim (Option-cases (der_read_tlv (x ∷ xs))) [
  | inl e ↦ rw e
  | inr (e, q) ↦ rw q (ground (arith, der_read_tlv_inside (x ∷ xs) e q, find_token_fuel f g e.rest))
]
