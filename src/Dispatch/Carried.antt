-- ===== src/Dispatch/Carried.antt =====
-- What linking and signing a PDU leave of it: `assembleResponse` of internal/smb/server.go and
-- `signMessage` of internal/smb/crypto.go.
use portable_smb_server.Base.{
  ℕ, ◌+◌, ◌-◌, ◌≤◌, ◌<◌, ◌++◌, List, [], ◌∷◌, length, take, drop, ◌≡◌, refl, ◌∙◌, ap, arith,
  length-drop, take_all, get_or-append_left,
}
use portable_smb_server.Wire.{Bytes, u8, put32, zeros, smb2_header_size}
use portable_smb_server.Wire.Fields.{u8-put16_ne}
use portable_smb_server.Wire.Frame.{u8-copy_at, drop-put32, slice-append}
use portable_smb_server.Crypto.{Primitives, Sizes, sign_message, clear_signature}
use portable_smb_server.Crypto.Signature.{sign_message_body}
use portable_smb_server.Aapl.{round_up8}
use portable_smb_server.Dispatch.Message.{link}

-- The piece of a response holds the PDU: its header but for the flags, NextCommand and the signature, and
-- everything behind the header, perhaps with padding after it.
pub record Carries (pdu piece : Bytes) : Type 0 where
  pub same_front : (i : ℕ) → i < 16 → u8 piece i ≡ u8 pdu i
  pub same_ids : (i : ℕ) → 24 ≤ i → i < 48 → u8 piece i ≡ u8 pdu i
  pub same_content :
      take (length pdu - smb2_header_size) (drop smb2_header_size piece) ≡ drop smb2_header_size pdu

-- piece by piece, as many as PDUs
abbrev pub AllCarry : List Bytes → List Bytes → Type 0
AllCarry [] [] = Unit {0}
AllCarry (pdu ∷ pdus) (piece ∷ pieces) = Carries pdu piece × AllCarry pdus pieces
AllCarry _ _ = ⊥

u8-put32_before : (b : Bytes) (i v l : ℕ) → l < i → u8 (put32 b i v) l ≡ u8 b l
u8-put32_before b i v l h =
    u8-put16_ne _ (i + 2) _ l (omega (arith, h)) (omega (arith, h))
    ∙ u8-put16_ne b i v l (omega (arith, h)) (omega (arith, h))

u8-put32_after : (b : Bytes) (i v l : ℕ) → i + 3 < l → u8 (put32 b i v) l ≡ u8 b l
u8-put32_after b i v l h =
    u8-put16_ne _ (i + 2) _ l (omega (arith, h)) (omega (arith, h))
    ∙ u8-put16_ne b i v l (omega (arith, h)) (omega (arith, h))

pub Carries-refl : (pdu : Bytes) → Carries pdu pdu
Carries-refl pdu = record {
  same_front = λ i h. refl;
  same_ids = λ i g h. refl;
  same_content =
      take_all (length pdu - smb2_header_size) (drop smb2_header_size pdu)
        (omega (arith, length-drop smb2_header_size pdu));
}

pub link-Carries : (pdu : Bytes) → smb2_header_size ≤ length pdu → Carries pdu (link pdu)
unfolding link
link-Carries pdu long =
    let size = round_up8 (length pdu) in
    let padded = pdu ++ zeros (size - length pdu) in
    record {
      same_front = λ i h.
          u8-put32_before padded 20 size i (omega (arith, h))
          ∙ get_or-append_left pdu (zeros (size - length pdu)) i 0 (omega (arith, h, long));
      same_ids = λ i g h.
          u8-put32_after padded 20 size i (omega (arith, g))
          ∙ get_or-append_left pdu (zeros (size - length pdu)) i 0 (omega (arith, h, long));
      same_content =
          ap (take (length pdu - smb2_header_size))
            (drop-put32 smb2_header_size 20 size padded (omega arith))
          ∙ slice-append smb2_header_size (length pdu - smb2_header_size) pdu
              (zeros (size - length pdu)) (omega (arith, long))
          ∙ take_all (length pdu - smb2_header_size) (drop smb2_header_size pdu)
              (omega (arith, length-drop smb2_header_size pdu));
    }

module _ (c : Primitives) (sizes : Sizes c) (key : Bytes) (dialect : ℕ) where
  pub sign_message-Carries :
      (pdu piece : Bytes)
      → smb2_header_size ≤ length piece
      → Carries pdu piece
      → Carries pdu (sign_message c key dialect piece)
  unfolding sign_message
  sign_message-Carries pdu piece long h = record {
    same_front = λ i g.
        u8-copy_at _ 48 _ i (omega (arith, g))
        ∙ u8-put32_before (clear_signature c piece) 16 _ i (omega (arith, g))
        ∙ u8-copy_at piece 48 (zeros 16) i (omega (arith, g))
        ∙ h.same_front i g;
    same_ids = λ i f g.
        u8-copy_at _ 48 _ i g
        ∙ u8-put32_after (clear_signature c piece) 16 _ i (omega (arith, f))
        ∙ u8-copy_at piece 48 (zeros 16) i g
        ∙ h.same_ids i f g;
    same_content =
        ap (take (length pdu - smb2_header_size))
          (sign_message_body c sizes key dialect piece long).1
        ∙ h.same_content;
  }
