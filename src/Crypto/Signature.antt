-- ===== src/Crypto/Signature.antt =====
-- `signMessage` and `verifyMessage` of internal/smb/crypto.go, one after the other.
use portable_smb_server.Base.{
  ℕ, ◌≤◌, ◌≡◌, refl, sym, ap, ap₂, ◌∙◌, inl, inr, true, false, ◌++◌, arith, length, take, drop,
  length-append, length-take, length-drop, take-append-drop, drop-append, drop-drop, bit_or,
  list_eq_refl, ltb, list_eq, Option-cases,
}
use portable_smb_server.Wire.{Bytes, u32, put32, zeros, copy_at, slice}
use portable_smb_server.Wire.Fields.{length-put32}
use portable_smb_server.Wire.Copy.{copy_at-parts, put32-append, slice-parts}
use portable_smb_server.Wire.Frame.{Same-copy_at, u32-Same, u32-put32_after}
use portable_smb_server.Packet.{flags_signed}
use portable_smb_server.Crypto.{
  Primitives, Sizes, aes_cmac, cmac_with, signature, expected_signature, sign_message,
  verify_message,
}

cmac_with-last : (enc : Bytes → Bytes) (msg : Bytes) → (b : Bytes) × (cmac_with enc msg ≡ enc b)
unfolding cmac_with
cmac_with-last enc msg = (_, refl)

module _ (c : Primitives) (sizes : Sizes c) where
  -- the two switches choose alike
  expected_signature-signature :
      (key : Bytes) (dialect : ℕ) (msg : Bytes)
      → expected_signature c key dialect msg ≡ signature c key dialect msg
  unfolding expected_signature signature
  expected_signature-signature key dialect msg = refl

  length-aes_cmac : (key msg : Bytes) → length (aes_cmac c key msg) ≡ 16
  unfolding aes_cmac
  length-aes_cmac key msg = elim (Option-cases (c.aes key)) [
    | inl e ↦ rw (e, aes_cmac) refl
    | inr (enc, e) ↦
        let (b, q) = cmac_with-last enc msg in
        rw (e, aes_cmac) (ap length q ∙ sizes.aes_size key b enc e)
  ]

  signature_size :
      (key : Bytes) (dialect : ℕ) (msg : Bytes)
      → length (take 16 (signature c key dialect msg)) ≡ 16
  unfolding signature
  signature_size key dialect msg = ground (
    arith,
    length-aes_cmac key msg,
    sizes.hmac_sha256_size key msg,
    length-take 16 (aes_cmac c key msg),
    length-take 16 (c.hmac_sha256 key msg),
  )

copy_48 :
    (p q r xs : Bytes)
    → length p ≡ 48
    → length q ≡ length xs
    → copy_at (p ++ (q ++ r)) 48 xs ≡ p ++ (xs ++ r)
copy_48 p q r xs hp h = ap (λ i. copy_at (p ++ (q ++ r)) i xs) (sym hp) ∙ copy_at-parts p q r xs h

slice_48 : (p q r : Bytes) → length p ≡ 48 → length q ≡ 16 → slice (p ++ (q ++ r)) 48 16 ≡ q
slice_48 p q r hp hq =
    ap (λ i. slice (p ++ (q ++ r)) i 16) (sym hp)
    ∙ ap (λ n. slice (p ++ (q ++ r)) (length p) n) (sym hq)
    ∙ slice-parts p q r

-- A message as the 48 bytes before the signature, the signature and the rest.
module _ (c : Primitives) (sizes : Sizes c) (p q r : Bytes) (hp : length p ≡ 48)
    (hq : length q ≡ 16) where
  flagged : Bytes
  flagged = put32 p 16 (bit_or (u32 (p ++ (zeros 16 ++ r)) 16) flags_signed)

  unsigned : Bytes
  unsigned = flagged ++ (zeros 16 ++ r)

  length-flagged : length flagged ≡ 48
  unfolding flagged
  length-flagged = length-put32 p 16 _ ∙ hp

  module _ (key : Bytes) (dialect : ℕ) where
    tag : Bytes
    tag = take 16 (signature c key dialect unsigned)

    finish : Bytes → Bytes
    finish z = copy_at z 48 (take 16 (signature c key dialect z))

    length-tag : length tag ≡ 16
    unfolding tag
    length-tag = signature_size c sizes key dialect unsigned

    sign_message-parts : sign_message c key dialect (p ++ (q ++ r)) ≡ flagged ++ (tag ++ r)
    unfolding sign_message flagged unsigned finish tag
    sign_message-parts =
        ap (λ z. finish (put32 z 16 (bit_or (u32 z 16) flags_signed)))
          (copy_48 p q r (zeros 16) hp hq)
        ∙ ap finish (put32-append p (zeros 16 ++ r) 16 _ (omega (arith, hp)))
        ∙ copy_48 flagged (zeros 16) r tag length-flagged (sym length-tag)

    verify_long :
        (m : Bytes)
        → 64 ≤ length m
        → list_eq
            (slice m 48 16)
            (take 16 (expected_signature c key dialect (copy_at m 48 (zeros 16))))
          ≡ true
        → verify_message c key dialect m ≡ true
    unfolding verify_message
    verify_long m h e = rw (short m h) e
      where
        short : (m' : Bytes) → 64 ≤ length m' → ltb (length m') 64 ≡ false
        short m' h' = ground arith

    verify-parts : verify_message c key dialect (flagged ++ (tag ++ r)) ≡ true
    unfolding tag unsigned
    verify-parts =
        let long : 64 ≤ length (flagged ++ (tag ++ r)) = omega (
          arith,
          length-append flagged (tag ++ r),
          length-append tag r,
          length-tag,
          length-flagged,
        ) in
        let cleared : copy_at (flagged ++ (tag ++ r)) 48 (zeros 16) ≡ unsigned =
          copy_48 flagged tag r (zeros 16) length-flagged length-tag in
        let field : slice (flagged ++ (tag ++ r)) 48 16 ≡ tag =
          slice_48 flagged tag r length-flagged length-tag in
        let same : take 16
              (expected_signature c key dialect (copy_at (flagged ++ (tag ++ r)) 48 (zeros 16)))
            ≡ tag =
          ap (λ z. take 16 (expected_signature c key dialect z)) cleared
          ∙ ap (take 16) (expected_signature-signature c sizes key dialect unsigned) in
        let matches = ap₂ list_eq field same ∙ list_eq_refl tag in
        verify_long (flagged ++ (tag ++ r)) long matches

tail_64 : (p q r : Bytes) → length p ≡ 48 → length q ≡ 16 → drop 64 (p ++ (q ++ r)) ≡ r
tail_64 p q r hp hq =
    sym (drop-drop 16 48 (p ++ (q ++ r)))
    ∙ ap (λ n. drop 16 (drop n (p ++ (q ++ r)))) (sym hp)
    ∙ ap (drop 16) (drop-append p (q ++ r))
    ∙ ap (λ n. drop n (q ++ r)) (sym hq)
    ∙ drop-append q r

-- The three parts of a message that is long enough to carry a signature.
parts-append : (msg : Bytes) → take 48 msg ++ (take 16 (drop 48 msg) ++ drop 64 msg) ≡ msg
parts-append msg =
    ap (λ t. take 48 msg ++ (take 16 (drop 48 msg) ++ t)) (sym (drop-drop 16 48 msg))
    ∙ ap (λ t. take 48 msg ++ t) (take-append-drop 16 (drop 48 msg))
    ∙ take-append-drop 48 msg

module _ (c : Primitives) (sizes : Sizes c) (key : Bytes) (dialect : ℕ) (msg : Bytes)
    (h : 64 ≤ length msg) where
  length-front : length (take 48 msg) ≡ 48
  length-front = omega (arith, length-take 48 msg)

  length-field : length (take 16 (drop 48 msg)) ≡ 16
  length-field = omega (arith, length-take 16 (drop 48 msg), length-drop 48 msg)

  -- For every dialect and key, a message that the server has signed passes the server's own check
  -- of a signature, with the same key and dialect.
  pub verify_message-sign_message :
      verify_message c key dialect (sign_message c key dialect msg) ≡ true
  verify_message-sign_message =
      let p = take 48 msg in
      let q = take 16 (drop 48 msg) in
      let r = drop 64 msg in
      ap (λ m. verify_message c key dialect (sign_message c key dialect m)) (sym (parts-append msg))
      ∙ ap (verify_message c key dialect)
          (sign_message-parts c sizes p q r length-front length-field key dialect)
      ∙ verify-parts c sizes p q r length-front length-field key dialect

  -- Signing leaves the length and everything behind the header as it was.
  pub sign_message_body :
      (length (sign_message c key dialect msg) ≡ length msg)
      × (drop 64 (sign_message c key dialect msg) ≡ drop 64 msg)
  sign_message_body =
      let p = take 48 msg in
      let q = take 16 (drop 48 msg) in
      let r = drop 64 msg in
      let signed =
        ap (sign_message c key dialect) (sym (parts-append msg))
        ∙ sign_message-parts c sizes p q r length-front length-field key dialect in
      let f = flagged c sizes p q r length-front length-field in
      let t = tag c sizes p q r length-front length-field key dialect in
      let hf = length-flagged c sizes p q r length-front length-field in
      let ht = length-tag c sizes p q r length-front length-field key dialect in
      (
        ap length signed
            ∙ omega
                (arith, length-append f (t ++ r), length-append t r, hf, ht, length-drop 64 msg),
        ap (drop 64) signed ∙ tail_64 f t r hf ht,
      )

-- Signing leaves NextCommand as it was.
pub next_command-sign_message :
    (c : Primitives) (key : Bytes) (dialect : ℕ) (msg : Bytes)
    → u32 (sign_message c key dialect msg) 20 ≡ u32 msg 20
unfolding sign_message
next_command-sign_message c key dialect msg =
    u32-Same 48 _ _ 20 (Same-copy_at 48 _ 48 _ (omega arith)) (omega arith)
    ∙ u32-put32_after (copy_at msg 48 (zeros 16)) 16 _ 20 (omega arith)
    ∙ u32-Same 48 msg _ 20 (Same-copy_at 48 msg 48 (zeros 16) (omega arith)) (omega arith)
