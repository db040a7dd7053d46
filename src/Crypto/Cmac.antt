-- ===== src/Crypto/Cmac.antt =====
-- `aesCMAC` of internal/smb/crypto.go beside the block-by-block definition of RFC 4493.
use portable_smb_server.Base.{
  ℕ, All, if_lem, ltb, [], ◌∷◌, append_assoc, length-replicate, zero, suc, ◌+◌, ◌-◌, ◌*◌, ◌/◌, ◌≤◌,
  ◌<◌, ◌≡◌, refl, sym, ap, ap₂, ◌∙◌, ◌⊎◌, ◌++◌, arith, length, take, drop, length-take, length-drop,
  length-append, drop-drop, drop-append, take-take, drop-take, take_all, leb, ◌==◌, if◌then◌else◌,
  min, append-nil, true, false,
}
use portable_smb_server.Wire.{Bytes, IsByte, zeros, slice, copy_at}
use portable_smb_server.Wire.Copy.{copy_at-parts}
use portable_smb_server.Crypto.Gf.{Doubled, gf_mul_x-Doubled, Doubled-IsByte}
use portable_smb_server.Crypto.{
  xor_bytes, cmac_chunk, crypt_blocks, chain_chunks, last_block, full_blocks, cmac_with, gf_mul_x,
}

slice-skip :
    (y rest : Bytes) (n : ℕ)
    → length y ≡ 16
    → slice (y ++ rest) (suc n * 16) 16 ≡ slice rest (n * 16) 16
slice-skip y rest n h =
    let e : suc n * 16 ≡ length y + n * 16 = omega arith in
    ap (λ i. take 16 (drop i (y ++ rest))) e
    ∙ ap (take 16)
        (sym (drop-drop (n * 16) (length y) (y ++ rest)) ∙ ap (drop (n * 16)) (drop-append y rest))

module _ (enc : Bytes → Bytes) where
  -- The chain of RFC 4493 over `n` blocks, one at a time.
  chain : ℕ → Bytes → Bytes → Bytes
  chain zero x src = x
  chain (suc n) x src = chain n (enc (xor_bytes x (take 16 src))) (drop 16 src)

  -- RFC 4493: every block but the last goes through the chain; the last is tweaked with K1 if it
  -- is complete, and padded with a bit 1 and bits 0 and tweaked with K2 if it is not.
  pub tweaked : Bytes → Bytes → Bytes → Bytes
  tweaked block k1 k2 =
      if ltb (length block) 16
      then xor_bytes (block ++ (0x80 ∷ zeros (15 - length block))) k2
      else xor_bytes block k1

  pub cmac_blocks : ℕ → Bytes → Bytes → Bytes → Bytes → Bytes
  cmac_blocks zero k1 k2 x msg = enc (xor_bytes x (tweaked msg k1 k2))
  cmac_blocks (suc n) k1 k2 x msg =
      let more = cmac_blocks n k1 k2 (enc (xor_bytes x (take 16 msg))) (drop 16 msg) in
      if leb (length msg) 16 then enc (xor_bytes x (tweaked msg k1 k2)) else more

  module _ (size : (b : Bytes) → length (enc b) ≡ 16) where
    length-crypt_blocks : (n : ℕ) (x src : Bytes) → length (crypt_blocks enc n x src) ≡ n * 16
    unfolding crypt_blocks
    length-crypt_blocks zero x src = refl
    length-crypt_blocks (suc n) x src =
        let y = enc (xor_bytes x (take 16 src)) in
        omega (
          arith,
          length-append y (crypt_blocks enc n y (drop 16 src)),
          size (xor_bytes x (take 16 src)),
          length-crypt_blocks n y (drop 16 src),
        )

    -- The last block of the ciphertext is the state of the chain.
    last-crypt_blocks :
        (n : ℕ) (x src : Bytes)
        → slice (crypt_blocks enc (suc n) x src) (n * 16) 16 ≡ chain (suc n) x src
    unfolding crypt_blocks chain
    last-crypt_blocks zero x src =
        let y = enc (xor_bytes x (take 16 src)) in
        ap (take 16) (append-nil y)
        ∙ take_all 16 y (omega (arith, size (xor_bytes x (take 16 src))))
    last-crypt_blocks (suc n) x src =
        let y = enc (xor_bytes x (take 16 src)) in
        slice-skip y (crypt_blocks enc (suc n) y (drop 16 src)) n (size (xor_bytes x (take 16 src)))
        ∙ last-crypt_blocks n y (drop 16 src)

  chain-take : (n : ℕ) (x src : Bytes) → chain n x (take (n * 16) src) ≡ chain n x src
  unfolding chain
  chain-take zero x src = refl
  chain-take (suc n) x src =
      ap₂ (λ h t. chain n (enc (xor_bytes x h)) t) (take-take 16 (suc n * 16) src (omega arith))
        (drop-take 16 (n * 16) (suc n * 16) src (omega arith))
      ∙ chain-take n (enc (xor_bytes x (take 16 src))) (drop 16 src)

  chain-add :
      (a b : ℕ) (x src : Bytes) → chain (a + b) x src ≡ chain b (chain a x src) (drop (a * 16) src)
  unfolding chain
  chain-add zero b x src = let e : 0 + b ≡ b = omega arith in ap (λ n. chain n x src) e
  chain-add (suc a) b x src =
      let e : suc a + b ≡ suc (a + b) = omega arith in
      let k : 16 + a * 16 ≡ suc a * 16 = omega arith in
      let y = enc (xor_bytes x (take 16 src)) in
      ap (λ n. chain n x src) e
      ∙ chain-add a b y (drop 16 src)
      ∙ ap (chain b (chain a y (drop 16 src))) (drop-drop (a * 16) 16 src ∙ ap (λ i. drop i src) k)

  module _ (size : (b : Bytes) → length (enc b) ≡ 16) where
    -- One round of the loop takes the chain over the blocks of its chunk.
    chunk :
        (k : ℕ) (x todo : Bytes)
        → slice (crypt_blocks enc (suc k) x (take (suc k * 16) todo)) (suc k * 16 - 16) 16
          ≡ chain (suc k) x todo
    chunk k x todo =
        let e : suc k * 16 - 16 ≡ k * 16 = omega arith in
        ap (λ i. slice (crypt_blocks enc (suc k) x (take (suc k * 16) todo)) i 16) e
        ∙ last-crypt_blocks size k x (take (suc k * 16) todo)
        ∙ chain-take (suc k) x todo

    chain_chunks-step :
        (fuel k : ℕ) (x todo : Bytes)
        → min (length todo) cmac_chunk ≡ suc k * 16
        → chain_chunks enc (suc fuel) x todo
          ≡ chain_chunks enc fuel (chain (suc k) x todo) (drop (suc k * 16) todo)
    unfolding chain_chunks
    chain_chunks-step fuel k x todo h =
        let some_left : (length todo == 0) ≡ false = ground arith in
        let blocks : suc k * 16 / 16 ≡ suc k = omega arith in
        rw some_left (
          ap
            (λ n.
              chain_chunks enc fuel (slice (crypt_blocks enc (n / 16) x (take n todo)) (n - 16) 16)
                (drop n todo))
            h
          ∙ ap
              (λ b.
                chain_chunks enc fuel
                  (slice (crypt_blocks enc b x (take (suc k * 16) todo)) (suc k * 16 - 16) 16)
                  (drop (suc k * 16) todo))
              blocks
          ∙ ap (λ y. chain_chunks enc fuel y (drop (suc k * 16) todo)) (chunk k x todo))

    chain_chunks-done :
        (fuel : ℕ) (x todo : Bytes) → length todo ≡ 0 → chain_chunks enc fuel x todo ≡ x
    unfolding chain_chunks
    chain_chunks-done zero x todo h = refl
    chain_chunks-done (suc fuel) x todo h =
        let none_left : (length todo == 0) ≡ true = ground arith in rw none_left refl

    chain_chunks-chain :
        (fuel m : ℕ) (x todo : Bytes)
        → length todo ≡ m * 16
        → m ≤ fuel
        → chain_chunks enc fuel x todo ≡ chain m x todo
    chain_chunks-chain fuel zero x todo h k =
        chain_chunks-done fuel x todo (omega arith) ∙ unfold chain in refl
    chain_chunks-chain zero (suc m) x todo h k = absurd (omega arith)
    chain_chunks-chain (suc fuel) (suc m) x todo h k =
        let j = min m 4095 in
        let whole : suc j + (m - j) ≡ suc m = omega arith in
        chain_chunks-step fuel j x todo (omega arith)
        ∙ chain_chunks-chain fuel (m - j) (chain (suc j) x todo) (drop (suc j * 16) todo)
            (omega (arith, length-drop (suc j * 16) todo)) (omega arith)
        ∙ sym (chain-add (suc j) (m - j) x todo)
        ∙ ap (λ n. chain n x todo) whole

    -- Skipping the whole blocks at once is taking the rounds of the definition one by one.
    cmac_blocks-chain :
        (f n : ℕ) (k1 k2 x msg : Bytes)
        → f ≤ n
        → length msg ≤ f * 16 + 16
        → (f * 16 < length msg) ⊎ (f ≡ 0)
        → cmac_blocks n k1 k2 x msg
          ≡ enc (xor_bytes (chain f x msg) (tweaked (drop (f * 16) msg) k1 k2))
    unfolding cmac_blocks chain
    cmac_blocks-chain zero zero k1 k2 x msg h lo hi = refl
    cmac_blocks-chain zero (suc n) k1 k2 x msg h lo hi =
        let small : leb (length msg) 16 ≡ true = ground arith in rw small refl
    cmac_blocks-chain (suc f) zero k1 k2 x msg h lo hi = absurd (omega arith)
    cmac_blocks-chain (suc f) (suc n) k1 k2 x msg h lo hi =
        let big : leb (length msg) 16 ≡ false = ground arith in
        let e : 16 + f * 16 ≡ suc f * 16 = omega arith in
        let y = enc (xor_bytes x (take 16 msg)) in
        rw big (
          cmac_blocks-chain f n k1 k2 y (drop 16 msg) (omega arith)
            (omega (arith, length-drop 16 msg)) (omega (arith, length-drop 16 msg))
          ∙ ap (λ t. enc (xor_bytes (chain f y (drop 16 msg)) (tweaked t k1 k2)))
              (drop-drop (f * 16) 16 msg ∙ ap (λ i. drop i msg) e))

    zeros-split : (n m : ℕ) → zeros (n + m) ≡ zeros n ++ zeros m
    zeros-split zero m = let e : 0 + m ≡ m = omega arith in ap zeros e
    zeros-split (suc n) m =
        let e : suc n + m ≡ suc (n + m) = omega arith in
        ap zeros e ∙ ap (λ t. 0 ∷ t) (zeros-split n m)

    padded :
        (tail : Bytes)
        → length tail < 16
        → copy_at (zeros 16) 0 (tail ++ (0x80 ∷ [])) ≡ tail ++ (0x80 ∷ zeros (15 - length tail))
    padded tail h =
        let all = tail ++ (0x80 ∷ []) in
        let size : length all ≡ length tail + 1 = length-append tail (0x80 ∷ []) ∙ omega arith in
        let sum : 16 ≡ length all + (15 - length tail) = omega (arith, size, h) in
        ap (λ n. copy_at (zeros n) 0 all) sum
        ∙ ap (λ z. copy_at z 0 all) (zeros-split (length all) (15 - length tail))
        ∙ copy_at-parts [] (zeros (length all)) (zeros (15 - length tail)) all
            (length-replicate {A = ℕ} (length all) 0)
        ∙ append_assoc tail (0x80 ∷ []) (zeros (15 - length tail))

    last_block-tweaked :
        (tail k1 k2 : Bytes) → length tail ≤ 16 → last_block tail k1 k2 ≡ tweaked tail k1 k2
    unfolding tweaked
    last_block-tweaked tail k1 k2 h =
        if_lem (λ t. last_block tail k1 k2 ≡ t) (ltb (length tail) 16)
          (λ short.
            if_lem (λ t. t ≡ xor_bytes (tail ++ (0x80 ∷ zeros (15 - length tail))) k2)
              (length tail == 16) (λ e. absurd (ground (arith, e, short)))
              (λ _. ap (λ t. xor_bytes t k2) (padded tail (ground (arith, short)))))
          (λ full.
            if_lem (λ t. t ≡ xor_bytes tail k1) (length tail == 16) (λ _. refl)
              (λ e. absurd (ground (arith, e, full, h))))

    -- The subkeys that the cipher gives.
    pub record Subkeys (k1 k2 : Bytes) : Type 0 where
      pub first : Doubled (enc (zeros 16)) k1
      pub second : Doubled k1 k2

    -- The routine of the server, which encrypts up to 64 KiB of whole blocks per call and treats
    -- the last block by hand, computes the CMAC that RFC 4493 defines block by block: with a first subkey
    -- that is the cipher of zeros doubled in the field, and a second that is the first one
    -- doubled, and with the first for a last block that is complete.
    pub cmac_with-cmac_blocks :
        (msg : Bytes)
        → All IsByte (enc (zeros 16))
        → (k1 : Bytes) × (k2 : Bytes) × Subkeys k1 k2
          × (cmac_with enc msg ≡ cmac_blocks (length msg) k1 k2 (zeros 16) msg)
    unfolding cmac_with
    cmac_with-cmac_blocks msg bytes =
        let f = full_blocks (length msg) in
        let k1 = gf_mul_x (enc (zeros 16)) in
        let k2 = gf_mul_x k1 in
        let first = gf_mul_x-Doubled (enc (zeros 16)) bytes in
        let low : f * 16 ≤ length msg = ground arith in
        let rest : length (drop (f * 16) msg) ≤ 16 = ground (arith, length-drop (f * 16) msg) in
        (
          k1,
          k2,
          record {
            first = first;
            second = gf_mul_x-Doubled k1 (Doubled-IsByte (enc (zeros 16)) k1 first);
          },
          ap (λ x. enc (xor_bytes x (last_block (drop (f * 16) msg) k1 k2)))
                (chain_chunks-chain (length msg) f (zeros 16) (take (f * 16) msg)
                    (omega (arith, length-take (f * 16) msg)) (omega arith)
                  ∙ chain-take f (zeros 16) msg)
              ∙ ap (λ t. enc (xor_bytes (chain f (zeros 16) msg) t))
                  (last_block-tweaked (drop (f * 16) msg) k1 k2 rest)
              ∙ sym (
                  cmac_blocks-chain f (length msg) k1 k2 (zeros 16) msg (omega arith) (ground arith)
                    (ground arith)),
        )
