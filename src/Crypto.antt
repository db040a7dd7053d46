-- ===== src/Crypto.antt =====
-- Signing and key derivation: internal/smb/crypto.go. The hash functions and the AES block of Go's
-- standard library, and the vendored internal/md4, are parameters.
pub mod Cmac
pub mod Gf
pub mod Signature
use portable_smb_server.Base.{
  ℕ, zero, suc, ◌+◌, ◌-◌, ◌*◌, ◌/◌, ◌%◌, ◌≤◌, ◌≡◌, Bool, true, false, ◌||◌, ◌&&◌, not, Option, none,
  some, List, [], ◌∷◌, ◌++◌, map, ltb, leb, ◌==◌, if◌then◌else◌, length, take, drop, bit_xor,
  bit_or, list_eq, min,
}
use portable_smb_server.Wire.{Bytes, u8, u16, u32, put32, zeros, copy_at, slice, has_bits}
use portable_smb_server.Packet.{dialect300, dialect302, flags_signed}
use portable_smb_server.Packet.Utf16.{Str, utf16le_to_string, string_to_utf16le}
use portable_smb_server.Pattern.{Unicode}
use portable_smb_server.Spnego.{ntlm_signature, type_authenticate}

-- `aes key` is the block cipher, `none` for a key of a length that AES does not have.
pub record Primitives : Type 0 where
  pub md4 : Bytes → Bytes
  pub md5 : Bytes → Bytes
  pub hmac_md5 : Bytes → Bytes → Bytes
  pub hmac_sha256 : Bytes → Bytes → Bytes
  pub aes : Bytes → Option (Bytes → Bytes)
  pub rc4 : Bytes → Bytes → Option Bytes

-- The documented sizes of the results.
pub record Sizes (c : Primitives) : Type 0 where
  pub md5_size : (m : Bytes) → length (c.md5 m) ≡ 16
  pub hmac_md5_size : (k m : Bytes) → length (c.hmac_md5 k m) ≡ 16
  pub hmac_sha256_size : (k m : Bytes) → length (c.hmac_sha256 k m) ≡ 32
  pub aes_size : (k b : Bytes) (f : Bytes → Bytes) → c.aes k ≡ some f → length (f b) ≡ 16

-- dst[i] ^= src[i]
abbrev pub xor_bytes : Bytes → Bytes → Bytes
xor_bytes (a ∷ xs) (b ∷ ys) = bit_xor a b ∷ xor_bytes xs ys
xor_bytes [] ys = []
xor_bytes xs [] = xs

-- The loop of `gfMulX`, from the last byte to the first: the shifted bytes and the carry. The bit
-- that `|` sets is one that the shift has cleared.
unfoldable pub shift_left : Bytes → Bytes × ℕ
shift_left [] = ([], 0)
shift_left (x ∷ xs) = let (out, carry) = shift_left xs in ((x * 2 % 256 + carry) ∷ out, x / 128)

-- out[15] ^= 0x87
abbrev pub xor_last : ℕ → Bytes → Bytes
xor_last v [] = []
xor_last v (x ∷ []) = bit_xor x v ∷ []
xor_last v (x ∷ y ∷ ys) = x ∷ xor_last v (y ∷ ys)

unfoldable pub gf_mul_x : Bytes → Bytes
unfolding shift_left
gf_mul_x b = let (out, carry) = shift_left b in if carry == 0 then out else xor_last 0x87 out

abbrev pub block_size : ℕ
block_size = 16

abbrev pub cmac_chunk : ℕ
cmac_chunk = 65536

module _ (enc : Bytes → Bytes) where
  -- `CryptBlocks` of a CBC encrypter with the IV `x`, on `n` blocks of `src`.
  unfoldable pub crypt_blocks : ℕ → Bytes → Bytes → Bytes
  crypt_blocks zero x src = []
  crypt_blocks (suc n) x src =
      let y = enc (xor_bytes x (take block_size src)) in y ++ crypt_blocks n y (drop block_size src)

  -- The loop over the whole blocks before the last one, a chunk of scratch at a time; what is left
  -- of them is `todo`, and each round keeps the last ciphertext block as the next IV.
  unfoldable pub chain_chunks : ℕ → Bytes → Bytes → Bytes
  chain_chunks zero x todo = x
  chain_chunks (suc fuel) x todo =
      let n = min (length todo) cmac_chunk in
      let out = crypt_blocks (n / block_size) x (take n todo) in
      let rest = chain_chunks fuel (slice out (n - block_size) block_size) (drop n todo) in
      if length todo == 0 then x else rest

-- `copy(last[:], tail)`, and the padding bit behind a partial block
abbrev pub last_block : Bytes → Bytes → Bytes → Bytes
last_block tail k1 k2 =
    if length tail == block_size
    then xor_bytes tail k1
    else xor_bytes (copy_at (zeros block_size) 0 (tail ++ (0x80 ∷ []))) k2

-- how many whole blocks stand before the last one
abbrev pub full_blocks : ℕ → ℕ
full_blocks n =
    if n % block_size == 0 && ltb 0 (n / block_size) then n / block_size - 1 else n / block_size

unfoldable pub cmac_with : (Bytes → Bytes) → Bytes → Bytes
cmac_with enc msg =
    let k1 = gf_mul_x (enc (zeros block_size)) in
    let k2 = gf_mul_x k1 in
    let whole = full_blocks (length msg) * block_size in
    let x = chain_chunks enc (length msg) (zeros block_size) (take whole msg) in
    enc (xor_bytes x (last_block (drop whole msg) k1 k2))

module _ (c : Primitives) where
  unfoldable pub aes_cmac : Bytes → Bytes → Bytes
  aes_cmac key msg = elim (c.aes key) [ none ↦ zeros 16 | some enc ↦ cmac_with enc msg ]

  -- The algorithm of the negotiated dialect: AES-CMAC for 3.x, HMAC-SHA256 otherwise, as `signMessage`
  -- has it.
  unfoldable pub signature : Bytes → ℕ → Bytes → Bytes
  signature sign_key dialect msg =
      if dialect == dialect300 || dialect == dialect302
      then aes_cmac sign_key msg
      else c.hmac_sha256 sign_key msg

  -- the switch of `verifyMessage`
  unfoldable pub expected_signature : Bytes → ℕ → Bytes → Bytes
  expected_signature sign_key dialect msg =
      if dialect == dialect300 || dialect == dialect302
      then aes_cmac sign_key msg
      else c.hmac_sha256 sign_key msg

  abbrev pub clear_signature : Bytes → Bytes
  clear_signature msg = copy_at msg 48 (zeros 16)

  unfoldable pub sign_message : Bytes → ℕ → Bytes → Bytes
  sign_message sign_key dialect msg =
      let cleared = clear_signature msg in
      let flagged = put32 cleared 16 (bit_or (u32 cleared 16) flags_signed) in
      copy_at flagged 48 (take 16 (signature sign_key dialect flagged))

  -- The field is restored before the function returns, so the message is only read.
  unfoldable pub verify_message : Bytes → ℕ → Bytes → Bool
  verify_message sign_key dialect msg =
      if ltb (length msg) 64
      then false
      else list_eq (slice msg 48 16)
          (take 16 (expected_signature sign_key dialect (clear_signature msg)))

  unfoldable pub nt_hash : Str → Bytes
  nt_hash password = c.md4 (string_to_utf16le password)

  unfoldable pub ntowfv2 : Unicode → Str → Str → Str → Bytes
  unfolding nt_hash
  ntowfv2 u user password domain =
      c.hmac_md5 (nt_hash password) (string_to_utf16le (map u.upper user ++ domain))

  unfoldable pub validate_ntlmv2 : Bytes → Bytes → Bytes → Bool
  validate_ntlmv2 response_key_nt server_challenge nt_response =
      if ltb (length nt_response) 16
      then false
      else list_eq (take 16 nt_response)
          (c.hmac_md5 response_key_nt (server_challenge ++ drop 16 nt_response))

  abbrev pub ntlm_negotiate_key_exch : ℕ
  ntlm_negotiate_key_exch = 0x40000000

  unfoldable pub exported_session_key : Bytes → Bytes → ℕ → Bytes → Bytes
  exported_session_key response_key_nt nt_proof_str flags enc_random_session_key =
      let key_exchange_key = c.hmac_md5 response_key_nt nt_proof_str in
      if has_bits flags ntlm_negotiate_key_exch && length enc_random_session_key == 16
      then elim (c.rc4 key_exchange_key enc_random_session_key) [
        | none ↦ key_exchange_key
        | some out ↦ out
      ]
      else key_exchange_key

  unfoldable pub kdf : Bytes → Bytes → Bytes → Bytes
  kdf ki label context = take 16 (
      c.hmac_sha256 ki
        ((0 ∷ 0 ∷ 0 ∷ 1 ∷ []) ++ (label ++ ((0 ∷ []) ++ (context ++ (0 ∷ 0 ∷ 0 ∷ 0x80 ∷ []))))))

-- The fields of an AUTHENTICATE message that the server needs.
pub record NtlmAuthenticate : Type 0 where
  pub user : Str
  pub domain : Str
  pub nt_response : Bytes
  pub flags : ℕ
  pub enc_session_key : Bytes
  pub os_major : ℕ

-- The closure `field`: nil where the length is 0 or the range leaves the message.
abbrev pub auth_field : Bytes → ℕ → Bytes
auth_field msg off =
    let len = u16 msg off in
    let start = u32 msg (off + 4) in
    if len == 0 || ltb (length msg) (start + len) then [] else slice msg start len

abbrev ntlm_negotiate_version : ℕ
ntlm_negotiate_version = 0x02000000

unfoldable pub parse_ntlm_authenticate : Bytes → Option NtlmAuthenticate
parse_ntlm_authenticate msg =
    if ltb (length msg) 64
      || not (list_eq (slice msg 0 8) ntlm_signature)
      || not (u32 msg 8 == type_authenticate)
    then none
    else (let flags = u32 msg 60 in
        some (record {
          user = utf16le_to_string (auth_field msg 36);
          domain = utf16le_to_string (auth_field msg 28);
          nt_response = auth_field msg 20;
          flags = flags;
          enc_session_key = auth_field msg 52;
          os_major =
              if has_bits flags ntlm_negotiate_version && leb 65 (length msg) then u8 msg 64 else 0;
        }))
