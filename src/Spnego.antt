-- ===== src/Spnego.antt =====
-- SPNEGO tokens and the NTLMSSP messages in them: internal/smb/spnego.go.
pub mod Der
pub mod RoundTrip
pub mod Challenge
use portable_smb_server.Base.{
  ℕ, zero, suc, ◌+◌, ◌-◌, ◌*◌, ◌/◌, ◌%◌, Bool, true, false, ◌||◌, not, Option, none, some, List, [],
  ◌∷◌, ◌++◌, ltb, ◌==◌, if◌then◌else◌, length, take, drop, list_eq, bit_and,
}
use portable_smb_server.Wire.{Bytes, u8, u32, slice, has_bits}

abbrev pub oid_nlmp : Bytes
oid_nlmp = 0x06 ∷ 0x0A ∷ 0x2b ∷ 0x06 ∷ 0x01 ∷ 0x04 ∷ 0x01 ∷ 0x82 ∷ 0x37 ∷ 0x02 ∷ 0x02 ∷ 0x0A ∷ []

abbrev pub accept_completed : ℕ
accept_completed = 0

abbrev pub accept_incomplete : ℕ
accept_incomplete = 1

-- "NTLMSSP\x00"
abbrev pub ntlm_signature : Bytes
ntlm_signature = b'N' ∷ b'T' ∷ b'L' ∷ b'M' ∷ b'S' ∷ b'S' ∷ b'P' ∷ 0 ∷ []

abbrev pub type_challenge : ℕ
type_challenge = 2

abbrev pub type_authenticate : ℕ
type_authenticate = 3

unfoldable pub der_len : ℕ → Bytes
der_len n =
    if ltb n 0x80
    then n ∷ []
    else if ltb n 0x100
    then 0x81 ∷ n ∷ []
    else 0x82 ∷ n / 256 % 256 ∷ n % 256 ∷ []

unfoldable pub der_tlv : ℕ → Bytes → Bytes
unfolding der_len
der_tlv tag content = tag ∷ (der_len (length content) ++ content)

-- `n = n<<8 | int(b[2+j])` over the length's bytes
unfoldable pub big_endian : ℕ → Bytes → ℕ
big_endian n [] = n
big_endian n (b ∷ bs) = big_endian (n * 256 + b) bs

-- the tag, the contents and what follows the element
pub record Element : Type 0 where
  pub tag : ℕ
  pub content : Bytes
  pub rest : Bytes

-- The element whose contents are the `n` bytes at `i`.
abbrev pub element_at : Bytes → ℕ → ℕ → Option Element
element_at b i n =
    if ltb (length b) (i + n)
    then none
    else some (record { tag = u8 b 0; content = slice b i n; rest = drop (i + n) b })

unfoldable pub der_read_tlv : Bytes → Option Element
unfolding big_endian
der_read_tlv b =
    let n = u8 b 1 in
    let nbytes = bit_and n 0x7f in
    if ltb (length b) 2
    then none
    else if not (has_bits n 0x80)
    then element_at b 2 n
    else if nbytes == 0 || ltb 4 nbytes || ltb (length b) (2 + nbytes)
    then none
    else element_at b (2 + nbytes) (big_endian 0 (slice b 2 nbytes))

infixl 5 ◌>>=◌
abbrev pub ◌>>=◌ {ℓ κ} : {A : Type ℓ} {B : Type κ} → Option A → (A → Option B) → Option B
none >>= f = none
some a >>= f = f a

-- the contents of the element at the front, if it has the tag
unfoldable pub expect : ℕ → Bytes → Option Bytes
expect tag b = do e ← der_read_tlv b; if e.tag == tag then some e.content else none

-- The walk over the SEQUENCE in search of [2]. Each element takes two bytes at least, so the
-- length of the sequence is enough fuel.
unfoldable pub find_token : ℕ → Bytes → Option Bytes
find_token fuel [] = none
find_token zero (x ∷ xs) = none
find_token (suc fuel) (x ∷ xs) = do
  e ← der_read_tlv (x ∷ xs)
  if e.tag == 0xA2 then expect 0x04 e.content else find_token fuel e.rest

-- the sequence inside a negTokenInit (0x60) or a negTokenResp (0xA1)
unfoldable pub token_sequence : Element → Option Bytes
token_sequence e =
    if e.tag == 0x60
    then (do oid ← der_read_tlv e.content; inner ← expect 0xA0 oid.rest; expect 0x30 inner)
    else if e.tag == 0xA1
    then expect 0x30 e.content
    else none

unfoldable pub spnego_extract_ntlm : Bytes → Option Bytes
spnego_extract_ntlm buf = do
  e ← der_read_tlv buf
  seq ← token_sequence e
  find_token (length seq) seq

unfoldable pub ntlm_message_type : Bytes → ℕ
ntlm_message_type token =
    if ltb (length token) 12 || not (list_eq (slice token 0 8) ntlm_signature)
    then 0
    else u32 token 8

abbrev pub response_token : Option Bytes → Bytes
response_token none = []
response_token (some token) = der_tlv 0xA2 (der_tlv 0x04 token)

unfoldable pub build_neg_token_resp : ℕ → Bool → Option Bytes → Bytes
unfolding der_tlv
build_neg_token_resp state supported_mech token =
    let seq =
      der_tlv 0xA0 (der_tlv 0x0A (state ∷ []))
      ++ ((if supported_mech then der_tlv 0xA1 oid_nlmp else []) ++ response_token token) in
    der_tlv 0xA1 (der_tlv 0x30 seq)
