-- ===== src/Spnego/RoundTrip.antt =====
-- `buildNegTokenResp` and `spnegoExtractNTLM` of internal/smb/spnego.go, one after the other.
use portable_smb_server.Base.{
  ℕ, suc, ◌+◌, ◌≤◌, ◌<◌, ◌≡◌, refl, sym, ap, ◌∙◌, Bool, true, false, some, [], ◌∷◌, ◌++◌, arith,
  length, length-append, append-nil, if◌then◌else◌, ◌==◌,
}
use portable_smb_server.Wire.{Bytes}
use portable_smb_server.Spnego.{
  der_len, der_tlv, expect, find_token, token_sequence, oid_nlmp, build_neg_token_resp,
  spnego_extract_ntlm,
}
use portable_smb_server.Spnego.Der.{der_read_tlv-der_tlv, find_token_fuel}

expect-der_tlv :
    (tag : ℕ) (content rest : Bytes)
    → length content < 65536
    → expect tag (der_tlv tag content ++ rest) ≡ some content
unfolding expect
expect-der_tlv tag content rest h = rw (der_read_tlv-der_tlv tag content rest h) (ground arith)

expect_only :
    (tag : ℕ) (content : Bytes)
    → length content < 65536
    → expect tag (der_tlv tag content) ≡ some content
expect_only tag content h =
    ap (expect tag) (sym (append-nil (der_tlv tag content))) ∙ expect-der_tlv tag content [] h

length-der_tlv : (tag : ℕ) (content : Bytes) → length (der_tlv tag content) ≤ length content + 4
unfolding der_tlv
length-der_tlv tag content = ground (arith, length-append (der_len (length content)) content)

-- One element that is not [2] is passed over.
find_token_skip :
    (fuel tag : ℕ) (content rest : Bytes)
    → length content < 65536
    → (tag == 0xA2) ≡ false
    → find_token (suc fuel) (der_tlv tag content ++ rest) ≡ find_token fuel rest
unfolding find_token der_tlv
find_token_skip fuel tag content rest h ne = ground (arith, der_read_tlv-der_tlv tag content rest h)

find_token_found :
    (fuel : ℕ) (token rest : Bytes)
    → length token < 65530
    → find_token (suc fuel) (der_tlv 0xA2 (der_tlv 0x04 token) ++ rest) ≡ some token
unfolding find_token der_tlv
find_token_found fuel token rest h = ground (
  arith,
  length-der_tlv 0x04 token,
  der_read_tlv-der_tlv 0xA2 (der_tlv 0x04 token) rest,
  expect_only 0x04 token,
)

reply_sequence : ℕ → Bool → Bytes → Bytes
reply_sequence state mech token =
    der_tlv 0xA0 (der_tlv 0x0A (state ∷ []))
    ++ ((if mech then der_tlv 0xA1 oid_nlmp else []) ++ der_tlv 0xA2 (der_tlv 0x04 token))

find_token-reply :
    (fuel state : ℕ) (mech : Bool) (token : Bytes)
    → length token < 65000
    → find_token (suc (suc (suc fuel))) (reply_sequence state mech token) ≡ some token
unfolding reply_sequence
find_token-reply fuel state true token h =
    find_token_skip (suc (suc fuel)) 0xA0 (der_tlv 0x0A (state ∷ [])) _
      (omega (arith, length-der_tlv 0x0A (state ∷ []))) refl
    ∙ find_token_skip (suc fuel) 0xA1 oid_nlmp _ (omega arith) refl
    ∙ ap (find_token (suc fuel)) (sym (append-nil _))
    ∙ find_token_found fuel token [] (omega arith)
find_token-reply fuel state false token h =
    find_token_skip (suc (suc fuel)) 0xA0 (der_tlv 0x0A (state ∷ [])) _
      (omega (arith, length-der_tlv 0x0A (state ∷ []))) refl
    ∙ ap (find_token (suc (suc fuel))) (sym (append-nil _))
    ∙ find_token_found (suc fuel) token [] (omega arith)

length-der_tlv_ge : (tag : ℕ) (content : Bytes) → length content + 2 ≤ length (der_tlv tag content)
unfolding der_tlv
length-der_tlv_ge tag content = ground (arith, length-append (der_len (length content)) content)

length-reply_sequence :
    (state : ℕ) (mech : Bool) (token : Bytes)
    → length (reply_sequence state mech token) ≤ length token + 40
unfolding reply_sequence
length-reply_sequence state mech token = ground (
  arith,
  length-append (der_tlv 0xA0 (der_tlv 0x0A (state ∷ [])))
      ((if mech then der_tlv 0xA1 oid_nlmp else []) ++ der_tlv 0xA2 (der_tlv 0x04 token)),
  length-append (if mech then der_tlv 0xA1 oid_nlmp else []) (der_tlv 0xA2 (der_tlv 0x04 token)),
  length-der_tlv 0xA0 (der_tlv 0x0A (state ∷ [])),
  length-der_tlv 0x0A (state ∷ []),
  length-der_tlv 0xA1 oid_nlmp,
  length-der_tlv 0xA2 (der_tlv 0x04 token),
  length-der_tlv 0x04 token,
)

extract_sequence :
    (seq : Bytes)
    → length seq < 65500
    → spnego_extract_ntlm (der_tlv 0xA1 (der_tlv 0x30 seq)) ≡ find_token (length seq) seq
unfolding spnego_extract_ntlm token_sequence
extract_sequence seq h = rw (← append-nil (der_tlv 0xA1 (der_tlv 0x30 seq))) (
    rw (der_read_tlv-der_tlv 0xA1 (der_tlv 0x30 seq) [] (omega (arith, length-der_tlv 0x30 seq)))
      (rw (expect_only 0x30 seq (omega arith)) refl))

-- A client that unwraps a negTokenResp of the server, with the mechanism in it or not, finds the
-- NTLMSSP token that was wrapped, up to 65,000 bytes.
pub spnego_extract_ntlm-build_neg_token_resp :
    (state : ℕ) (mech : Bool) (token : Bytes)
    → length token < 65000
    → spnego_extract_ntlm (build_neg_token_resp state mech (some token)) ≡ some token
unfolding build_neg_token_resp
spnego_extract_ntlm-build_neg_token_resp state mech token h =
    let seq = reply_sequence state mech token in
    unfold reply_sequence in
    (extract_sequence seq (omega (arith, length-reply_sequence state mech token))
      ∙ find_token_fuel (length seq) (suc (suc (suc (length seq)))) seq (omega arith) (omega arith)
      ∙ find_token-reply (length seq) state mech token h)
