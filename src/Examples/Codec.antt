-- ===== src/Examples/Codec.antt =====
-- The theorems on headers, frames, stamps, tokens and signatures, at concrete bytes.
use portable_smb_server.Base.{
  All, suc, zero, ℕ, true, ◌≡◌, refl, some, [], ◌∷◌, ◌++◌, length, take, replicate, subst,
  some-injective, length-take, length-append, length-replicate, arith,
}
use portable_smb_server.Wire.{IsByte, u32, Bytes, zeros}
use portable_smb_server.Packet.{parse_header, build_response}
use portable_smb_server.Packet.Reply.{parse_header-build_response}
use portable_smb_server.Packet.Filetime.{
  time_to_filetime, filetime_to_time, time_to_filetime-filetime_to_time,
}
use portable_smb_server.Transport.{
  message, read_message, write_message, max_message_size, read_message-write_message,
  write_message_limit,
}
use portable_smb_server.Spnego.{Element, der_read_tlv, build_neg_token_resp, spnego_extract_ntlm}
use portable_smb_server.Spnego.RoundTrip.{spnego_extract_ntlm-build_neg_token_resp}
use portable_smb_server.Crypto.{Sizes, sign_message, verify_message, cmac_with}
use portable_smb_server.Crypto.Signature.{verify_message-sign_message}
use portable_smb_server.Crypto.Cmac.{Subkeys, cmac_blocks, cmac_with-cmac_blocks}
use portable_smb_server.Examples.Backend.{header, primitives}

parse_header-build_response_example :
    (parse_header (build_response (header 8) 8 0xC0000022 7 3 2 (1 ∷ 2 ∷ []))
      ≡ some (record {
        credit_charge = 1;
        command = 8;
        credit_req_resp = 2;
        flags = 1;
        next_command = 0;
        message_id = 5;
        tree_id = 3;
        session_id = 7;
      }))
    × (u32 (build_response (header 8) 8 0xC0000022 7 3 2 (1 ∷ 2 ∷ [])) 8 ≡ 0xC0000022)
parse_header-build_response_example =
    parse_header-build_response (header 8) 8 0xC0000022 7 3 2 (1 ∷ 2 ∷ [])
      (record { credit_charge = omega arith; message_id = omega arith }) (omega arith) (omega arith)
      (omega arith) (omega arith) (omega arith)

time_to_filetime-filetime_to_time_example :
    (time_to_filetime (filetime_to_time 133444736000000000) ≡ 133444736000000000)
    × (time_to_filetime (filetime_to_time 0) ≡ 0)
time_to_filetime-filetime_to_time_example =
    time_to_filetime-filetime_to_time 133444736000000000 (omega arith) (omega arith)

read_message-write_message_example :
    (frame : Bytes) × (write_message (1 ∷ 2 ∷ 3 ∷ []) ≡ some frame)
    × (read_message (frame ++ (9 ∷ [])) ≡ message (1 ∷ 2 ∷ 3 ∷ []) (9 ∷ []))
read_message-write_message_example =
    read_message-write_message (1 ∷ 2 ∷ 3 ∷ []) (9 ∷ []) (omega arith)

-- a message of any length
filled : (n : ℕ) → (bs : Bytes) × (length bs ≡ n)
filled n = (replicate n 0, length-replicate n 0)

write_message_limit_example :
    (frame : Bytes) × (write_message (filled max_message_size).0 ≡ some frame)
    × (read_message (frame ++ []) ≡ message [] ((filled max_message_size).0 ++ []))
write_message_limit_example =
    write_message_limit (filled max_message_size).0 [] (filled max_message_size).1

-- an OCTET STRING of two bytes with one byte behind it
abbrev octets : Bytes
octets = 0x04 ∷ 2 ∷ 7 ∷ 8 ∷ 9 ∷ []

abbrev octets_element : Element
octets_element = record { tag = 0x04; content = 7 ∷ 8 ∷ []; rest = 9 ∷ [] }

octets_test : der_read_tlv octets ≡ some octets_element
unfolding der_read_tlv
octets_test = refl

spnego_extract_ntlm-build_neg_token_resp_example :
    spnego_extract_ntlm (build_neg_token_resp 1 true (some (5 ∷ 6 ∷ []))) ≡ some (5 ∷ 6 ∷ [])
spnego_extract_ntlm-build_neg_token_resp_example =
    spnego_extract_ntlm-build_neg_token_resp 1 true (5 ∷ 6 ∷ []) (omega arith)

pub primitives-Sizes : Sizes primitives
primitives-Sizes = record {
  md5_size = λ m. refl;
  hmac_md5_size = λ k m. omega (arith, length-take 16 (k ++ zeros 16), length-append k (zeros 16));
  hmac_sha256_size =
      λ k m. omega (arith, length-take 32 (m ++ zeros 32), length-append m (zeros 32));
  aes_size = λ k b f e. aes_size k b f e;
}
  where
    aes_size : (k b : Bytes) (f : Bytes → Bytes) → primitives.aes k ≡ some f → length (f b) ≡ 16
    aes_size k b f e =
        subst (λ (g : Bytes → Bytes). length (g b) ≡ 16)
          (some-injective (λ (x : Bytes). take 16 (x ++ zeros 16)) f e)
          (omega (arith, length-take 16 (b ++ zeros 16), length-append b (zeros 16)))

verify_message-sign_message_example :
    verify_message primitives
      (1 ∷ 2 ∷ [])
      0x0302
      (sign_message primitives (1 ∷ 2 ∷ []) 0x0302 (zeros 70))
    ≡ true
verify_message-sign_message_example =
    verify_message-sign_message primitives primitives-Sizes (1 ∷ 2 ∷ []) 0x0302 (zeros 70)
      (omega arith)

-- a block cipher that is none, but pads to a block, on a message of one block and a half
abbrev no_cipher : Bytes → Bytes
no_cipher b = take 16 (b ++ zeros 16)

length-no_cipher : (b : Bytes) → length (no_cipher b) ≡ 16
length-no_cipher b = omega (arith, length-take 16 (b ++ zeros 16), length-append b (zeros 16))

zeros-IsByte : (n : ℕ) → All IsByte (zeros n)
zeros-IsByte zero = tt
zeros-IsByte (suc n) = (omega arith, zeros-IsByte n)

cmac_with-cmac_blocks_example :
    (k1 : Bytes) × (k2 : Bytes) × Subkeys no_cipher length-no_cipher k1 k2
    × (cmac_with no_cipher (zeros 24)
        ≡ cmac_blocks no_cipher (length (zeros 24)) k1 k2 (zeros 16) (zeros 24))
cmac_with-cmac_blocks_example =
    cmac_with-cmac_blocks no_cipher length-no_cipher (zeros 24) (zeros-IsByte 16)
