-- ===== src/Spnego/Challenge.antt =====
-- The NTLM challenge: `avPair` and `buildNTLMChallenge` of internal/smb/spnego.go.
use portable_smb_server.Base.{ℕ, ◌+◌, [], ◌∷◌, ◌++◌, length}
use portable_smb_server.Wire.{Bytes, put8, put16, put32, zeros, copy_at, le16, le64}
use portable_smb_server.Packet.Filetime.{Time, time_to_filetime}
use portable_smb_server.Packet.Utf16.{Str, string_to_utf16le}
use portable_smb_server.Spnego.{ntlm_signature, type_challenge}

-- "SMBSERVER" and "WORKGROUP"
abbrev pub computer_name : Str
computer_name = b'S' ∷ b'M' ∷ b'B' ∷ b'S' ∷ b'E' ∷ b'R' ∷ b'V' ∷ b'E' ∷ b'R' ∷ []

abbrev pub domain_name : Str
domain_name = b'W' ∷ b'O' ∷ b'R' ∷ b'K' ∷ b'G' ∷ b'R' ∷ b'O' ∷ b'U' ∷ b'P' ∷ []

abbrev pub challenge_flags : ℕ
challenge_flags = 0xe28b8215

-- the fixed part, with the 8-byte Version field
abbrev pub challenge_fixed : ℕ
challenge_fixed = 56

unfoldable pub av_pair : ℕ → Bytes → Bytes
av_pair id value = le16 id ++ (le16 (length value) ++ value)

unfoldable pub target_info : Time → Bytes
unfolding av_pair
target_info now =
    let nb_computer = string_to_utf16le computer_name in
    let nb_domain = string_to_utf16le domain_name in
    av_pair 2 nb_domain
    ++ (av_pair 1 nb_computer
        ++ (av_pair 4 nb_domain
            ++ (av_pair 3 nb_computer
                ++ (av_pair 7 (le64 (time_to_filetime now)) ++ av_pair 0 []))))

-- the fixed part, which names where the target name and the target info stand
unfoldable pub challenge_header : Bytes → ℕ → ℕ → Bytes
challenge_header server_challenge name_len info_len =
    let b1 = put32 (copy_at (zeros challenge_fixed) 0 ntlm_signature) 8 type_challenge in
    let b2 = put32 (put16 (put16 b1 12 name_len) 14 name_len) 16 challenge_fixed in
    let b3 = copy_at (put32 b2 20 challenge_flags) 24 server_challenge in
    let b4 = put32 (put16 (put16 b3 40 info_len) 42 info_len) 44 (challenge_fixed + name_len) in
    put8 (put8 b4 48 10) 55 0x0f

unfoldable pub build_ntlm_challenge : Bytes → Time → Bytes
unfolding challenge_header target_info
build_ntlm_challenge server_challenge now =
    let target_name = string_to_utf16le domain_name in
    let info = target_info now in
    challenge_header server_challenge (length target_name) (length info) ++ (target_name ++ info)
