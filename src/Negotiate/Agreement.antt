-- ===== src/Negotiate/Agreement.antt =====
-- The answer to VALIDATE_NEGOTIATE_INFO of internal/smb/ioctl.go beside the NEGOTIATE response of
-- internal/smb/negotiate.go.
use portable_smb_server.Base.{
  ℕ, zero, suc, ◌+◌, ◌≤◌, some, [], ◌∷◌, ◌++◌, length, drop, ◌≡◌, refl, sym, ◌∙◌, ap, subst, arith,
  drop-append,
}
use portable_smb_server.Wire.{
  Bytes, u16, u32, put16, put32, zeros, copy_at, slice, smb2_header_size,
}
use portable_smb_server.Wire.Fields.{length-put32, length-copy_at}
use portable_smb_server.Packet.Status
use portable_smb_server.Packet.Filetime.{Time}
use portable_smb_server.Conn.{Env, State}
use portable_smb_server.Negotiate.{
  choose_dialect, negotiate_resp_body, validate_info, ioctl_body, handle_negotiate, handle_ioctl,
  fsctl_validate_negotiate_info, negotiate_signing_enabled,
}

-- of every list of `n` elements
Every : ℕ → (Bytes → Type 0) → Type 0
Every zero P = P []
Every (suc n) P = (x : ℕ) → Every n (λ xs. P (x ∷ xs))

every : (n : ℕ) (P : Bytes → Type 0) → Every n P → (xs : Bytes) → length xs ≡ n → P xs
unfolding Every
every zero P h [] e = h
every zero P h (x ∷ xs) e = elim impossible [ ]
  where
    impossible : ⊥
    impossible = omega (arith, e)
every (suc n) P h [] e = elim impossible [ ]
  where
    impossible : ⊥
    impossible = omega (arith, e)
every (suc n) P h (x ∷ xs) e = every n (λ ys. P (x ∷ ys)) (h x) xs (omega (arith, e))

-- The fields that a client compares: Capabilities, ServerGuid, SecurityMode and DialectRevision.
pub record Agree (negotiated info : Bytes) : Type 0 where
  pub capabilities : u32 info 0 ≡ u32 negotiated 24
  pub server_guid : slice info 4 16 ≡ slice negotiated 8 16
  pub security_mode : u16 info 20 ≡ u16 negotiated 2
  pub dialect : u16 info 22 ≡ u16 negotiated 4

abbrev info_with : ℕ → Bytes → Bytes
info_with dialect guid =
    put16 (put16 (copy_at (put32 (zeros 24) 0 0) 4 guid) 20 negotiate_signing_enabled) 22 dialect

bodies-Agree :
    (dialect : ℕ) (now : Time) (guid : Bytes)
    → length guid ≡ 16
    → Agree (negotiate_resp_body dialect guid now) (info_with dialect guid)
unfolding Every negotiate_resp_body copy_at
bodies-Agree dialect now =
    every 16 (λ guid. Agree (negotiate_resp_body dialect guid now) (info_with dialect guid))
      (λ a b c d e f g h i j k l m n o p. record {
        capabilities = refl;
        server_guid = refl;
        security_mode = refl;
        dialect = refl;
      })

drop-ioctl_body : (code : ℕ) (id out : Bytes) → drop 48 (ioctl_body code id out) ≡ out
unfolding ioctl_body
drop-ioctl_body code id out =
    let b1 = copy_at (put32 (put16 (zeros 48) 0 49) 4 code) 8 id in
    let head = put32 (put32 b1 32 (smb2_header_size + 48)) 36 (length out) in
    let size : length head ≡ 48 =
      length-put32 (put32 b1 32 (smb2_header_size + 48)) 36 (length out)
      ∙ length-put32 b1 32 (smb2_header_size + 48)
      ∙ length-copy_at (put32 (put16 (zeros 48) 0 49) 4 code) 8 id in
    ap (λ n. drop n (head ++ out)) (sym size) ∙ drop-append head out

validate_info-Agree :
    {W H : Type 0} (env : Env W H) (dialect : ℕ)
    → length env.server_guid ≡ 16
    → Agree (negotiate_resp_body dialect env.server_guid env.now) (validate_info env dialect)
unfolding validate_info
validate_info-Agree env dialect g = bodies-Agree dialect env.now env.server_guid g

-- When NEGOTIATE settles on a dialect, a VALIDATE_NEGOTIATE_INFO in any later state of the connection
-- that has this dialect succeeds, and what it answers behind its header of 48 bytes agrees with the
-- NEGOTIATE response in all the fields that the client compares: its capabilities, the server's
-- identity, the security mode and the dialect. The identity of the server has 16 bytes.
pub handle_ioctl-Agree :
    {W H : Type 0} (env : Env W H) (hello check : Bytes) (dialect : ℕ) (s later : State W H)
    → length env.server_guid ≡ 16
    → choose_dialect hello ≡ some dialect
    → later.conn.dialect ≡ (handle_negotiate env hello s).state.conn.dialect
    → 56 ≤ length check
    → u32 check 4 ≡ fsctl_validate_negotiate_info
    → ((handle_ioctl env check later).status ≡ Status.success)
      × Agree (handle_negotiate env hello s).body (drop 48 (handle_ioctl env check later).body)
unfolding handle_negotiate handle_ioctl
handle_ioctl-Agree env hello check dialect s later g chosen kept long code =
    let id = slice check 8 16 in
    let settled : (handle_negotiate env hello s).state.conn.dialect ≡ dialect =
      ground (arith, chosen) in
    let said : (handle_negotiate env hello s).body
        ≡ negotiate_resp_body dialect env.server_guid env.now =
      ground (arith, chosen) in
    let status : (handle_ioctl env check later).status ≡ Status.success =
      ground (arith, long, code) in
    let body : (handle_ioctl env check later).body
        ≡ ioctl_body (u32 check 4) id (validate_info env later.conn.dialect) =
      ground (arith, long, code) in
    let answer : drop 48 (handle_ioctl env check later).body ≡ validate_info env dialect =
      ap (drop 48) body
      ∙ drop-ioctl_body (u32 check 4) id (validate_info env later.conn.dialect)
      ∙ ap (validate_info env) (kept ∙ settled) in
    (
      status,
      subst (λ b. Agree b (drop 48 (handle_ioctl env check later).body)) (sym said)
          (subst (Agree (negotiate_resp_body dialect env.server_guid env.now)) (sym answer)
            (validate_info-Agree env dialect g)),
    )
