-- ===== src/Info/Truncation.antt =====
-- The length of a QUERY_INFO answer: the end of `handleQueryInfo` of internal/smb/info.go.
use portable_smb_server.Base.{
  ℕ, zero, suc, ◌∷◌, ltb→lt, take_all, All, ◌+◌, ◌≤◌, ◌<◌, ◌^◌, ◌≢◌, some, [], ltb, length, take,
  min, ◌≡◌, refl, sym, ◌∙◌, if_lem, Option_lem, arith, length-take, drop, ◌⊎◌, inl, inr,
}
use portable_smb_server.Wire.{Bytes, IsByte, u8, u32, slice}
use portable_smb_server.Packet.Status
use portable_smb_server.Conn.{OpenFile, Env, State, Reply, get_handle, fail}
use portable_smb_server.Info.Encode.{info_response_body}
use portable_smb_server.Info.Query.{query_info, answer_info, handle_query_info}

info_response_body_parts :
    (info : Bytes)
    → length info < 2 ^ 32
    → (u32 (info_response_body info) 4 ≡ length info) × (drop 8 (info_response_body info) ≡ info)
unfolding info_response_body
info_response_body_parts info h = (ground arith, refl)

module _ {W H : Type 0} (env : Env W H) where
  -- What QUERY_INFO promises of an answer that is no error: the open is there and has information
  -- of that class, and as much of it as the client has room for is sent and counted. The status
  -- says whether that is all of it.
  pub record InfoOk (body : Bytes) (s : State W H) (r : Reply W H) : Type 0 where
    pub of : OpenFile W H
    pub info : Bytes
    pub found : get_handle s (slice body 24 16) ≡ some of
    pub known : query_info env (u8 body 2) (u8 body 3) of s.world ≡ some info
    pub sent : drop 8 r.body ≡ take (u32 body 4) info
    pub counted : u32 r.body 4 ≡ min (u32 body 4) (length info)
    pub complete : r.status ≡ Status.success → length info ≤ u32 body 4
    pub cut : r.status ≡ Status.buffer_overflow → u32 body 4 < length info
    pub unchanged : r.state ≡ s

  abbrev IsAnswer : Reply W H → Type 0
  IsAnswer r = (r.status ≡ Status.success) ⊎ (r.status ≡ Status.buffer_overflow)

  u8-IsByte : (b : Bytes) (i : ℕ) → All IsByte b → u8 b i < 256
  u8-IsByte [] i p = omega arith
  u8-IsByte (x ∷ b) zero (px, p) = px
  u8-IsByte (x ∷ b) (suc i) (px, p) = u8-IsByte b i p

  u32-IsByte : (b : Bytes) (i : ℕ) → All IsByte b → u32 b i < 2 ^ 32
  u32-IsByte b i p = omega (
    arith,
    u8-IsByte b i p,
    u8-IsByte b (i + 1) p,
    u8-IsByte b (i + 2) p,
    u8-IsByte b (i + 2 + 1) p,
  )

  abbrev Promise : Bytes → State W H → Reply W H → Type 0
  Promise body s r = IsAnswer r → InfoOk body s r

  answer_info-InfoOk :
      (body info : Bytes) (s : State W H) (of : OpenFile W H)
      → All IsByte body
      → get_handle s (slice body 24 16) ≡ some of
      → query_info env (u8 body 2) (u8 body 3) of s.world ≡ some info
      → Promise body s (answer_info env s (u32 body 4) info)
  unfolding answer_info
  answer_info-InfoOk body info s of p found known =
      let out_len = u32 body 4 in
      let small : out_len < 2 ^ 32 = u32-IsByte body 4 p in
      if_lem (Promise body s) (ltb out_len (length info))
        (λ cut _.
          let long : out_len < length info = ltb→lt out_len (length info) cut in
          let size : length (take out_len info) ≡ min out_len (length info) =
            length-take out_len info in
          let (counted, sent) =
            info_response_body_parts (take out_len info) (omega (arith, size)) in
          record {
            of = of;
            info = info;
            found = found;
            known = known;
            sent = sent;
            counted = counted ∙ size;
            complete = λ e. ground arith;
            cut = λ _. long;
            unchanged = refl;
          })
        (λ fits _.
          let short : length info ≤ out_len = ground arith in
          let (counted, sent) = info_response_body_parts info (omega arith) in
          record {
            of = of;
            info = info;
            found = found;
            known = known;
            sent = sent ∙ sym (take_all out_len info short);
            counted = counted ∙ omega arith;
            complete = λ _. short;
            cut = λ e. ground arith;
            unchanged = refl;
          })

  no_answer :
      (body : Bytes) (s : State W H) (n : ℕ)
      → n ≢ Status.success
      → n ≢ Status.buffer_overflow
      → Promise body s (fail s n)
  no_answer body s n h k (inl e) = elim (h e) [ ]
  no_answer body s n h k (inr e) = elim (k e) [ ]

  -- Whatever a QUERY_INFO request of bytes asks for, an answer with STATUS_SUCCESS or
  -- STATUS_BUFFER_OVERFLOW carries the first bytes of the information of its open file, as many as
  -- the client has room for, and counts them; success says that nothing is missing, and overflow
  -- that something is. The state stays as it is.
  pub handle_query_info_answer :
      (body : Bytes) (s : State W H)
      → All IsByte body
      → IsAnswer (handle_query_info env body s)
      → InfoOk body s (handle_query_info env body s)
  unfolding handle_query_info
  handle_query_info_answer body s p =
      let P = Promise body s in
      let refused : P (fail s Status.invalid_parameter) =
        no_answer body s _ (λ e. ground arith) (λ e. ground arith) in
      if_lem P (ltb (length body) 40) (λ _. refused)
        (λ _. Option_lem P (get_handle s (slice body 24 16)) refused (λ of found.
          Option_lem P (query_info env (u8 body 2) (u8 body 3) of s.world)
            (no_answer body s _ (λ e. ground arith) (λ e. ground arith))
            (λ info known. answer_info-InfoOk body info s of p found known)))
