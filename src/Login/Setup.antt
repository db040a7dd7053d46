-- ===== src/Login/Setup.antt =====
-- Lemmas for `portable_smb_server.Login`: SESSION_SETUP and NEGOTIATE of internal/smb/session.go and
-- negotiate.go without a proof.
use portable_smb_server.Base.{
  ℕ, Bool, false, none, some, [], ltb, ◌==◌, length, ◌≡◌, refl, sym, ◌⊎◌, inl, inr, Bool-cases,
  Option-cases, if_lem, Option_lem, arith, subst, ◌+◌, ◌%◌, ◌^◌,
}
use portable_smb_server.Wire.{Bytes}
use portable_smb_server.Path.{is_empty}
use portable_smb_server.Spnego.{ntlm_message_type, type_authenticate}
use portable_smb_server.Crypto.{NtlmAuthenticate, parse_ntlm_authenticate}
use portable_smb_server.Conn.{Env, State, Conn, Reply}
use portable_smb_server.Session.{
  token_of, is_raw_ntlm, proof_holds, authenticate, finish_setup, begin_setup, setup_round,
  setup_on, handle_session_setup, IdReply,
}
use portable_smb_server.Negotiate.{choose_dialect, handle_negotiate}
use portable_smb_server.Login.{Untouched, Untouched-refl, Proof, setup_token}

module _ {W H : Type 0} (env : Env W H) where
  module _ (user : is_empty env.user ≡ false) where
    authenticate_unparsed :
        (token : Bytes) (c : Conn W H)
        → parse_ntlm_authenticate token ≡ none
        → authenticate env token c ≡ none
    unfolding authenticate
    authenticate_unparsed token c e = ground arith

    authenticate_refused :
        (token : Bytes) (c : Conn W H) (auth : NtlmAuthenticate)
        → parse_ntlm_authenticate token ≡ some auth
        → proof_holds env c.auth_challenge auth ≡ false
        → authenticate env token c ≡ none
    unfolding authenticate
    authenticate_refused token c auth e f = ground arith

    finish_setup-none :
        (raw : Bool) (token : Bytes) (id : ℕ) (s : State W H)
        → authenticate env token s.conn ≡ none
        → (finish_setup env raw token id s).state ≡ s
    unfolding finish_setup
    finish_setup-none raw token id s e = ground arith

    finish_setup-Untouched :
        (raw : Bool) (token : Bytes) (id : ℕ) (s : State W H)
        → s.conn.authed_sessions ≡ []
        → Untouched s (finish_setup env raw token id s).state
          ⊎ Proof env s.conn.auth_challenge token
    finish_setup-Untouched raw token id s e =
        let refused : authenticate env token s.conn ≡ none
            → Untouched s (finish_setup env raw token id s).state =
          λ h.
            subst (Untouched s) (sym (finish_setup-none raw token id s h)) (Untouched-refl s e) in
        elim (Option-cases (parse_ntlm_authenticate token)) [
          | inl unparsed ↦ inl (refused (authenticate_unparsed token s.conn unparsed))
          | inr (auth, parsed) ↦ elim (Bool-cases (proof_holds env s.conn.auth_challenge auth)) [
            | inl holds ↦ inr (record { auth = auth; parsed = parsed; holds = holds })
            | inr fails ↦ inl (refused (authenticate_refused token s.conn auth parsed fails))
          ]
        ]

    begin_setup-Untouched :
        (raw : Bool) (s : State W H)
        → s.conn.authed_sessions ≡ []
        → Untouched s (begin_setup env raw s).state
    unfolding begin_setup
    begin_setup-Untouched raw s e = record {
      no_session = e;
      same_world = refl;
      same_handles = refl;
      same_disk_trees = refl;
      same_pipe_trees = refl;
    }

    setup_round-Untouched :
        (sec_buf : Bytes) (id : ℕ) (s : State W H)
        → s.conn.authed_sessions ≡ []
        → Untouched s (setup_round env sec_buf id s).answer.state
          ⊎ Proof env s.conn.auth_challenge (token_of sec_buf)
    unfolding setup_round
    setup_round-Untouched sec_buf id s e =
        if_lem
          (λ (r : IdReply W H).
            Untouched s r.answer.state ⊎ Proof env s.conn.auth_challenge (token_of sec_buf))
          (ntlm_message_type (token_of sec_buf) == type_authenticate)
          (λ _. finish_setup-Untouched (is_raw_ntlm sec_buf) (token_of sec_buf) id s e)
          (λ _. inl (begin_setup-Untouched (is_raw_ntlm sec_buf) s e))

    -- the session id that is drawn changes a counter alone
    setup_on-Untouched :
        (sec_buf : Bytes) (id : ℕ) (s : State W H)
        → s.conn.authed_sessions ≡ []
        → Untouched s (setup_on env sec_buf id s).answer.state
          ⊎ Proof env s.conn.auth_challenge (token_of sec_buf)
    unfolding setup_on
    setup_on-Untouched sec_buf id s e =
        if_lem
          (λ (r : ℕ × State W H).
            Untouched s (setup_round env sec_buf r.0 r.1).answer.state
            ⊎ Proof env s.conn.auth_challenge (token_of sec_buf))
          (id == 0)
          (λ _.
            elim (setup_round-Untouched sec_buf _
              (record s { session_ctr = (s.session_ctr + 1) % 2 ^ 64 }) e) [
                | inl u ↦ inl (record {
                  no_session = u.no_session;
                  same_world = u.same_world;
                  same_handles = u.same_handles;
                  same_disk_trees = u.same_disk_trees;
                  same_pipe_trees = u.same_pipe_trees;
                })
                | inr p ↦ inr p
              ])
          (λ _. setup_round-Untouched sec_buf id s e)

    pub handle_session_setup-Untouched :
        (id : ℕ) (body : Bytes) (s : State W H)
        → s.conn.authed_sessions ≡ []
        → Untouched s (handle_session_setup env id body s).answer.state
          ⊎ Proof env s.conn.auth_challenge (setup_token body)
    unfolding handle_session_setup
    handle_session_setup-Untouched id body s e =
        if_lem
          (λ (r : IdReply W H).
            Untouched s r.answer.state ⊎ Proof env s.conn.auth_challenge (setup_token body))
          (ltb (length body) 24) (λ _. inl (Untouched-refl s e)) (λ _. setup_on-Untouched _ id s e)

    pub handle_negotiate-Untouched :
        (body : Bytes) (s : State W H)
        → s.conn.authed_sessions ≡ []
        → Untouched s (handle_negotiate env body s).state
    unfolding handle_negotiate
    handle_negotiate-Untouched body s e =
        Option_lem (λ (r : Reply W H). Untouched s r.state) (choose_dialect body)
          (Untouched-refl s e)
          (λ d _. record {
            no_session = e;
            same_world = refl;
            same_handles = refl;
            same_disk_trees = refl;
            same_pipe_trees = refl;
          })
