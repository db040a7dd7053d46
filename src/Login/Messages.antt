-- ===== src/Login/Messages.antt =====
-- Commands, messages and a connection (internal/smb/server.go) before a client has logged on.
use portable_smb_server.Base.{
  ℕ, Bool, true, false, Option, none, some, List, [], ◌∷◌, ltb, if◌then◌else◌, length, ◌≡◌, refl,
  sym, ap, ◌⊎◌, inl, inr, if_lem, Option_lem, arith, subst,
}
use portable_smb_server.Wire.{Bytes, smb2_header_size}
use portable_smb_server.Packet.{Header, Command, command_of, parse_header}
use portable_smb_server.Packet
use portable_smb_server.Path.{is_empty}
use portable_smb_server.Conn.{Env, State, mem}
use portable_smb_server.Dispatch.Command.{
  ChainCtx, Step, Handled, run, run_session_setup, handle_command, needs_session, bad_signature,
  enter, command_body, empty_chain, respond, is_pre_auth,
}
use portable_smb_server.Dispatch.Message.{
  Part, parts, run_parts, dispatch, Dispatched, invalid_header, no_response, response,
  is_smb1_negotiate,
}
use portable_smb_server.Dispatch.Serve.{emit, serve_loop}
use portable_smb_server.Login.{
  Untouched, Untouched-refl, Untouched-trans, Proof, setup_token, ProvesAt,
}
use portable_smb_server.Login.Setup.{handle_session_setup-Untouched, handle_negotiate-Untouched}

module _ {W H : Type 0} (env : Env W H) where
  module _ (user : is_empty env.user ≡ false) where
    abbrev RunUntouched : Command → Bytes → State W H → Option (Handled W H) → Type 0
    RunUntouched c body s none = Untouched s s
    RunUntouched c body s (some r) =
        Untouched s r.answer.state
        ⊎ (c ≡ Packet.session_setup) × Proof env s.conn.auth_challenge (setup_token body)

    run_untouched :
        (c : Command) (h : Header) (ctx : ChainCtx) (body : Bytes) (s : State W H)
        → s.conn.authed_sessions ≡ []
        → is_pre_auth c ≡ true
        → RunUntouched c body s (run env c h ctx body s)
    unfolding run run_session_setup
    run_untouched Packet.negotiate h ctx body s e p =
        inl (handle_negotiate-Untouched env user body s e)
    run_untouched Packet.session_setup h ctx body s e p =
        elim (handle_session_setup-Untouched env user h.session_id body s e) [
          | inl u ↦ inl u
          | inr q ↦ inr (refl, q)
        ]
    run_untouched _ h ctx body s e p = elim (false≢true p) [ ]
      where
        false≢true : false ≡ true → ⊥
        false≢true q = ground arith

    mem_none : (id : ℕ) (xs : List ℕ) → xs ≡ [] → mem id xs ≡ false
    mem_none id [] e = refl
    mem_none id (x ∷ xs) e = ground arith

    -- every command but the two of the handshake is refused
    needs_session_iff :
        (c : Command) (id : ℕ) (s : State W H)
        → s.conn.authed_sessions ≡ []
        → needs_session env c id s ≡ false
        → is_pre_auth c ≡ true
    unfolding needs_session
    needs_session_iff c id s e f = ground (arith, mem_none id s.conn.authed_sessions e, user)

    handle_command-Untouched :
        (p : Part) (ctx : ChainCtx) (s : State W H)
        → s.conn.authed_sessions ≡ []
        → Untouched s (handle_command env p.header p.bytes ctx s).state ⊎ ProvesAt env p ctx s
    unfolding handle_command
    handle_command-Untouched p ctx0 s e =
        let h = p.header in
        let ctx = enter h ctx0 in
        let command = command_of h.command in
        let P : Step W H → Type 0 = λ r. Untouched s r.state ⊎ ProvesAt env p ctx0 s in
        if_lem P (needs_session env command ctx.session_id s) (λ _. inl (Untouched-refl s e))
          (λ passes.
            if_lem P (bad_signature env h p.bytes s) (λ _. inl (Untouched-refl s e))
              (λ _.
                let body = command_body env h ctx p.bytes in
                go (run env command h ctx body s) (
                  run_untouched command h ctx body s e
                    (needs_session_iff command ctx.session_id s e passes))))
      where
        go :
            (r : Option (Handled W H))
            → RunUntouched
                (command_of p.header.command)
                (command_body env p.header (enter p.header ctx0) p.bytes)
                s
                r
            → Untouched s (
                Step.state (elim r [
                  | none ↦ record { state = s; chain = enter p.header ctx0; pdu = none }
                  | some r ↦ respond env p.header r
                ]))
              ⊎ ProvesAt env p ctx0 s
        go none u = inl u
        go (some r) (inl u) = inl u
        go (some r) (inr (c, q)) = inr (record { is_setup = c; proof = q })

  -- One of the commands, at the state in which it is handled, carries such a token.
  abbrev pub ProvedIn : List Part → ChainCtx → State W H → Type 0
  ProvedIn [] ctx s = ⊥
  ProvedIn (p ∷ ps) ctx s =
      let step = handle_command env p.header p.bytes ctx s in
      ProvesAt env p ctx s ⊎ ProvedIn ps step.chain step.state

  -- the state that a message leaves; one below the size of a header is skipped
  abbrev pub after : Bytes → State W H → State W H
  after msg s = if ltb (length msg) smb2_header_size then s else (dispatch env msg s).0

  -- One of the messages does.
  abbrev pub ProvedBy : List Bytes → State W H → Type 0
  ProvedBy [] s = ⊥
  ProvedBy (msg ∷ msgs) s = ProvedIn (parts msg) empty_chain s ⊎ ProvedBy msgs (after msg s)

  module _ (user : is_empty env.user ≡ false) where
    run_parts-Untouched :
        (ps : List Part) (ctx : ChainCtx) (s : State W H)
        → s.conn.authed_sessions ≡ []
        → Untouched s (run_parts env ps ctx s).0 ⊎ ProvedIn ps ctx s
    unfolding run_parts
    run_parts-Untouched [] ctx s e = inl (Untouched-refl s e)
    run_parts-Untouched (p ∷ ps) ctx s e = elim (handle_command-Untouched user p ctx s e) [
      | inr q ↦ inr (inl q)
      | inl u ↦
          let step = handle_command env p.header p.bytes ctx s in
          elim (run_parts-Untouched ps step.chain step.state u.no_session) [
            | inr q ↦ inr (inr q)
            | inl v ↦ inl (Untouched-trans s step.state _ u v)
          ]
    ]

    dispatch-Untouched :
        (msg : Bytes) (s : State W H)
        → s.conn.authed_sessions ≡ []
        → Untouched s (dispatch env msg s).0 ⊎ ProvedIn (parts msg) empty_chain s
    unfolding dispatch
    dispatch-Untouched msg s e =
        let P : State W H × Dispatched → Type 0 =
          λ r. Untouched s r.0 ⊎ ProvedIn (parts msg) empty_chain s in
        if_lem P (is_smb1_negotiate msg) (λ _. inl (Untouched-refl s e))
          (λ _.
            Option_lem P (parse_header msg) (inl (Untouched-refl s e))
              (λ _ _. run_parts-Untouched (parts msg) empty_chain s e))

    emit-Untouched :
        (d : Dispatched) (rest : State W H × List Bytes) (s t : State W H)
        → Untouched s rest.0
        → Untouched s t
        → Untouched s (emit env d rest t).0
    emit-Untouched invalid_header rest s t r u = u
    emit-Untouched no_response rest s t r u = r
    emit-Untouched (response out) (s1, outs) s t r u = r

    -- With a user configured, and until a client has proved that it knows the password, no message
    -- records a session, and none touches a backend, the open files or the connected shares: after
    -- any messages on a connection without a session, either all of these are as they were, or one
    -- of the messages holds a SESSION_SETUP whose token parses, names the user and carries a valid
    -- NTLMv2 proof for the challenge that the connection holds.
    pub serve_unauthenticated :
        (msgs : List Bytes) (s : State W H)
        → s.conn.authed_sessions ≡ []
        → Untouched s (serve_loop env msgs s).0 ⊎ ProvedBy msgs s
    unfolding serve_loop
    serve_unauthenticated [] s e = inl (Untouched-refl s e)
    serve_unauthenticated (msg ∷ msgs) s e =
        let d = dispatch env msg s in
        if_lem (λ (r : State W H × List Bytes). Untouched s r.0 ⊎ ProvedBy (msg ∷ msgs) s)
          (ltb (length msg) smb2_header_size)
          (λ short. elim (serve_unauthenticated msgs s e) [
            | inl u ↦ inl u
            | inr q ↦ inr (inr (subst (ProvedBy msgs) (sym (after_test true short)) q))
          ])
          (λ long. elim (dispatch-Untouched msg s e) [
            | inr q ↦ inr (inl q)
            | inl u ↦ elim (serve_unauthenticated msgs d.0 u.no_session) [
              | inr q ↦ inr (inr (subst (ProvedBy msgs) (sym (after_test false long)) q))
              | inl v ↦ inl (emit-Untouched d.1 _ s d.0 (Untouched-trans s d.0 _ u v) u)
            ]
          ])
      where
        after_test :
            (b : Bool)
            → ltb (length msg) smb2_header_size ≡ b
            → after msg s ≡ (if b then s else (dispatch env msg s).0)
        after_test b h = ap (λ c. if c then s else (dispatch env msg s).0) h
