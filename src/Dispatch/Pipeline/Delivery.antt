-- ===== src/Dispatch/Pipeline/Delivery.antt =====
-- The two goroutines of a connection beside `serve` of Dispatch/Serve, which handles one message after
-- the other: internal/smb/server.go.
use portable_smb_server.Base.{
  ◌≤◌, Bool, true, false, List, [], ◌∷◌, ◌++◌, ◌≡◌, refl, sym, ◌∙◌, ap, subst, ltb, if◌then◌else◌,
  if_lem, length, append-nil, append_assoc, arith,
}
use portable_smb_server.Wire.{Bytes, smb2_header_size}
use portable_smb_server.Conn.{Env, State}
use portable_smb_server.Dispatch.Message.{
  dispatch, Dispatched, invalid_header, no_response, response,
}
use portable_smb_server.Dispatch.Serve.{serve_loop, serve, emit}
use portable_smb_server.Dispatch.Pipeline.{
  outbound_depth, Reader, waiting, handing, closed, finished, Writer, sending, draining, done, gone,
  Pipe, after_dispatch, receive, start,
}

-- a response on its way from the reader to the channel, or from the channel to the socket
abbrev pub pending : Reader → List Bytes
pending (handing out) = out ∷ []
pending _ = []

abbrev pub in_hand : Writer → List Bytes
in_hand (sending msg) = msg ∷ []
in_hand _ = []

-- no write has failed
abbrev pub intact : Writer → Bool
intact draining = false
intact gone = false
intact _ = true

abbrev pub writer_ended : Writer → Bool
writer_ended done = true
writer_ended gone = true
writer_ended _ = false

abbrev pub reader_ended : Reader → Bool
reader_ended closed = true
reader_ended finished = true
reader_ended _ = false

-- every response so far, in order; `lost` were taken from the channel and not written
abbrev pub responses : {W H : Type 0} → List Bytes → Pipe W H → List Bytes
responses lost p = p.wire ++ (lost ++ (in_hand p.writer ++ (p.queue ++ pending p.reader)))

module _ {W H : Type 0} (env : Env W H) (s0 : State W H) where
  abbrev pub continue : State W H → List Bytes → List Bytes → State W H × List Bytes
  continue s outs more = let (s1, rest) = serve_loop env more s in (s1, outs ++ rest)

  -- what the messages read so far come to
  abbrev pub History : List Bytes → State W H → List Bytes → Reader → Type 0
  History read s outs waiting =
      (more : List Bytes) → serve_loop env (read ++ more) s0 ≡ continue s outs more
  History read s outs (handing _) =
      (more : List Bytes) → serve_loop env (read ++ more) s0 ≡ continue s outs more
  History read s outs closed = serve_loop env read s0 ≡ (s, outs)
  History read s outs finished = serve env read s0 ≡ (s, outs)

  pub record Delivered (p : Pipe W H) : Type 0 where
    pub lost : List Bytes
    pub history : History p.read p.state (responses lost p) p.reader
    pub nothing_lost : intact p.writer ≡ true → lost ≡ []
    pub fits : length p.queue ≤ outbound_depth
    pub emptied : writer_ended p.writer ≡ true → (p.queue ≡ []) × (reader_ended p.reader ≡ true)
    pub last : p.reader ≡ finished → writer_ended p.writer ≡ true

  pub start-Delivered : Delivered (start s0)
  start-Delivered = record {
    lost = [];
    history = λ more. refl;
    nothing_lost = λ _. refl;
    fits = omega arith;
    emptied = λ e. ground arith;
    last = λ e. ground arith;
  }

  -- A message more: what is left to be handled is handled from the new state.
  abbrev Next : Bytes → State W H → List Bytes → List Bytes → Type 0
  Next msg s outs read =
      (more : List Bytes)
      → serve_loop env ((read ++ (msg ∷ [])) ++ more) s0 ≡ continue s outs (msg ∷ more)

  snoc :
      (read : List Bytes) (msg : Bytes) (s : State W H) (outs : List Bytes)
      → History read s outs waiting
      → Next msg s outs read
  snoc read msg s outs h more =
      ap (λ ms. serve_loop env ms s0) (append_assoc read (msg ∷ []) more) ∙ h (msg ∷ more)

  -- A step that is known to start with a certain reader, writer or queue.
  pub at_reader :
      (f : Pipe W H → Pipe W H) (p : Pipe W H) {r : Reader}
      → p.reader ≡ r
      → (Delivered (record p { reader = r }) → Delivered (f (record p { reader = r })))
      → Delivered p
      → Delivered (f p)
  at_reader f p e g d =
      subst (λ x. Delivered (record p { reader = x }) → Delivered (f (record p { reader = x })))
        (sym e) g d

  pub at_writer :
      (f : Pipe W H → Pipe W H) (p : Pipe W H) {w : Writer}
      → p.writer ≡ w
      → (Delivered (record p { writer = w }) → Delivered (f (record p { writer = w })))
      → Delivered p
      → Delivered (f p)
  at_writer f p e g d =
      subst (λ x. Delivered (record p { writer = x }) → Delivered (f (record p { writer = x })))
        (sym e) g d

  pub at_queue :
      (f : Pipe W H → Pipe W H) (p : Pipe W H) {q : List Bytes}
      → p.queue ≡ q
      → (Delivered (record p { queue = q }) → Delivered (f (record p { queue = q })))
      → Delivered p
      → Delivered (f p)
  at_queue f p e g d =
      subst (λ x. Delivered (record p { queue = x }) → Delivered (f (record p { queue = x })))
        (sym e) g d

  -- the reader takes a response up
  responses-handing :
      (p : Pipe W H) (lost : List Bytes) (out : Bytes)
      → responses lost (record p { reader = handing out })
        ≡ responses lost (record p { reader = waiting }) ++ (out ∷ [])
  responses-handing p lost out = simp (append_assoc, append-nil)

  abbrev pub onto : List Bytes → State W H × List Bytes → State W H × List Bytes
  onto outs r = (r.0, outs ++ r.1)

  loop_short :
      (msg : Bytes) (more : List Bytes) (s : State W H)
      → ltb (length msg) smb2_header_size ≡ true
      → serve_loop env (msg ∷ more) s ≡ serve_loop env more s
  unfolding serve_loop
  loop_short msg more s h = ground (arith, h)

  loop_long :
      (msg : Bytes) (more : List Bytes) (s s1 : State W H) (o : Dispatched)
      → ltb (length msg) smb2_header_size ≡ false
      → dispatch env msg s ≡ (s1, o)
      → serve_loop env (msg ∷ more) s ≡ emit env o (serve_loop env more s1) s1
  unfolding serve_loop
  loop_long msg more s s1 o h e =
      ap
        (λ b.
          if b
          then serve_loop env more s
          else emit env (dispatch env msg s).1 (serve_loop env more (dispatch env msg s).0)
              (dispatch env msg s).0)
        h
      ∙ ap (λ (r : State W H × Dispatched). emit env r.1 (serve_loop env more r.0) r.0) e

  abbrev pub waiting_at : Pipe W H → Pipe W H
  waiting_at p = record p { reader = waiting }

  -- a message more has been read, and its response is at hand
  one_more :
      (p : Pipe W H) (msg : Bytes) (d : Delivered (waiting_at p)) (s1 : State W H) (o : Dispatched)
      → ltb (length msg) smb2_header_size ≡ false
      → dispatch env msg p.state ≡ (s1, o)
      → (more : List Bytes)
      → serve_loop env ((p.read ++ (msg ∷ [])) ++ more) s0
        ≡ onto (responses d.lost (waiting_at p)) (emit env o (serve_loop env more s1) s1)
  one_more p msg d s1 o long e more =
      snoc p.read msg p.state (responses d.lost (waiting_at p)) d.history more
      ∙ ap (onto (responses d.lost (waiting_at p))) (loop_long msg more p.state s1 o long e)

  dispatch-Delivered :
      (p : Pipe W H) (msg : Bytes) (d : Delivered (waiting_at p)) (s1 : State W H) (o : Dispatched)
      → ltb (length msg) smb2_header_size ≡ false
      → dispatch env msg p.state ≡ (s1, o)
      → Delivered
          (record (after_dispatch env (waiting_at p) (s1, o)) { read = p.read ++ (msg ∷ []) })
  dispatch-Delivered p msg d s1 invalid_header long e = record {
    lost = d.lost;
    history =
        ap (λ ms. serve_loop env ms s0) (sym (append-nil (p.read ++ (msg ∷ []))))
        ∙ one_more p msg d s1 invalid_header long e []
        ∙ ap (λ outs. (s1, outs)) (append-nil (responses d.lost (waiting_at p)));
    nothing_lost = d.nothing_lost;
    fits = d.fits;
    emptied = λ w. ((d.emptied w).0, refl);
    last = λ q. ground arith;
  }
  dispatch-Delivered p msg d s1 no_response long e = record {
    lost = d.lost;
    history = one_more p msg d s1 no_response long e;
    nothing_lost = d.nothing_lost;
    fits = d.fits;
    emptied = d.emptied;
    last = d.last;
  }
  dispatch-Delivered p msg d s1 (response out) long e = record {
    lost = d.lost;
    history = λ more.
        one_more p msg d s1 (response out) long e more
        ∙ ap (λ outs. ((serve_loop env more s1).0, outs))
            (sym (
              append_assoc (responses d.lost (waiting_at p)) (out ∷ []) (serve_loop env more s1).1))
        ∙ ap (λ outs. continue s1 outs more) (sym (responses-handing p d.lost out));
    nothing_lost = d.nothing_lost;
    fits = d.fits;
    emptied = λ w. elim (not_waiting (d.emptied w).1) [ ];
    last = λ q. ground arith;
  }
    where
      not_waiting : false ≡ true → ⊥
      not_waiting q = ground (arith, q)

  pub receive-Delivered :
      (p : Pipe W H) (msg : Bytes)
      → Delivered (waiting_at p)
      → Delivered (record (receive env msg (waiting_at p)) { read = p.read ++ (msg ∷ []) })
  unfolding receive
  receive-Delivered p msg d =
      if_lem (λ q. Delivered (record q { read = p.read ++ (msg ∷ []) }))
        (ltb (length msg) smb2_header_size)
        (λ short. record {
          lost = d.lost;
          history = λ more.
              snoc p.read msg p.state (responses d.lost (waiting_at p)) d.history more
              ∙ ap (onto (responses d.lost (waiting_at p))) (loop_short msg more p.state short);
          nothing_lost = d.nothing_lost;
          fits = d.fits;
          emptied = d.emptied;
          last = d.last;
        })
        (λ long. dispatch-Delivered p msg d _ _ long refl)
