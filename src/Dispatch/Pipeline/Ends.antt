-- ===== src/Dispatch/Pipeline/Ends.antt =====
-- Every state that the two goroutines of a connection can come to, beside `serve` of Dispatch/Serve:
-- internal/smb/server.go.
use portable_smb_server.Base.{
  ◌<◌, Bool, true, false, List, [], ◌∷◌, ◌++◌, ◌≡◌, refl, sym, ◌∙◌, ap, ap₂, subst, length,
  append-nil, append_assoc, length-append, ◌⊎◌, inl, inr, arith,
}
use portable_smb_server.Wire.{Bytes}
use portable_smb_server.Conn.{Env, State}
use portable_smb_server.Dispatch.Serve.{serve_loop, serve, close_all_handles}
use portable_smb_server.Dispatch.Pipeline.{
  outbound_depth, waiting, handing, closed, finished, Writer, idle, sending, draining, done, gone,
  Pipe, receive, Step, reads, ends, hands, takes, writes, fails, drains, stops, gives_up,
  finishes_done, finishes_gone, shuts, Reach, begin, later,
}
use portable_smb_server.Dispatch.Pipeline.Delivery.{
  Delivered, responses, pending, in_hand, History, continue, waiting_at, at_reader, at_writer,
  at_queue, start-Delivered, receive-Delivered, writer_ended, intact,
}

pub not_both : (b : Bool) → b ≡ false → b ≡ true → ⊥
not_both b p q = ground arith

module _ {W H : Type 0} (env : Env W H) (s0 : State W H) where
  -- The steps, from pipes whose reader, writer or queue is the one that the step asks for.
  ends-Delivered :
      (p : Pipe W H)
      → Delivered env s0 (waiting_at env s0 p)
      → Delivered env s0 (record p { reader = closed })
  unfolding serve_loop
  ends-Delivered p d = record {
    lost = d.lost;
    history =
        ap (λ ms. serve_loop env ms s0) (sym (append-nil p.read))
        ∙ d.history []
        ∙ ap (λ outs. (p.state, outs)) (append-nil (responses d.lost (waiting_at env s0 p)));
    nothing_lost = d.nothing_lost;
    fits = d.fits;
    emptied = λ w. ((d.emptied w).0, refl);
    last = λ q. ground arith;
  }

  hands-Delivered :
      (p : Pipe W H) (out : Bytes)
      → length p.queue < outbound_depth
      → Delivered env s0 (record p { reader = handing out })
      → Delivered env s0 (record p { queue = p.queue ++ (out ∷ []); reader = waiting })
  hands-Delivered p out room d = record {
    lost = d.lost;
    history = λ more.
        d.history more
        ∙ ap (λ q. continue env s0 p.state (p.wire ++ (d.lost ++ (in_hand p.writer ++ q))) more)
            (sym (append-nil (p.queue ++ (out ∷ []))));
    nothing_lost = d.nothing_lost;
    fits = omega (arith, room, length-append p.queue (out ∷ []));
    emptied = λ w. absurd (not_both false refl (d.emptied w).1);
    last = λ q. ground arith;
  }

  takes-Delivered :
      (p : Pipe W H) (msg : Bytes) (rest : List Bytes)
      → Delivered env s0 (record p { writer = idle; queue = msg ∷ rest })
      → Delivered env s0 (record p { writer = sending msg; queue = rest })
  takes-Delivered p msg rest d = record {
    lost = d.lost;
    history = d.history;
    nothing_lost = d.nothing_lost;
    fits = let f = d.fits in omega (arith, f);
    emptied = λ w. absurd (not_both false refl w);
    last = d.last;
  }

  writes-Delivered :
      (p : Pipe W H) (msg : Bytes)
      → Delivered env s0 (record p { writer = sending msg })
      → Delivered env s0 (record p { wire = p.wire ++ (msg ∷ []); writer = idle })
  writes-Delivered p msg d =
      let none_lost = d.nothing_lost refl in
      let rest = p.queue ++ pending p.reader in
      record {
        lost = [];
        history =
            subst (λ outs. History env s0 p.read p.state outs p.reader)
              (ap (λ l. p.wire ++ (l ++ (msg ∷ rest))) none_lost
                ∙ sym (append_assoc p.wire (msg ∷ []) rest))
              d.history;
        nothing_lost = λ _. refl;
        fits = d.fits;
        emptied = λ w. absurd (not_both false refl w);
        last = d.last;
      }

  fails-Delivered :
      (p : Pipe W H) (msg : Bytes)
      → Delivered env s0 (record p { writer = sending msg })
      → Delivered env s0 (record p { writer = draining; is_open = false })
  fails-Delivered p msg d =
      let rest = p.queue ++ pending p.reader in
      record {
        lost = d.lost ++ (msg ∷ []);
        history =
            subst (λ outs. History env s0 p.read p.state outs p.reader)
              (ap (λ l. p.wire ++ l) (sym (append_assoc d.lost (msg ∷ []) rest))) d.history;
        nothing_lost = λ w. absurd (not_both false refl w);
        fits = d.fits;
        emptied = λ w. absurd (not_both false refl w);
        last = d.last;
      }

  drains-Delivered :
      (p : Pipe W H) (msg : Bytes) (rest : List Bytes)
      → Delivered env s0 (record p { writer = draining; queue = msg ∷ rest })
      → Delivered env s0 (record p { writer = draining; queue = rest })
  drains-Delivered p msg rest d = record {
    lost = d.lost ++ (msg ∷ []);
    history =
        subst (λ outs. History env s0 p.read p.state outs p.reader)
          (ap (λ l. p.wire ++ l) (sym (append_assoc d.lost (msg ∷ []) (rest ++ pending p.reader))))
          d.history;
    nothing_lost = λ w. absurd (not_both false refl w);
    fits = let f = d.fits in omega (arith, f);
    emptied = λ w. absurd (not_both false refl w);
    last = d.last;
  }

  stops-Delivered :
      (p : Pipe W H)
      → Delivered env s0 (record p { writer = idle; reader = closed; queue = [] })
      → Delivered env s0 (record p { writer = done; reader = closed; queue = [] })
  stops-Delivered p d = record {
    lost = d.lost;
    history = d.history;
    nothing_lost = d.nothing_lost;
    fits = d.fits;
    emptied = λ w. (refl, refl);
    last = λ _. refl;
  }

  gives_up-Delivered :
      (p : Pipe W H)
      → Delivered env s0 (record p { writer = draining; reader = closed; queue = [] })
      → Delivered env s0 (record p { writer = gone; reader = closed; queue = [] })
  gives_up-Delivered p d = record {
    lost = d.lost;
    history = d.history;
    nothing_lost = d.nothing_lost;
    fits = d.fits;
    emptied = λ w. (refl, refl);
    last = λ _. refl;
  }

  finishes-Delivered :
      (p : Pipe W H) (w : Writer)
      → (w ≡ done) ⊎ (w ≡ gone)
      → Delivered env s0 (record p { reader = closed; writer = w })
      → Delivered env s0 (record p {
        state = close_all_handles p.state;
        reader = finished;
        writer = w;
        is_open = false;
      })
  unfolding serve
  finishes-Delivered p w e d = record {
    lost = d.lost;
    history = ap (λ (r : State W H × List Bytes). (close_all_handles r.0, r.1)) d.history;
    nothing_lost = d.nothing_lost;
    fits = d.fits;
    emptied = λ t. ((d.emptied t).0, refl);
    last = λ _. ended e;
  }
    where
      ended : (w ≡ done) ⊎ (w ≡ gone) → writer_ended w ≡ true
      ended (inl q) = ap writer_ended q
      ended (inr q) = ap writer_ended q

  shuts-Delivered :
      (p : Pipe W H) → Delivered env s0 p → Delivered env s0 (record p { is_open = false })
  shuts-Delivered p d = record {
    lost = d.lost;
    history = d.history;
    nothing_lost = d.nothing_lost;
    fits = d.fits;
    emptied = d.emptied;
    last = d.last;
  }

  Step-Delivered : {p q : Pipe W H} → Step env p q → Delivered env s0 p → Delivered env s0 q
  Step-Delivered {p} (reads msg r o) =
      at_reader env s0 (λ x. record (receive env msg x) { read = p.read ++ (msg ∷ []) }) p r
        (receive-Delivered env s0 p msg)
  Step-Delivered {p} (ends r) =
      at_reader env s0 (λ x. record x { reader = closed }) p r (ends-Delivered p)
  Step-Delivered {p} (hands out r room) =
      at_reader env s0 (λ x. record x { queue = p.queue ++ (out ∷ []); reader = waiting }) p r
        (hands-Delivered p out room)
  Step-Delivered {p} (takes msg rest w q) =
      let f = λ (x : Pipe W H). record x { queue = rest; writer = sending msg } in
      at_writer env s0 f p w
        (at_queue env s0 f (record p { writer = idle }) q (takes-Delivered p msg rest))
  Step-Delivered {p} (writes msg w o) =
      at_writer env s0 (λ x. record x { wire = p.wire ++ (msg ∷ []); writer = idle }) p w
        (writes-Delivered p msg)
  Step-Delivered {p} (fails msg w) =
      at_writer env s0 (λ x. record x { writer = draining; is_open = false }) p w
        (fails-Delivered p msg)
  Step-Delivered {p} (drains msg rest w q) =
      let f = λ (x : Pipe W H). record x { queue = rest } in
      at_writer env s0 f p w
        (at_queue env s0 f (record p { writer = draining }) q (drains-Delivered p msg rest))
  Step-Delivered {p} (stops w r q) =
      let f = λ (x : Pipe W H). record x { writer = done } in
      at_writer env s0 f p w (
        at_reader env s0 f (record p { writer = idle }) r
          (at_queue env s0 f (record p { writer = idle; reader = closed }) q (stops-Delivered p)))
  Step-Delivered {p} (gives_up w r q) =
      let f = λ (x : Pipe W H). record x { writer = gone } in
      at_writer env s0 f p w (
        at_reader env s0 f (record p { writer = draining }) r
          (at_queue env s0 f (record p { writer = draining; reader = closed }) q
            (gives_up-Delivered p)))
  Step-Delivered {p} (finishes_done r w) =
      at_reader env s0
        (λ x. record x { state = close_all_handles p.state; reader = finished; is_open = false }) p
        r (finishes-Delivered p p.writer (inl w))
  Step-Delivered {p} (finishes_gone r w) =
      at_reader env s0
        (λ x. record x { state = close_all_handles p.state; reader = finished; is_open = false }) p
        r (finishes-Delivered p p.writer (inr w))
  Step-Delivered {p} shuts = shuts-Delivered p

  pub Reach-Delivered : {p : Pipe W H} → Reach env s0 p → Delivered env s0 p
  Reach-Delivered begin = start-Delivered env s0
  Reach-Delivered (later r st) = Step-Delivered st (Reach-Delivered r)

  -- what a connection has come to at its end, and what of it went out
  pub record Ended (p : Pipe W H) : Type 0 where
    pub lost : List Bytes
    pub served : serve env p.read s0 ≡ (p.state, p.wire ++ lost)
    pub all_written : p.writer ≡ done → lost ≡ []

  nothing_in_hand : (w : Writer) → writer_ended w ≡ true → in_hand w ≡ []
  nothing_in_hand idle e = refl
  nothing_in_hand (sending m) e = absurd (not_both false refl e)
  nothing_in_hand draining e = refl
  nothing_in_hand done e = refl
  nothing_in_hand gone e = refl

  -- However the two goroutines of a connection take turns, and wherever the socket fails or is closed:
  -- at the end of the connection its state is the one that handling the messages that were read one after
  -- the other, and closing the handles, comes to; and what went out are the responses to these
  -- messages in their order, from the first on, and all of them if no write has failed.
  pub Reach-Ended : {p : Pipe W H} → Reach env s0 p → p.reader ≡ finished → Ended p
  Reach-Ended {p} r e =
      let d = Reach-Delivered r in
      let over = d.last e in
      let hand : in_hand p.writer ≡ [] = nothing_in_hand p.writer over in
      let left : d.lost ++ (in_hand p.writer ++ (p.queue ++ [])) ≡ d.lost =
        ap₂ (λ h q. d.lost ++ (h ++ (q ++ []))) hand (d.emptied over).0 ∙ append-nil d.lost in
      record {
        lost = d.lost;
        served =
            subst
              (λ x.
                History env s0 p.read p.state
                  (p.wire ++ (d.lost ++ (in_hand p.writer ++ (p.queue ++ pending x)))) x)
              e d.history
            ∙ ap (λ l. (p.state, p.wire ++ l)) left;
        all_written = λ w. d.nothing_lost (ap intact w);
      }
