-- ===== src/Dispatch/Pipeline/Halts.antt =====
-- A connection comes to its end: the reader and the writer of internal/smb/server.go never wait for
-- each other forever.
use portable_smb_server.Base.{
  ℕ, zero, suc, ◌+◌, ◌*◌, ◌<◌, ◌≤◌, Bool, true, false, List, [], ◌∷◌, ◌≡◌, ◌≢◌, refl, sym, ◌∙◌, ap,
  length, length-append, ltb, ltb→lt, Bool-cases, ◌⊎◌, inl, inr, arith,
}
use portable_smb_server.Wire.{Bytes}
use portable_smb_server.Conn.{Env, State}
use portable_smb_server.Dispatch.Pipeline.{
  outbound_depth, Reader, waiting, handing, closed, finished, Writer, idle, sending, draining, done,
  gone, Pipe, Step, reads, ends, hands, takes, writes, fails, drains, stops, gives_up,
  finishes_done, finishes_gone, shuts, Reach, later,
}
use portable_smb_server.Dispatch.Pipeline.Delivery.{Delivered, writer_ended, reader_ended}
use portable_smb_server.Dispatch.Pipeline.Ends.{Reach-Delivered, not_both}

-- all steps but that of another message, and that of Shutdown
abbrev pub is_quiet : {W H : Type 0} {env : Env W H} {p q : Pipe W H} → Step env p q → Bool
is_quiet (reads msg r o) = false
is_quiet shuts = false
is_quiet (ends r) = true
is_quiet (hands out r l) = true
is_quiet (takes msg rest w q) = true
is_quiet (writes msg w o) = true
is_quiet (fails msg w) = true
is_quiet (drains msg rest w q) = true
is_quiet (stops w r q) = true
is_quiet (gives_up w r q) = true
is_quiet (finishes_done r w) = true
is_quiet (finishes_gone r w) = true

abbrev pub reader_work : Reader → ℕ
reader_work waiting = 2
reader_work (handing out) = 7
reader_work closed = 1
reader_work finished = 0

abbrev pub writer_work : Writer → ℕ
writer_work idle = 1
writer_work (sending msg) = 4
writer_work draining = 1
writer_work done = 0
writer_work gone = 0

abbrev pub work : {W H : Type 0} → Pipe W H → ℕ
work p = 4 * length p.queue + reader_work p.reader + writer_work p.writer

-- From here on, with no message more, every order of steps comes to the end, and none stops before it.
pub data Halts {W H : Type 0} (env : Env W H) : Pipe W H → Type 0 where
  at_end : {p : Pipe W H} → p.reader ≡ finished → Halts env p
  goes_on :
      {p : Pipe W H}
      → (q : Pipe W H) (st : Step env p q) → is_quiet st ≡ true
      → ((r : Pipe W H) (st : Step env p r) → is_quiet st ≡ true → Halts env r)
      → Halts env p

module _ {W H : Type 0} (env : Env W H) where
  quiet_works : {p q : Pipe W H} (st : Step env p q) → is_quiet st ≡ true → work q < work p
  quiet_works (reads msg r o) e = ground arith
  quiet_works shuts e = ground arith
  quiet_works (ends r) e = omega (arith, ap reader_work r)
  quiet_works {p} (hands out r l) e =
      omega (arith, ap reader_work r, length-append p.queue (out ∷ []))
  quiet_works (takes msg rest w q) e =
      omega (arith, ap writer_work w, ap (λ l. length {A = Bytes} l) q)
  quiet_works (writes msg w o) e = omega (arith, ap writer_work w)
  quiet_works (fails msg w) e = omega (arith, ap writer_work w)
  quiet_works (drains msg rest w q) e = omega (arith, ap (λ l. length {A = Bytes} l) q)
  quiet_works (stops w r q) e = omega (arith, ap writer_work w)
  quiet_works (gives_up w r q) e = omega (arith, ap writer_work w)
  quiet_works (finishes_done r w) e = omega (arith, ap reader_work r)
  quiet_works (finishes_gone r w) e = omega (arith, ap reader_work r)

  -- a step that can be made now
  record Next (p : Pipe W H) : Type 0 where
    to : Pipe W H
    step : Step env p to
    quiet : is_quiet step ≡ true

  -- the writer, where something waits in the channel
  writer_goes_on :
      (p : Pipe W H) (msg : Bytes) (rest : List Bytes) (w : Writer)
      → p.writer ≡ w
      → p.queue ≡ msg ∷ rest
      → (w ≢ done)
      → (w ≢ gone)
      → Next p
  writer_goes_on p msg rest idle e q h k = record {
    to = _;
    step = takes msg rest e q;
    quiet = refl;
  }
  writer_goes_on p msg rest (sending m) e q h k = record { to = _; step = fails m e; quiet = refl }
  writer_goes_on p msg rest draining e q h k = record {
    to = _;
    step = drains msg rest e q;
    quiet = refl;
  }
  writer_goes_on p msg rest done e q h k = absurd (h refl)
  writer_goes_on p msg rest gone e q h k = absurd (k refl)

  closed_goes_on :
      (p : Pipe W H) (w : Writer) (q : List Bytes)
      → p.reader ≡ closed
      → p.writer ≡ w
      → p.queue ≡ q
      → Next p
  closed_goes_on p idle [] r e q = record { to = _; step = stops e r q; quiet = refl }
  closed_goes_on p idle (msg ∷ rest) r e q = record {
    to = _;
    step = takes msg rest e q;
    quiet = refl;
  }
  closed_goes_on p (sending m) qs r e q = record { to = _; step = fails m e; quiet = refl }
  closed_goes_on p draining [] r e q = record { to = _; step = gives_up e r q; quiet = refl }
  closed_goes_on p draining (msg ∷ rest) r e q = record {
    to = _;
    step = drains msg rest e q;
    quiet = refl;
  }
  closed_goes_on p done qs r e q = record { to = _; step = finishes_done r e; quiet = refl }
  closed_goes_on p gone qs r e q = record { to = _; step = finishes_gone r e; quiet = refl }

  module _ (s0 : State W H) where
    -- a reader that stands before the channel finds the writer at work
    not_ended :
        (p : Pipe W H) (out : Bytes) (w : Writer)
        → Delivered env s0 p
        → p.reader ≡ handing out
        → p.writer ≡ w
        → writer_ended w ≡ true
        → ⊥
    not_ended p out w d r e t =
        let (empty, over) = d.emptied (ap writer_ended e ∙ t) in
        not_both false refl (sym (ap reader_ended r) ∙ over)

    handing_goes_on :
        (p : Pipe W H) (out : Bytes) (q : List Bytes)
        → Delivered env s0 p
        → p.reader ≡ handing out
        → p.queue ≡ q
        → Next p
    handing_goes_on p out [] d r q = record {
      to = _;
      step = hands out r (omega (arith, ap (λ l. length {A = Bytes} l) q));
      quiet = refl;
    }
    handing_goes_on p out (msg ∷ rest) d r q =
        elim (Bool-cases (ltb (length p.queue) outbound_depth)) [
          | inl room ↦ record {
            to = _;
            step = hands out r (ltb→lt (length p.queue) outbound_depth room);
            quiet = refl;
          }
          | inr full ↦
              writer_goes_on p msg rest p.writer refl q (λ e. not_ended p out done d r e refl)
                (λ e. not_ended p out gone d r e refl)
        ]

    goes_on_or_ended :
        (p : Pipe W H) (r : Reader)
        → p.reader ≡ r
        → Delivered env s0 p
        → (p.reader ≡ finished) ⊎ Next p
    goes_on_or_ended p waiting e d = inr (record { to = _; step = ends e; quiet = refl })
    goes_on_or_ended p (handing out) e d = inr (handing_goes_on p out p.queue d e refl)
    goes_on_or_ended p closed e d = inr (closed_goes_on p p.writer p.queue e refl refl)
    goes_on_or_ended p finished e d = inl e

    Halts-within : (n : ℕ) (p : Pipe W H) → work p < n → Reach env s0 p → Halts env p
    Halts-within zero p h r = absurd (omega (arith, h))
    Halts-within (suc n) p h r =
        elim (goes_on_or_ended p p.reader refl (Reach-Delivered env s0 r)) [
          | inl e ↦ at_end e
          | inr k ↦
              goes_on k.to k.step k.quiet (λ q st quiet.
                Halts-within n q (omega (arith, h, quiet_works st quiet)) (later r st))
        ]

    -- The two goroutines of a connection never wait for each other: at every point that they can
    -- come to, whatever order they go on in, the connection reaches its end once no message comes
    -- any more, in finitely many steps, none of which is missing when it is needed. And the channel
    -- holds no more than its 8 responses.
    pub Reach-Halts :
        {p : Pipe W H} → Reach env s0 p → Halts env p × (length p.queue ≤ outbound_depth)
    Reach-Halts {p} r =
        (Halts-within (suc (work p)) p (omega arith) r, (Reach-Delivered env s0 r).fits)
