-- ===== src/Lifecycle/Invariant.antt =====
-- What holds of the server of internal/smb/server.go at every point: no connection escapes Shutdown.
use portable_smb_server.Base.{
  ℕ, ◌<◌, ◌≤◌, Bool, true, false, ◌||◌, List, [], ◌∷◌, ◌≡◌, refl, sym, ◌∙◌, ap, ◌==◌, if◌then◌else◌,
  arith,
}
use portable_smb_server.Conn.{mem, delete}
use portable_smb_server.Lifecycle.{
  next_delay, Serving, holding, Closer, before, locked, closing, returned, Server, Step, accepts,
  retries, shuts_again, stops, registers, rejects, hangs_up, leaves, finishes, locks, unlistens,
  closes, waits, start, Reach, begin, later,
}

-- the connections that Shutdown has still to close
abbrev pub to_close : Closer → List ℕ
to_close (locked cs) = cs
to_close (closing cs) = cs
to_close _ = []

abbrev pub has_locked : Closer → Bool
has_locked before = false
has_locked _ = true

abbrev pub has_unlistened : Closer → Bool
has_unlistened (closing cs) = true
has_unlistened returned = true
has_unlistened _ = false

abbrev pub has_returned : Closer → Bool
has_returned returned = true
has_returned _ = false

-- the connection that Serve has accepted and neither registered nor closed
abbrev pub is_held : ℕ → Serving → Bool
is_held c (holding d) = d == c
is_held c _ = false

pub record Orderly (s : Server) : Type 0 where
  pub same : s.conns ≡ s.live
  pub phase : has_locked s.closer ≡ s.is_closing
  pub covered :
      s.is_closing ≡ true
      → (c : ℕ) → mem c s.live ≡ true
      → (mem c (to_close s.closer) || mem c s.shut) ≡ true
  pub kept :
      (c : ℕ) → c < s.accepted → (mem c s.live || (mem c s.shut || is_held c s.serving)) ≡ true
  pub empty_live : has_returned s.closer ≡ true → s.live ≡ []
  pub empty_leaving : has_returned s.closer ≡ true → s.leaving ≡ []
  pub deaf : has_unlistened s.closer ≡ true → s.listening ≡ false
  pub patient : s.delay ≤ 1000

mem-delete : (a c : ℕ) (xs : List ℕ) → mem c (delete a xs) ≡ (if a == c then false else mem c xs)
mem-delete a c [] = ground arith
mem-delete a c (x ∷ xs) = ground (arith, mem-delete a c xs)

returned-locked : (c : Closer) → has_returned c ≡ true → has_locked c ≡ true
returned-locked before e = e
returned-locked (locked cs) e = refl
returned-locked (closing cs) e = refl
returned-locked returned e = refl

next_delay_le : (delay : ℕ) → next_delay delay ≤ 1000
unfolding next_delay
next_delay_le delay = ground arith

start-Orderly : Orderly start
start-Orderly = record {
  same = refl;
  phase = refl;
  covered = λ e c m. ground (arith, e);
  kept = λ c l. absurd (omega (arith, l));
  empty_live = λ e. refl;
  empty_leaving = λ e. refl;
  deaf = λ e. ground (arith, e);
  patient = omega arith;
}

Step-Orderly : {s t : Server} → Step s t → Orderly s → Orderly t
Step-Orderly {s} (accepts e l) o = record {
  same = o.same;
  phase = o.phase;
  covered = o.covered;
  kept = λ c less. ground (arith, o.kept c, ap (is_held c) e);
  empty_live = o.empty_live;
  empty_leaving = o.empty_leaving;
  deaf = o.deaf;
  patient = omega arith;
}
Step-Orderly {s} (shuts_again e) o = o
Step-Orderly {s} (retries e l) o = record {
  same = o.same;
  phase = o.phase;
  covered = o.covered;
  kept = o.kept;
  empty_live = o.empty_live;
  empty_leaving = o.empty_leaving;
  deaf = o.deaf;
  patient = next_delay_le s.delay;
}
Step-Orderly {s} (stops e l) o = record {
  same = o.same;
  phase = o.phase;
  covered = o.covered;
  kept = λ c less. ground (arith, o.kept c less, ap (is_held c) e);
  empty_live = o.empty_live;
  empty_leaving = o.empty_leaving;
  deaf = o.deaf;
  patient = o.patient;
}
Step-Orderly {s} (registers c e l) o = record {
  same = ap (λ xs. c ∷ xs) o.same;
  phase = o.phase;
  covered = λ k d m. ground (arith, k, l);
  kept = λ d less. ground (arith, o.kept d less, ap (is_held d) e);
  empty_live = λ r. ground (arith, returned-locked s.closer r, o.phase);
  empty_leaving = o.empty_leaving;
  deaf = o.deaf;
  patient = o.patient;
}
Step-Orderly {s} (rejects c e l) o = record {
  same = o.same;
  phase = o.phase;
  covered = λ k d m. ground (arith, o.covered k d m);
  kept = λ d less. ground (arith, o.kept d less, ap (is_held d) e);
  empty_live = o.empty_live;
  empty_leaving = o.empty_leaving;
  deaf = o.deaf;
  patient = o.patient;
}
Step-Orderly {s} (hangs_up c e) o = record {
  same = o.same;
  phase = o.phase;
  covered = λ k d m. ground (arith, o.covered k d m);
  kept = λ d less. ground (arith, o.kept d less);
  empty_live = o.empty_live;
  empty_leaving = o.empty_leaving;
  deaf = o.deaf;
  patient = o.patient;
}
Step-Orderly {s} (leaves c e l) o = record {
  same = ap (delete c) o.same;
  phase = o.phase;
  covered = λ k d m. ground (arith, o.covered k d, mem-delete c d s.live, m);
  kept = λ d less. ground (arith, o.kept d less, mem-delete c d s.live, l);
  empty_live = λ r. ap (delete c) (o.empty_live r);
  empty_leaving = λ r. ground (arith, ap (mem c) (o.empty_live r));
  deaf = o.deaf;
  patient = o.patient;
}
Step-Orderly {s} (finishes c rest e) o = record {
  same = o.same;
  phase = o.phase;
  covered = o.covered;
  kept = o.kept;
  empty_live = o.empty_live;
  empty_leaving = λ r. ground (arith, o.empty_leaving r);
  deaf = o.deaf;
  patient = o.patient;
}
Step-Orderly {s} (locks e) o = record {
  same = o.same;
  phase = refl;
  covered = λ k d m. ground (arith, ap (mem d) o.same);
  kept = o.kept;
  empty_live = λ r. ground (arith, r);
  empty_leaving = λ r. ground (arith, r);
  deaf = λ r. ground (arith, r);
  patient = o.patient;
}
Step-Orderly {s} (unlistens cs e) o = record {
  same = o.same;
  phase = sym (ap has_locked e) ∙ o.phase;
  covered = λ k d m. ground (arith, o.covered k d m, ap (λ x. mem d (to_close x)) e);
  kept = o.kept;
  empty_live = λ r. ground (arith, r);
  empty_leaving = λ r. ground (arith, r);
  deaf = λ r. refl;
  patient = o.patient;
}
Step-Orderly {s} (closes c cs e) o = record {
  same = o.same;
  phase = sym (ap has_locked e) ∙ o.phase;
  covered = λ k d m. ground (arith, o.covered k d m, ap (λ x. mem d (to_close x)) e);
  kept = λ d less. ground (arith, o.kept d less);
  empty_live = λ r. ground (arith, r);
  empty_leaving = λ r. ground (arith, r);
  deaf = λ r. o.deaf (ap has_unlistened e);
  patient = o.patient;
}
Step-Orderly {s} (waits e l m) o = record {
  same = o.same;
  phase = sym (ap has_locked e) ∙ o.phase;
  covered = λ k d x. ground (arith, ap (mem d) l);
  kept = o.kept;
  empty_live = λ r. l;
  empty_leaving = λ r. m;
  deaf = λ r. o.deaf (ap has_unlistened e);
  patient = o.patient;
}

Reach-Orderly : {s : Server} → Reach s → Orderly s
Reach-Orderly begin = start-Orderly
Reach-Orderly (later r st) = Step-Orderly st (Reach-Orderly r)

-- From the moment that Shutdown has taken its list of connections, and however it, the accept loop and
-- the goroutines of the connections go on: every connection that is still being served is on the list
-- or has its socket closed, so that none is left to itself.
pub Reach-covered :
    {s : Server}
    → Reach s
    → s.is_closing ≡ true
    → (c : ℕ) → mem c s.live ≡ true
    → (mem c (to_close s.closer) || mem c s.shut) ≡ true
Reach-covered r k c m = (Reach-Orderly r).covered k c m

-- nothing served, registered or listened to, and every socket closed
pub record Stopped (s : Server) : Type 0 where
  pub none_served : s.live ≡ []
  pub none_leaving : s.leaving ≡ []
  pub none_registered : s.conns ≡ []
  pub deaf : s.listening ≡ false
  pub all_shut : (c : ℕ) → c < s.accepted → (mem c s.shut || is_held c s.serving) ≡ true
  pub held_is_rejected : s.is_closing ≡ true

-- When Shutdown has returned, and from then on, no connection is served, none is registered, and
-- nothing listens; and every connection that was ever accepted has been closed, but for the one that
-- the accept loop may hold, which it closes in its next step.
pub Reach-Stopped : {s : Server} → Reach s → s.closer ≡ returned → Stopped s
Reach-Stopped {s} r e =
    let o = Reach-Orderly r in
    let over : has_returned s.closer ≡ true = ap has_returned e in
    let live = o.empty_live over in
    record {
      none_served = live;
      none_leaving = o.empty_leaving over;
      none_registered = o.same ∙ live;
      deaf = o.deaf (ap has_unlistened e);
      all_shut = λ c less. ground (arith, o.kept c less, ap (mem c) live);
      held_is_rejected = sym o.phase ∙ ap has_locked e;
    }
