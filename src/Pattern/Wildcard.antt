-- ===== src/Pattern/Wildcard.antt =====
-- The backtracking loop of `wildcardMatch` in internal/smb/info.go beside `Matches`.
use mathlib.Core.Option
use mathlib.Core.Bool.{false≢true}
use portable_smb_server.Base.{
  ℕ, zero, suc, ◌+◌, ◌-◌, ◌*◌, ◌≤◌, ◌<◌, Bool, true, false, Option, none, some, [], ◌∷◌, ◌≡◌, ◌≢◌,
  refl, sym, ◌∙◌, ◌⊎◌, inl, inr, ◌↔◌, arith, ltb, ◌==◌, length, drop, All, Bool-cases, drop_all,
}
use portable_smb_server.Packet.Utf16.{Str}
use portable_smb_server.Pattern.{
  star_rune, any_rune, at, Cursor, rune_fits, at_star, advance, only_stars, wildcard_loop, enough,
  start, wildcard_match,
}
use portable_smb_server.Pattern.Matches.{
  Matches, rune, skip, more, rune_inv, star_inv, star_end, star_star, star_rune_step,
  only_stars_iff,
}

drop-at : (s : Str) (i : ℕ) → i < length s → drop i s ≡ at s i ∷ drop (i + 1) s
drop-at [] i h = absurd (omega arith)
drop-at (x ∷ s) zero h = refl
drop-at (x ∷ s) (suc i) h = ground (arith, drop-at s i (omega arith))

at-NoStar : (s : Str) (i : ℕ) → All (λ c. c ≢ star_rune) s → i < length s → at s i ≢ star_rune
at-NoStar [] i h k = absurd (omega arith)
at-NoStar (x ∷ s) zero (hx, h) k = hx
at-NoStar (x ∷ s) (suc i) (hx, h) k = at-NoStar s i h (omega arith)

-- The name holds no literal star.
abbrev pub NoStar : Str → Type 0
NoStar s = All (λ c. c ≢ star_rune) s

abbrev pub Decides : Type 0 → Str → Option Bool → Type 0
Decides G name (some true) = G
Decides G name (some false) = NoStar name → ¬ G
Decides G name none = ⊥

-- `G` is the question asked at the start.
module _ (G : Type 0) (pat name : Str) where
  abbrev pat_at : ℕ → Str
  pat_at i = drop i pat

  abbrev name_at : ℕ → Str
  name_at i = drop i name

  abbrev Saved : ℕ → ℕ → ℕ → Option ℕ → Type 0
  Saved p n mark none = NoStar name → G → Matches (pat_at p) (name_at n)
  Saved p n mark (some s) =
      (Matches (star_rune ∷ pat_at (s + 1)) (name_at mark) → G)
      × (NoStar name → G → Matches (star_rune ∷ pat_at (s + 1)) (name_at mark))
      × (NoStar name → Matches (pat_at (s + 1)) (name_at mark) → Matches (pat_at p) (name_at n))
      × (s < length pat)

  record Inv (fuel p n : ℕ) (star : Option ℕ) (mark : ℕ) : Type 0 where
    now : Matches (pat_at p) (name_at n) → G
    later : NoStar name → G → Matches (star_rune ∷ pat_at p) (name_at n)
    saved : Saved p n mark star
    p_bound : p ≤ length pat
    mark_bound : mark ≤ n
    n_bound : n ≤ length name
    left : (length name - mark) * (length pat + 1) + (length pat - p) < fuel

  abbrev InvAt : ℕ → Cursor → Type 0
  InvAt fuel c = Inv fuel c.p c.n c.star c.mark

  -- A rune that fits is taken by both; a star of the name may be taken by a star of the pattern.
  now_rune :
      (p n : ℕ)
      → p < length pat
      → n < length name
      → (at pat p ≡ any_rune) ⊎ (at pat p ≡ at name n)
      → Matches (pat_at (p + 1)) (name_at (n + 1))
      → Matches (pat_at p) (name_at n)
  now_rune p n hp hn e m =
      rw (drop-at pat p hp, drop-at name n hn)
        (elim (Bool-cases (at pat p == star_rune)) [
          | inl y ↦ more (ground arith) (skip (ground arith) m)
          | inr y ↦ rune (ground arith) e m
        ])

  fits_inv :
      (p n : ℕ)
      → p < length pat
      → n < length name
      → NoStar name
      → (at pat p ≡ any_rune) ⊎ (at pat p ≡ at name n)
      → at pat p ≢ star_rune
  fits_inv p n hp hn h e = ground (arith, at-NoStar name n h hn)

  Saved-rune :
      (p n mark : ℕ) (star : Option ℕ)
      → p < length pat
      → n < length name
      → (at pat p ≡ any_rune) ⊎ (at pat p ≡ at name n)
      → Saved p n mark star
      → Saved (p + 1) (n + 1) mark star
  Saved-rune p n mark none hp hn e h = λ ns g.
      (rune_inv (rw (drop-at pat p hp, drop-at name n hn) at (h ns g)) (fits_inv p n hp hn ns e)).1
  Saved-rune p n mark (some s) hp hn e (a, b, d, f) = (
    a,
    b,
    λ ns m.
        (rune_inv (rw (drop-at pat p hp, drop-at name n hn) at (d ns m))
          (fits_inv p n hp hn ns e)).1,
    f,
  )

  Inv-rune :
      (fuel p n mark : ℕ) (star : Option ℕ)
      → p < length pat
      → n < length name
      → (at pat p ≡ any_rune) ⊎ (at pat p ≡ at name n)
      → Inv (suc fuel) p n star mark
      → Inv fuel (p + 1) (n + 1) star mark
  Inv-rune fuel p n mark star hp hn e i = record {
    now = λ m. i.now (now_rune p n hp hn e m);
    later = λ ns g.
        star_rune_step _ (rw (drop-at pat p hp, drop-at name n hn) at (i.later ns g)) refl
          (fits_inv p n hp hn ns e);
    saved = Saved-rune p n mark star hp hn e i.saved;
    p_bound = omega arith;
    mark_bound = omega (arith, i.mark_bound);
    n_bound = omega arith;
    left = omega (arith, i.left);
  }

  Inv-star :
      (fuel p n mark : ℕ) (star : Option ℕ)
      → p < length pat
      → n < length name
      → at pat p ≡ star_rune
      → Inv (suc fuel) p n star mark
      → Inv fuel (p + 1) n (some p) n
  Inv-star fuel p n mark star hp hn e i =
      let unfold_star : drop p pat ≡ star_rune ∷ pat_at (p + 1) =
        ground (arith, drop-at pat p hp) in
      let again : NoStar name → G → Matches (star_rune ∷ pat_at (p + 1)) (name_at n) =
        λ ns g. star_star (rw unfold_star at (i.later ns g)) refl refl in
      record {
        now = λ m. i.now (rw unfold_star (skip refl m));
        later = again;
        saved = (λ m. i.now (rw unfold_star m), again, λ ns m. m, hp);
        p_bound = omega arith;
        mark_bound = omega arith;
        n_bound = omega (arith, i.n_bound);
        left = grind (arith, i.left, i.mark_bound);
      }

  Inv-retry :
      (fuel p n mark s : ℕ)
      → n < length name
      → (NoStar name → ¬ Matches (pat_at p) (name_at n))
      → Inv (suc fuel) p n (some s) mark
      → Inv fuel (s + 1) (mark + 1) (some s) (mark + 1)
  Inv-retry fuel p n mark s hn fails i =
      let (a, b, d, f) = i.saved in
      let hm : mark < length name = omega (arith, i.mark_bound) in
      let again : NoStar name → G → Matches (star_rune ∷ pat_at (s + 1)) (name_at (mark + 1)) =
        λ ns g.
          star_inv (rw (drop-at name mark hm) at (b ns g))
            (λ m. fails ns (d ns (rw (drop-at name mark hm) m))) refl in
      let back : Matches (star_rune ∷ pat_at (s + 1)) (name_at (mark + 1)) → G =
        λ m. a (rw (drop-at name mark hm) (more refl m)) in
      record {
        now = λ m. back (skip refl m);
        later = again;
        saved = (back, again, λ ns m. m, f);
        p_bound = omega arith;
        mark_bound = omega arith;
        n_bound = omega arith;
        left = grind (arith, i.left, i.mark_bound);
      }

  stuck_here :
      (c : Cursor)
      → c.n < length name
      → c.p ≤ length pat
      → rune_fits pat name c ≡ false
      → at_star pat c ≡ false
      → Matches (pat_at c.p) (name_at c.n)
      → ⊥
  stuck_here c hn hp r s m = elim (Bool-cases (ltb c.p (length pat))) [
    | inl y ↦
        let here =
          rune_inv (rw (drop-at pat c.p (ground arith), drop-at name c.n hn) at m) (ground arith) in
        ground (arith, here.0)
    | inr y ↦ end (rw (drop_all c.p pat (ground arith), drop-at name c.n hn) at m)
  ]
    where
      end : {x : ℕ} {s' : Str} → Matches [] (x ∷ s') → ⊥
      end m' = elim m' [ ]

  abbrev Next : ℕ → Option Cursor → Type 0
  Next fuel none = NoStar name → ¬ G
  Next fuel (some c) = InvAt fuel c

  retry-Next :
      (fuel p n mark : ℕ) (star : Option ℕ)
      → n < length name
      → (NoStar name → ¬ Matches (pat_at p) (name_at n))
      → Inv (suc fuel) p n star mark
      → Next fuel (elim star [
        | none ↦ none
        | some s ↦ some (record { p = s + 1; n = mark + 1; star = some s; mark = mark + 1 })
      ])
  retry-Next fuel p n mark none hn fails i = λ ns g. fails ns (i.saved ns g)
  retry-Next fuel p n mark (some s) hn fails i = Inv-retry fuel p n mark s hn fails i

  advance-Next :
      (fuel : ℕ) (c : Cursor)
      → c.n < length name
      → InvAt (suc fuel) c
      → Next fuel (advance pat name c)
  unfolding advance
  advance-Next fuel c hn i = elim (Bool-cases (rune_fits pat name c)) [
    | inl y ↦ rw y (Inv-rune fuel c.p c.n c.mark c.star (ground arith) hn (ground arith) i)
    | inr y ↦ rw y (elim (Bool-cases (at_star pat c)) [
      | inl z ↦ rw z (Inv-star fuel c.p c.n c.mark c.star (ground arith) hn (ground arith) i)
      | inr z ↦
          rw z
            (retry-Next fuel c.p c.n c.mark c.star hn (λ ns m. stuck_here c hn i.p_bound y z m) i)
    ])
  ]

  step-Decides :
      (fuel : ℕ) (o : Option Cursor)
      → ((c : Cursor) → InvAt fuel c → Decides G name (wildcard_loop fuel pat name c))
      → Next fuel o
      → Decides G name (elim o [ none ↦ some false | some c ↦ wildcard_loop fuel pat name c ])
  step-Decides fuel none ih h = h
  step-Decides fuel (some c) ih h = ih c h

  end-Decides :
      (b : Bool) (p : ℕ)
      → only_stars (pat_at p) ≡ b
      → (Matches (pat_at p) [] → G)
      → (NoStar name → G → Matches (star_rune ∷ pat_at p) [])
      → Decides G name (some b)
  end-Decides true p e now later = now ((only_stars_iff _).0 e)
  end-Decides false p e now later =
      λ ns g. false≢true (sym e ∙ (only_stars_iff _).1 (star_end (later ns g)))

  loop-Decides :
      (fuel : ℕ) (c : Cursor) → InvAt fuel c → Decides G name (wildcard_loop fuel pat name c)
  unfolding wildcard_loop
  loop-Decides zero c i = omega (arith, i.left)
  loop-Decides (suc fuel) c i = elim (Bool-cases (ltb c.n (length name))) [
    | inl y ↦ rw y (
        unfold wildcard_loop in
        step-Decides fuel (advance pat name c) (loop-Decides fuel)
          (advance-Next fuel c (ground arith) i))
    | inr y ↦
        let e : drop c.n name ≡ [] = drop_all c.n name (ground arith) in
        rw y (
          end-Decides (only_stars (pat_at c.p)) c.p refl (λ m. i.now (rw e m))
            (λ ns g. rw e at (i.later ns g)))
  ]

-- The loop ends within its fuel, whatever the pattern and the name; where it answers true the name
-- matches; and where it answers false no name without a literal star matches.
pub wildcard_loop-Decides :
    (pat name : Str)
    → Decides (Matches pat name) name (wildcard_loop (enough pat name) pat name start)
wildcard_loop-Decides pat name =
    loop-Decides (Matches pat name) pat name (enough pat name) start (record {
      now = λ m. m;
      later = λ ns m. skip refl m;
      saved = λ ns m. m;
      p_bound = omega arith;
      mark_bound = omega arith;
      n_bound = omega arith;
      left = grind arith;
    })

answer :
    (G : Type 0) (name : Str) (o : Option Bool)
    → NoStar name
    → Decides G name o
    → (Option.get_or o false ≡ true) ↔ G
answer G name none ns h = absurd h
answer G name (some true) ns h = (λ _. h, λ _. refl)
answer G name (some false) ns h = (λ e. absurd (false≢true e), λ g. absurd (h ns g))

-- On a name without a literal star, `wildcardMatch` answers true exactly if the pattern matches:
-- '?' stands for one rune, '*' for any run of runes, and every other rune for itself.
pub wildcard_match_iff :
    (pat name : Str) → NoStar name → (wildcard_match pat name ≡ true) ↔ Matches pat name
unfolding wildcard_match
wildcard_match_iff pat name ns =
    answer (Matches pat name) name _ ns (wildcard_loop-Decides pat name)
