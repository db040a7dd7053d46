-- ===== src/Pattern/Matches.antt =====
-- What a pattern means, with no search order in it.
use portable_smb_server.Base.{ℕ, true, [], ◌∷◌, ◌≡◌, ◌≢◌, refl, ◌⊎◌, ◌↔◌, arith}
use portable_smb_server.Packet.Utf16.{Str}
use portable_smb_server.Pattern.{star_rune, any_rune, only_stars}

pub data Matches : Str → Str → Type 0 where
  done : Matches [] []
  rune :
      {c x : ℕ} {p s : Str}
      → c ≢ star_rune
      → (c ≡ any_rune) ⊎ (c ≡ x)
      → Matches p s
      → Matches (c ∷ p) (x ∷ s)
  skip : {c : ℕ} {p s : Str} → c ≡ star_rune → Matches p s → Matches (c ∷ p) s
  more : {c x : ℕ} {p s : Str} → c ≡ star_rune → Matches (c ∷ p) s → Matches (c ∷ p) (x ∷ s)

pub rune_inv :
    {c x : ℕ} {p s : Str}
    → Matches (c ∷ p) (x ∷ s)
    → c ≢ star_rune
    → ((c ≡ any_rune) ⊎ (c ≡ x)) × Matches p s
rune_inv (rune h e m) k = (e, m)
rune_inv (skip h m) k = absurd (k h)
rune_inv (more h m) k = absurd (k h)

pub star_inv :
    {c x : ℕ} {p s : Str}
    → Matches (c ∷ p) (x ∷ s)
    → ¬ Matches p (x ∷ s)
    → c ≡ star_rune
    → Matches (c ∷ p) s
star_inv (rune h e m) k q = absurd (h q)
star_inv (skip h m) k q = absurd (k m)
star_inv (more h m) k q = m

pub star_end : {c : ℕ} {p : Str} → Matches (c ∷ p) [] → Matches p []
star_end (skip h m) = m

pub star_star :
    {c d : ℕ} {p s : Str}
    → Matches (c ∷ d ∷ p) s
    → c ≡ star_rune
    → d ≡ star_rune
    → Matches (d ∷ p) s
star_star (rune h e m) k q = absurd (h k)
star_star (skip h m) k q = m
star_star (more h m) k q = more q (star_star m k q)

not_end : {d : ℕ} {p : Str} → Matches (d ∷ p) [] → d ≢ star_rune → ⊥
not_end (skip h m) q = q h

-- A rune of the pattern behind a star may be taken at once: the star makes up for it.
pub star_rune_step :
    {c d x : ℕ} {p : Str} (s : Str)
    → Matches (c ∷ d ∷ p) (x ∷ s)
    → c ≡ star_rune
    → d ≢ star_rune
    → Matches (c ∷ p) s
star_rune_step s (rune h e m) k q = absurd (h k)
star_rune_step s (skip h m) k q = skip k (rune_inv m q).1
star_rune_step [] (more h m) k q = absurd (not_end (star_end m) q)
star_rune_step (y ∷ s) (more h m) k q = more k (star_rune_step s m k q)

only_stars→Matches : (p : Str) → only_stars p ≡ true → Matches p []
unfolding only_stars
only_stars→Matches [] h = done
only_stars→Matches (c ∷ p) h = skip (ground arith) (only_stars→Matches p (ground arith))

Matches→only_stars : (p : Str) → Matches p [] → only_stars p ≡ true
unfolding only_stars
Matches→only_stars [] m = refl
Matches→only_stars (c ∷ p) (skip h m) = ground (arith, Matches→only_stars p m)

pub only_stars_iff : (p : Str) → (only_stars p ≡ true) ↔ Matches p []
only_stars_iff p = (only_stars→Matches p, Matches→only_stars p)
