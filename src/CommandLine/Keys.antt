-- ===== src/CommandLine/Keys.antt =====
-- The names that `assignShareNames` of main.go has seen, and the duplicate that it looks for.
use portable_smb_server.Base.{
  ℕ, Bool, true, false, List, [], ◌∷◌, map, ◌≡◌, ◌≢◌, refl, subst, list_eq, list_eq_refl,
  list_eq→eq, All, Bool-cases, inl, inr, arith,
}
use portable_smb_server.Packet.Utf16.{Str}
use portable_smb_server.Pattern.{Unicode}
use portable_smb_server.CommandLine.{Paths, ShareArg, is_seen, key, has_duplicate}

-- no two are equal
abbrev pub Distinct : List Str → Type 0
Distinct [] = Unit {0}
Distinct (k ∷ ks) = All (λ j. k ≢ j) ks × Distinct ks

pub not_both : (b : Bool) → b ≡ false → b ≡ true → ⊥
not_both b p q = ground arith

unequal : (k j : List ℕ) → k ≢ j → list_eq k j ≡ false
unequal k j h = elim (Bool-cases (list_eq k j)) [
  | inl e ↦ absurd (h (list_eq→eq k j e))
  | inr e ↦ e
]

module _ (u : Unicode) (paths : Paths) where
  abbrev pub keys : List ShareArg → List Str
  keys = map (key u paths)

  -- a key that has been seen is none of those that come
  unseen :
      (args : List ShareArg) (seen : List Str) (k : Str)
      → has_duplicate u paths seen args ≡ false
      → is_seen u paths k seen ≡ true
      → All (λ j. k ≢ j) (keys args)
  unfolding has_duplicate
  unseen [] seen k h s = tt
  unseen (a ∷ args) seen k h s =
      let other : is_seen u paths (key u paths a) seen ≡ false = ground (arith, h) in
      let rest : has_duplicate u paths (key u paths a ∷ seen) args ≡ false = ground (arith, h) in
      (
        λ e.
            not_both (is_seen u paths (key u paths a) seen) other
              (subst (λ x. is_seen u paths x seen ≡ true) e s),
        unseen args (key u paths a ∷ seen) k rest (ground (arith, s)),
      )

  pub keys-Distinct :
      (args : List ShareArg) (seen : List Str)
      → has_duplicate u paths seen args ≡ false
      → Distinct (keys args)
  unfolding has_duplicate
  keys-Distinct [] seen h = tt
  keys-Distinct (a ∷ args) seen h =
      let rest : has_duplicate u paths (key u paths a ∷ seen) args ≡ false = ground (arith, h) in
      (
        unseen args (key u paths a ∷ seen) (key u paths a) rest
            (ground (arith, list_eq_refl (key u paths a))),
        keys-Distinct args (key u paths a ∷ seen) rest,
      )

  fresh :
      (k : Str) (seen ks : List Str)
      → All (λ j. k ≢ j) ks
      → All (λ j. is_seen u paths j seen ≡ false) ks
      → All (λ j. is_seen u paths j (k ∷ seen) ≡ false) ks
  fresh k seen [] h s = tt
  fresh k seen (j ∷ ks) (hj, h) (sj, s) = (ground (arith, unequal k j hj, sj), fresh k seen ks h s)

  pub no_duplicate :
      (args : List ShareArg) (seen : List Str)
      → Distinct (keys args)
      → All (λ j. is_seen u paths j seen ≡ false) (keys args)
      → has_duplicate u paths seen args ≡ false
  unfolding has_duplicate
  no_duplicate [] seen h s = refl
  no_duplicate (a ∷ args) seen (ha, h) (sa, s) = ground (
    arith,
    sa,
    no_duplicate args (key u paths a ∷ seen) h (fresh (key u paths a) seen (keys args) ha s),
  )
