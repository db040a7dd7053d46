-- ===== src/CommandLine/Names.antt =====
-- The names of the shares that main.go serves: `assignShareNames`.
use portable_smb_server.Base.{
  Bool, true, false, ◌||◌, not, List, [], ◌∷◌, ◌++◌, ◌≡◌, ◌≢◌, refl, sym, ◌∙◌, ap, subst,
  if◌then◌else◌, if_lem, All, Bool-cases, ◌⊎◌, inl, inr, append-nil, append_assoc, arith,
}
use portable_smb_server.Packet.Utf16.{Str}
use portable_smb_server.Path.{is_empty}
use portable_smb_server.Pattern.{Unicode, equal_fold}
use portable_smb_server.CommandLine.Keys.{Distinct, keys, keys-Distinct, no_duplicate, not_both}
use portable_smb_server.CommandLine.{
  Paths, ShareArg, Outcome, made, fatal, base_name, flatten_name, is_taken, assigned, assign_loop,
  is_seen, has_duplicate, assign_share_names, duplicate, candidate,
}

module _ (u : Unicode) (paths : Paths) where
  -- the name by which a share stands before its own name is settled
  abbrev pub standing : Str → Str → Str
  standing [] folder = base_name u paths folder
  standing (c ∷ s) folder = c ∷ s

  abbrev pub clashes : Str → ShareArg → Bool
  clashes base x = equal_fold u (standing x.name x.folder) base

  abbrev pub Free : Str → List ShareArg → Type 0
  Free base xs = All (λ x. clashes base x ≡ false) xs

  abbrev pub Clashes : Str → List ShareArg → Type 0
  Clashes base [] = ⊥
  Clashes base (x ∷ xs) = (clashes base x ≡ true) ⊎ Clashes base xs

  -- The name of a share: the given one; or the base name of its folder, if there is one and neither the
  -- shares before it, as they are named, nor those behind it stand by it; or the flattened path.
  abbrev pub Named : List ShareArg → ShareArg → List ShareArg → Str → Type 0
  Named before a behind n =
      let base = base_name u paths a.folder in
      ((a.name ≢ []) × (n ≡ a.name))
      ⊎ ((a.name ≡ []) × (base ≢ []) × Free base before × Free base behind × (n ≡ base))
      ⊎ ((a.name ≡ [])
          × ((base ≡ []) ⊎ Clashes base before ⊎ Clashes base behind)
          × (n ≡ flatten_name u paths a.folder))

  -- the argument `b` is `a` with its name settled
  pub record Filled (before : List ShareArg) (a : ShareArg) (behind : List ShareArg) (b : ShareArg)
      : Type 0 where
    pub folder : b.folder ≡ a.folder
    pub vfs : b.vfs ≡ a.vfs
    pub named : Named before a behind b.name

  abbrev pub AllFilled : List ShareArg → List ShareArg → List ShareArg → Type 0
  AllFilled before [] [] = Unit {0}
  AllFilled before (a ∷ args) (b ∷ named) =
      Filled before a args b × AllFilled (before ++ (b ∷ [])) args named
  AllFilled before _ _ = ⊥

  candidate-standing : (x : ShareArg) → candidate u paths x ≡ standing x.name x.folder
  unfolding candidate
  candidate-standing x = go x.name
    where
      go : (n : Str) → (if is_empty n then base_name u paths x.folder else n) ≡ standing n x.folder
      go [] = refl
      go (c ∷ s) = refl

  taken-none : (base : Str) (xs : List ShareArg) → is_taken u paths base xs ≡ false → Free base xs
  unfolding is_taken
  taken-none base [] e = tt
  taken-none base (x ∷ xs) e = (
    ap (λ n. equal_fold u n base) (sym (candidate-standing x)) ∙ ground (arith, e),
    taken-none base xs (ground (arith, e)),
  )

  taken-some : (base : Str) (xs : List ShareArg) → is_taken u paths base xs ≡ true → Clashes base xs
  unfolding is_taken
  taken-some base [] e = absurd (ground (arith, e))
  taken-some base (x ∷ xs) e = elim (Bool-cases (equal_fold u (candidate u paths x) base)) [
    | inl t ↦ inl (ap (λ n. equal_fold u n base) (sym (candidate-standing x)) ∙ t)
    | inr f ↦ inr (taken-some base xs (ground (arith, e, f)))
  ]

  empty-nil : (n : Str) → is_empty n ≡ true → n ≡ []
  empty-nil [] e = refl
  empty-nil (c ∷ s) e = absurd (ground (arith, e))

  filled-cons : (n : Str) → is_empty n ≡ false → n ≢ []
  filled-cons n e q = ground (arith, e, ap is_empty q)

  assigned-Filled :
      (before : List ShareArg) (a : ShareArg) (behind : List ShareArg)
      → Filled before a behind (assigned u paths before a behind)
  unfolding assigned
  assigned-Filled before a behind =
      if_lem (Filled before a behind) (not (is_empty a.name))
        (λ given. record {
          folder = refl;
          vfs = refl;
          named = inl (filled-cons a.name (ground (arith, given)), refl);
        })
        (λ none_given.
          let nil = empty-nil a.name (ground (arith, none_given)) in
          if_lem (Filled before a behind)
            (is_empty base || is_taken u paths base before || is_taken u paths base behind)
            (λ t. record {
              folder = refl;
              vfs = refl;
              named = inr (
                  inr (
                    nil,
                    why (is_empty base) (is_taken u paths base before)
                        (is_taken u paths base behind) refl refl refl t,
                    refl,
                  ));
            })
            (λ f. record {
              folder = refl;
              vfs = refl;
              named = inr (
                  inl (
                    nil,
                    filled-cons base (ground (arith, f)),
                    taken-none base before (ground (arith, f)),
                    taken-none base behind (ground (arith, f)),
                    refl,
                  ));
            }))
    where
      base : Str
      base = base_name u paths a.folder

      why :
          (e p q : Bool)
          → is_empty base ≡ e
          → is_taken u paths base before ≡ p
          → is_taken u paths base behind ≡ q
          → (e || p || q) ≡ true
          → (base ≡ []) ⊎ Clashes base before ⊎ Clashes base behind
      why true p q he hp hq t = inl (empty-nil base he)
      why false true q he hp hq t = inr (inl (taken-some base before hp))
      why false false true he hp hq t = inr (inr (taken-some base behind hq))
      why false false false he hp hq t = absurd (ground (arith, t))

  -- the names from one argument on
  settled_from : List ShareArg → List ShareArg → List ShareArg
  settled_from before [] = []
  settled_from before (a ∷ behind) =
      let next = assigned u paths before a behind in
      next ∷ settled_from (before ++ (next ∷ [])) behind

  assign_loop-settled_from :
      (behind before : List ShareArg)
      → assign_loop u paths before behind ≡ before ++ settled_from before behind
  unfolding assign_loop settled_from
  assign_loop-settled_from [] before = sym (append-nil before)
  assign_loop-settled_from (a ∷ behind) before =
      let next = assigned u paths before a behind in
      assign_loop-settled_from behind (before ++ (next ∷ []))
      ∙ append_assoc before (next ∷ []) (settled_from (before ++ (next ∷ [])) behind)

  settled_from-AllFilled :
      (behind before : List ShareArg) → AllFilled before behind (settled_from before behind)
  unfolding settled_from
  settled_from-AllFilled [] before = tt
  settled_from-AllFilled (a ∷ behind) before = (
    assigned-Filled before a behind,
    settled_from-AllFilled behind (before ++ (assigned u paths before a behind ∷ [])),
  )

  -- what becomes of the shares that the command line names
  pub Settled : List ShareArg → Outcome (List ShareArg) → Type 0
  Settled args (made named) = Distinct (keys u paths named) × AllFilled [] args named
  Settled args (fatal e) = (e ≡ duplicate) × ¬ Distinct (keys u paths (assign_loop u paths [] args))

  -- Naming the shares either succeeds or is refused for a duplicate. Where it succeeds, no two names
  -- are equal, whatever the case of their letters; every share is still there, in its place and with
  -- its source. A name that was given is kept. A share without one has the base name of its folder if
  -- there is one and no other share stands by it, whatever the case, and its flattened path if not;
  -- the shares before it stand by the names they have by then, so that the last of several unnamed ones
  -- may keep their base name, and those behind it by the given name or the base name.
  -- It is refused only where two of the names so chosen are equal.
  pub assign_share_names-Settled :
      (args : List ShareArg) → Settled args (assign_share_names u paths args)
  unfolding assign_share_names Settled
  assign_share_names-Settled args =
      settled (has_duplicate u paths [] (assign_loop u paths [] args)) refl
    where
      none_seen : (ks : List Str) → All (λ j. is_seen u paths j [] ≡ false) ks
      none_seen [] = tt
      none_seen (k ∷ ks) = (refl, none_seen ks)

      settled :
          (d : Bool)
          → has_duplicate u paths [] (assign_loop u paths [] args) ≡ d
          → Settled args (if d then fatal duplicate else made (assign_loop u paths [] args))
      settled true e = (
        refl,
        λ h.
            not_both (has_duplicate u paths [] (assign_loop u paths [] args))
              (no_duplicate u paths (assign_loop u paths [] args) [] h
                (none_seen (keys u paths (assign_loop u paths [] args))))
              e,
      )
      settled false e = (
        keys-Distinct u paths (assign_loop u paths [] args) [] e,
        subst (AllFilled [] args) (sym (assign_loop-settled_from args []))
            (settled_from-AllFilled args []),
      )
