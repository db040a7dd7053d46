-- ===== src/Negotiate/Choice.antt =====
-- The dialect that `chooseDialect` of internal/smb/negotiate.go settles on.
use portable_smb_server.Base.{
  ℕ, zero, suc, ◌+◌, ◌*◌, ◌<◌, ltb, ap, ◌∙◌, ◌≤◌, Bool, true, false, Option, none, some, List, [],
  ◌∷◌, ◌==◌, ==_iff, ==_refl, ◌⊎◌, length, ◌≡◌, sym, subst, All, if_lem, Bool-cases, inl, inr,
  arith,
}
use portable_smb_server.Wire.{Bytes, u16}
use portable_smb_server.Conn.{mem}
use portable_smb_server.Negotiate.{
  first_offered, offered, offered_loop, choose_dialect, supported_dialects,
}

-- every later member of the list is no greater
Descending : List ℕ → Type 0
Descending [] = Unit {0}
Descending (d ∷ ds) = All (λ e. e ≤ d) ds × Descending ds

Descending-mem : (d : ℕ) (ds : List ℕ) (e : ℕ) → All (λ a. a ≤ d) ds → mem e ds ≡ true → e ≤ d
Descending-mem d [] e p m = ground arith
Descending-mem d (x ∷ ds) e (px, p) m = elim (Bool-cases (x == e)) [
  | inl q ↦ ground (arith, (==_iff x e).0 q)
  | inr q ↦ Descending-mem d ds e p (ground arith)
]

-- What a choice among the dialects promises: it is one of both sides, and the highest one.
pub record Best (ds os : List ℕ) (d : ℕ) : Type 0 where
  pub supported : mem d ds ≡ true
  pub offered_too : mem d os ≡ true
  pub highest : (e : ℕ) → mem e ds ≡ true → mem e os ≡ true → e ≤ d

abbrev pub NoCommon : List ℕ → List ℕ → Type 0
NoCommon ds os = (e : ℕ) → mem e ds ≡ true → mem e os ≡ false

-- a choice is the best, and no choice says that nothing is common
abbrev pub Chosen : List ℕ → List ℕ → Option ℕ → Type 0
Chosen ds os none = NoCommon ds os
Chosen ds os (some d) = Best ds os d

mem_head : (x : ℕ) (ds : List ℕ) (e : ℕ) → mem e (x ∷ ds) ≡ true → (x ≡ e) ⊎ (mem e ds ≡ true)
mem_head x ds e m = elim (Bool-cases (x == e)) [
  | inl q ↦ inl ((==_iff x e).0 q)
  | inr q ↦ inr (ground arith)
]

first_offered-Chosen : (ds os : List ℕ) → Descending ds → Chosen ds os (first_offered ds os)
unfolding first_offered Descending
first_offered-Chosen [] os p = λ e m. ground arith
first_offered-Chosen (x ∷ ds) os (px, p) =
    if_lem (Chosen (x ∷ ds) os) (mem x os)
      (λ m. record {
        supported = ground (arith, ==_refl x);
        offered_too = m;
        highest = λ e f g. elim (mem_head x ds e f) [
          | inl q ↦ ground arith
          | inr q ↦ Descending-mem x ds e px q
        ];
      })
      (λ m. skip m (first_offered ds os) (first_offered-Chosen ds os p))
  where
    skip : mem x os ≡ false → (o : Option ℕ) → Chosen ds os o → Chosen (x ∷ ds) os o
    skip m none n = λ e f. elim (mem_head x ds e f) [
      | inl q ↦ subst (λ a. mem a os ≡ false) q m
      | inr q ↦ n e q
    ]
    skip m (some d) b = record {
      supported = ground arith;
      offered_too = b.offered_too;
      highest = λ e f g. elim (mem_head x ds e f) [
        | inl q ↦ elim (clash (mem x os) m (subst (λ a. mem a os ≡ true) (sym q) g)) [ ]
        | inr q ↦ b.highest e q g
      ];
    }
      where
        clash : (b : Bool) → b ≡ false → b ≡ true → ⊥
        clash b f t = ground arith

choose_dialect_long :
    (b : Bytes) → 36 ≤ length b → choose_dialect b ≡ first_offered supported_dialects (offered b)
unfolding choose_dialect
choose_dialect_long b h = ground arith

supported_dialects-Descending : Descending supported_dialects
unfolding Descending
supported_dialects-Descending = (
  (omega arith, (omega arith, (omega arith, tt))),
  ((omega arith, (omega arith, tt)), ((omega arith, tt), (tt, tt))),
)

-- The client offers a dialect: it is one of the DialectCount 16-bit numbers that follow the 36 bytes of
-- the fixed part, as far as the body goes.
pub record Offers (body : Bytes) (d : ℕ) : Type 0 where
  pub index : ℕ
  pub counted : index < u16 body 2
  pub inside : 36 + 2 * index + 2 ≤ length body
  pub value : u16 body (36 + 2 * index) ≡ d

record In (k : ℕ) (body : Bytes) (off d : ℕ) : Type 0 where
  index : ℕ
  counted : index < k
  inside : off + 2 * index + 2 ≤ length body
  value : u16 body (off + 2 * index) ≡ d

head-In :
    (k : ℕ) (body : Bytes) (off d : ℕ)
    → ltb (length body) (off + 2) ≡ false
    → u16 body off ≡ d
    → In (suc k) body off d
head-In k body off d room q =
    let here : off ≡ off + 2 * 0 = omega arith in
    record {
      index = 0;
      counted = omega arith;
      inside = ground (arith, room);
      value = ap (u16 body) (sym here) ∙ q;
    }

tail-In : (k : ℕ) (body : Bytes) (off d : ℕ) → In k body (off + 2) d → In (suc k) body off d
tail-In k body off d rest =
    let there : off + 2 * suc rest.index ≡ off + 2 + 2 * rest.index = omega arith in
    record {
      index = suc rest.index;
      counted = omega (arith, rest.counted);
      inside = omega (arith, rest.inside);
      value = ap (u16 body) there ∙ rest.value;
    }

no_member : (d : ℕ) → mem d [] ≡ true → ⊥
no_member d m = ground (arith, m)

mem→In :
    (k : ℕ) (body : Bytes) (off d : ℕ) → mem d (offered_loop k body off) ≡ true → In k body off d
unfolding offered_loop
mem→In zero body off d m = absurd (no_member d m)
mem→In (suc k) body off d m =
    let ds : List ℕ = offered_loop k body (off + 2) in
    let here : u16 body off ≡ d → ltb (length body) (off + 2) ≡ false → In (suc k) body off d =
      λ q room. head-In k body off d room q in
    if_lem (λ os. mem d os ≡ true → In (suc k) body off d) (ltb (length body) (off + 2))
      (λ _ n. absurd (no_member d n))
      (λ room n. elim (mem_head (u16 body off) ds d n) as (λ _. In (suc k) body off d) [
        | inl q ↦ here q room
        | inr q ↦ tail-In k body off d (mem→In k body (off + 2) d q)
      ])
      m

In→mem :
    (k : ℕ) (body : Bytes) (off d i : ℕ)
    → i < k
    → off + 2 * i + 2 ≤ length body
    → u16 body (off + 2 * i) ≡ d
    → mem d (offered_loop k body off) ≡ true
unfolding offered_loop
In→mem zero body off d i c h v = absurd (omega (arith, c))
In→mem (suc k) body off d zero c h v =
    let here : off + 2 * 0 ≡ off = omega arith in
    let first : u16 body off ≡ d = ap (u16 body) (sym here) ∙ v in
    if_lem (λ ds. mem d ds ≡ true) (ltb (length body) (off + 2))
      (λ short. absurd (ground (arith, short, h)))
      (λ _. ground (arith, first, ==_refl (u16 body off)))
In→mem (suc k) body off d (suc i) c h v =
    let there : off + 2 * suc i ≡ off + 2 + 2 * i = omega arith in
    let rest =
      In→mem k body (off + 2) d i (omega (arith, c)) (omega (arith, h))
        (ap (u16 body) (sym there) ∙ v) in
    if_lem (λ ds. mem d ds ≡ true) (ltb (length body) (off + 2))
      (λ short. absurd (ground (arith, short, h))) (λ _. ground (arith, rest))

offered-Offers : (body : Bytes) (d : ℕ) → mem d (offered body) ≡ true → Offers body d
unfolding offered
offered-Offers body d m =
    let p = mem→In (u16 body 2) body 36 d m in
    record { index = p.index; counted = p.counted; inside = p.inside; value = p.value }

Offers-offered : (body : Bytes) (d : ℕ) → Offers body d → mem d (offered body) ≡ true
unfolding offered
Offers-offered body d o = In→mem (u16 body 2) body 36 d o.index o.counted o.inside o.value

-- What the choice promises: one that both sides have, and the highest one; or that there is none.
pub record Highest (body : Bytes) (d : ℕ) : Type 0 where
  pub supported : mem d supported_dialects ≡ true
  pub offered_too : Offers body d
  pub highest : (e : ℕ) → mem e supported_dialects ≡ true → Offers body e → e ≤ d

abbrev pub Settles : Bytes → Option ℕ → Type 0
Settles body none = (e : ℕ) → mem e supported_dialects ≡ true → ¬ Offers body e
Settles body (some d) = Highest body d

Chosen-Settles :
    (body : Bytes) (o : Option ℕ) → Chosen supported_dialects (offered body) o → Settles body o
Chosen-Settles body none n =
    λ e m f. not_both (mem e (offered body)) (n e m) (Offers-offered body e f)
  where
    not_both : (b : Bool) → b ≡ false → b ≡ true → ⊥
    not_both b p q = ground arith
Chosen-Settles body (some d) b = record {
  supported = b.supported;
  offered_too = offered-Offers body d b.offered_too;
  highest = λ e m f. b.highest e m (Offers-offered body e f);
}

-- A NEGOTIATE of 36 bytes or more settles on the highest dialect that the server supports and the
-- client offers, one of the DialectCount numbers behind its fixed part; and it is refused only
-- if the two have none in common.
pub choose_dialect_best : (body : Bytes) → 36 ≤ length body → Settles body (choose_dialect body)
choose_dialect_best body h = subst (Settles body) (sym (choose_dialect_long body h)) (
    Chosen-Settles body (first_offered supported_dialects (offered body))
      (first_offered-Chosen supported_dialects (offered body) supported_dialects-Descending))
