-- ===== src/Wire/Frame.antt =====
-- What the writes to a buffer leave as it was: the bytes below the place they start at.
use portable_smb_server.Base.{
  ℕ, suc, ◌+◌, ◌/◌, ◌%◌, ◌^◌, ◌≤◌, ◌<◌, ◌≡◌, refl, sym, ◌∙◌, ap, [], ◌∷◌, ◌++◌, arith, length, set,
  take, drop, get_or-set_ne, length-take, length-drop, take-append-drop, get_or-append_left, zero,
}
use portable_smb_server.Wire.{Bytes, u8, u32, put8, put16, put32, put64, copy_at, slice}
use portable_smb_server.Wire.Fields.{u8-put16_ne}
use portable_smb_server.Wire.Copy.{copy_at-parts, slice-parts}

-- The bytes below `k` are the same.
pub Same : ℕ → Bytes → Bytes → Type 0
Same k b c = (j : ℕ) → j < k → u8 c j ≡ u8 b j

pub Same-less : (j k : ℕ) (a b : Bytes) → j ≤ k → Same k a b → Same j a b
unfolding Same
Same-less j k a b h s i l = s i (omega (arith, h))

module _ (k : ℕ) where
  pub Same-refl : (b : Bytes) → Same k b b
  unfolding Same
  Same-refl b j h = refl

  pub Same-trans : (a b c : Bytes) → Same k a b → Same k b c → Same k a c
  unfolding Same
  Same-trans a b c p q j h = q j h ∙ p j h

  pub Same-put8 : (b : Bytes) (i v : ℕ) → k ≤ i → Same k b (put8 b i v)
  unfolding Same
  Same-put8 b i v h j l = get_or-set_ne b i j _ 0 (omega arith)

  pub Same-put16 : (b : Bytes) (i v : ℕ) → k ≤ i → Same k b (put16 b i v)
  Same-put16 b i v h =
      Same-trans b _ _ (Same-put8 b i v h)
        (Same-put8 (put8 b i v) (i + 1) (v / 256) (omega (arith, h)))

  pub Same-put32 : (b : Bytes) (i v : ℕ) → k ≤ i → Same k b (put32 b i v)
  Same-put32 b i v h =
      Same-trans b _ _ (Same-put16 b i v h)
        (Same-put16 (put16 b i v) (i + 2) (v / 65536) (omega (arith, h)))

  pub Same-put64 : (b : Bytes) (i v : ℕ) → k ≤ i → Same k b (put64 b i v)
  Same-put64 b i v h =
      Same-trans b _ _ (Same-put32 b i v h)
        (Same-put32 (put32 b i v) (i + 4) (v / 2 ^ 32) (omega (arith, h)))

  pub Same-copy_at : (b : Bytes) (i : ℕ) (xs : Bytes) → k ≤ i → Same k b (copy_at b i xs)
  unfolding Same copy_at
  Same-copy_at b i [] h j l = refl
  Same-copy_at b i (x ∷ xs) h j l =
      Same-copy_at (set b i x) (suc i) xs (omega (arith, h)) j l
      ∙ get_or-set_ne b i j x 0 (omega arith)

  pub u32-Same : (b c : Bytes) (i : ℕ) → Same k b c → i + 3 < k → u32 c i ≡ u32 b i
  unfolding Same
  u32-Same b c i s h = omega (
    arith,
    s i (omega (arith, h)),
    s (i + 1) (omega (arith, h)),
    s (i + 2) (omega (arith, h)),
    s (i + 2 + 1) (omega (arith, h)),
  )

pub u8-copy_at : (b : Bytes) (i : ℕ) (xs : Bytes) (j : ℕ) → j < i → u8 (copy_at b i xs) j ≡ u8 b j
unfolding Same
u8-copy_at b i xs j h = Same-copy_at i b i xs (omega arith) j h

-- what has been copied is read back
pub slice-copy_at :
    (b : Bytes) (i : ℕ) (xs : Bytes)
    → i + length xs ≤ length b
    → slice (copy_at b i xs) i (length xs) ≡ xs
slice-copy_at b i xs h =
    let p = take i b in
    let q = take (length xs) (drop i b) in
    let r = drop (length xs) (drop i b) in
    let parts : b ≡ p ++ (q ++ r) =
      sym (take-append-drop i b)
      ∙ ap (λ t. p ++ t) (sym (take-append-drop (length xs) (drop i b))) in
    let i_eq : i ≡ length p = omega (arith, h, length-take i b) in
    let q_eq : length q ≡ length xs =
      omega (arith, h, length-take (length xs) (drop i b), length-drop i b) in
    let copied : copy_at b i xs ≡ p ++ (xs ++ r) =
      ap (λ t. copy_at t i xs) parts
      ∙ ap (λ n. copy_at (p ++ (q ++ r)) n xs) i_eq
      ∙ copy_at-parts p q r xs q_eq in
    ap (λ t. slice t i (length xs)) copied
    ∙ ap (λ n. slice (p ++ (xs ++ r)) n (length xs)) i_eq
    ∙ slice-parts p xs r

pub u32-append : (xs ys : Bytes) (i : ℕ) → i + 3 < length xs → u32 (xs ++ ys) i ≡ u32 xs i
u32-append xs ys i h = omega (
  arith,
  get_or-append_left xs ys i 0 (omega (arith, h)),
  get_or-append_left xs ys (i + 1) 0 (omega (arith, h)),
  get_or-append_left xs ys (i + 2) 0 (omega (arith, h)),
  get_or-append_left xs ys (i + 2 + 1) 0 (omega (arith, h)),
)

take-append_left : (n : ℕ) (xs ys : Bytes) → n ≤ length xs → take n (xs ++ ys) ≡ take n xs
take-append_left zero xs ys h = refl
take-append_left (suc n) [] ys h = absurd (omega (arith, h))
take-append_left (suc n) (x ∷ xs) ys h =
    ap (λ t. x ∷ t) (take-append_left n xs ys (omega (arith, h)))

pub slice-append :
    (i n : ℕ) (xs ys : Bytes) → i + n ≤ length xs → slice (xs ++ ys) i n ≡ slice xs i n
slice-append zero n xs ys h = take-append_left n xs ys (omega (arith, h))
slice-append (suc i) n [] ys h = absurd (omega (arith, h))
slice-append (suc i) n (x ∷ xs) ys h = slice-append i n xs ys (omega (arith, h))

drop-set : (i j v : ℕ) (b : Bytes) → j < i → drop i (set b j v) ≡ drop i b
drop-set zero j v b h = absurd (omega (arith, h))
drop-set (suc i) j v [] h = refl
drop-set (suc i) zero v (x ∷ b) h = refl
drop-set (suc i) (suc j) v (x ∷ b) h = drop-set i j v b (omega (arith, h))

pub drop-put32 : (i j v : ℕ) (b : Bytes) → j + 3 < i → drop i (put32 b j v) ≡ drop i b
drop-put32 i j v b h =
    drop-set i (j + 2 + 1) _ _ (omega (arith, h))
    ∙ drop-set i (j + 2) _ _ (omega (arith, h))
    ∙ drop-set i (j + 1) _ _ (omega (arith, h))
    ∙ drop-set i j _ b (omega (arith, h))

pub u32-put32_after : (b : Bytes) (i v j : ℕ) → i + 3 < j → u32 (put32 b i v) j ≡ u32 b j
u32-put32_after b i v j h = omega (
  arith,
  kept j h,
  kept (j + 1) (omega (arith, h)),
  kept (j + 2) (omega (arith, h)),
  kept (j + 2 + 1) (omega (arith, h)),
)
  where
    kept : (l : ℕ) → i + 3 < l → u8 (put32 b i v) l ≡ u8 b l
    kept l k =
        u8-put16_ne _ (i + 2) _ l (omega (arith, k)) (omega (arith, k))
        ∙ u8-put16_ne b i v l (omega (arith, k)) (omega (arith, k))

set-append_right : (xs ys : Bytes) (i v : ℕ) → set (xs ++ ys) (length xs + i) v ≡ xs ++ set ys i v
set-append_right [] ys i v = ap (λ j. set ys j v) (omega arith)
set-append_right (x ∷ xs) ys i v =
    let e : suc (length xs) + i ≡ suc (length xs + i) = omega arith in
    ap (λ j. set (x ∷ (xs ++ ys)) j v) e ∙ ap (λ t. x ∷ t) (set-append_right xs ys i v)

put16-append_right :
    (xs ys : Bytes) (i v : ℕ) → put16 (xs ++ ys) (length xs + i) v ≡ xs ++ put16 ys i v
put16-append_right xs ys i v =
    ap (λ b. put8 b (length xs + i + 1) (v / 256)) (set-append_right xs ys i (v % 256))
    ∙ ap (λ j. put8 (xs ++ put8 ys i v) j (v / 256)) (omega arith)
    ∙ set-append_right xs (put8 ys i v) (i + 1) (v / 256 % 256)

-- a field at the start of what has been appended
pub put32-append_right :
    (xs ys : Bytes) (v : ℕ) → put32 (xs ++ ys) (length xs) v ≡ xs ++ put32 ys 0 v
put32-append_right xs ys v =
    ap (λ j. put32 (xs ++ ys) j v) (omega arith)
    ∙ ap (λ b. put16 b (length xs + 0 + 2) (v / 65536)) (put16-append_right xs ys 0 v)
    ∙ ap (λ j. put16 (xs ++ put16 ys 0 v) j (v / 65536)) (omega arith)
    ∙ put16-append_right xs (put16 ys 0 v) 2 (v / 65536)

slice-set : (i n j v : ℕ) (b : Bytes) → i + n ≤ j → slice (set b j v) i n ≡ slice b i n
slice-set i n j v [] h = refl
slice-set (suc i) n zero v (x ∷ b) h = absurd (omega (arith, h))
slice-set (suc i) n (suc j) v (x ∷ b) h = slice-set i n j v b (omega (arith, h))
slice-set zero zero j v (x ∷ b) h = refl
slice-set zero (suc n) zero v (x ∷ b) h = absurd (omega (arith, h))
slice-set zero (suc n) (suc j) v (x ∷ b) h =
    ap (λ t. x ∷ t) (slice-set zero n j v b (omega (arith, h)))

pub slice-put32 : (i n j v : ℕ) (b : Bytes) → i + n ≤ j → slice (put32 b j v) i n ≡ slice b i n
slice-put32 i n j v b h =
    slice-set i n (j + 2 + 1) _ _ (omega (arith, h))
    ∙ slice-set i n (j + 2) _ _ (omega (arith, h))
    ∙ slice-set i n (j + 1) _ _ (omega (arith, h))
    ∙ slice-set i n j _ b h

pub slice-take : (i n m : ℕ) (b : Bytes) → i + n ≤ m → slice (take m b) i n ≡ slice b i n
slice-take zero zero zero b h = refl
slice-take zero (suc n) zero b h = absurd (omega (arith, h))
slice-take (suc i) n zero b h = absurd (omega (arith, h))
slice-take i n (suc m) [] h = refl
slice-take zero zero (suc m) (x ∷ b) h = refl
slice-take zero (suc n) (suc m) (x ∷ b) h =
    ap (λ t. x ∷ t) (slice-take zero n m b (omega (arith, h)))
slice-take (suc i) n (suc m) (x ∷ b) h = slice-take i n m b (omega (arith, h))
