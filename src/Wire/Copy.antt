-- ===== src/Wire/Copy.antt =====
-- What `copy` leaves, in terms of the parts of the buffer.
use portable_smb_server.Base.{
  ℕ, zero, suc, ◌+◌, ◌/◌, ◌%◌, ◌<◌, ◌≡◌, refl, sym, ap, ◌∙◌, [], ◌∷◌, ◌++◌, arith, length, set,
  take, length-append, append_assoc, take-append, drop-append, length-set,
}
use portable_smb_server.Wire.{Bytes, copy_at, slice, put32, put16, put8}
use portable_smb_server.Wire.Fields.{length-put16}

set-append_left : (xs ys : Bytes) (i v : ℕ) → i < length xs → set (xs ++ ys) i v ≡ set xs i v ++ ys
set-append_left [] ys i v h = absurd (omega arith)
set-append_left (x ∷ xs) ys zero v h = refl
set-append_left (x ∷ xs) ys (suc i) v h = ap (λ t. x ∷ t) (set-append_left xs ys i v (omega arith))

set-middle : (p : Bytes) (x v : ℕ) (r : Bytes) → set (p ++ (x ∷ r)) (length p) v ≡ p ++ (v ∷ r)
set-middle [] x v r = refl
set-middle (y ∷ p) x v r = ap (λ t. y ∷ t) (set-middle p x v r)

length-snoc : (p : Bytes) (x : ℕ) → suc (length p) ≡ length (p ++ (x ∷ []))
length-snoc p x = omega (arith, length-append p (x ∷ []))

pub copy_at-parts :
    (p q r xs : Bytes)
    → length q ≡ length xs
    → copy_at (p ++ (q ++ r)) (length p) xs ≡ p ++ (xs ++ r)
unfolding copy_at
copy_at-parts p [] r [] h = refl
copy_at-parts p [] r (x ∷ xs) h = absurd (omega arith)
copy_at-parts p (y ∷ q) r [] h = absurd (omega arith)
copy_at-parts p (y ∷ q) r (x ∷ xs) h =
    ap (λ b. copy_at b (suc (length p)) xs)
      (set-middle p y x (q ++ r) ∙ sym (append_assoc p (x ∷ []) (q ++ r)))
    ∙ ap (λ i. copy_at ((p ++ (x ∷ [])) ++ (q ++ r)) i xs) (length-snoc p x)
    ∙ copy_at-parts (p ++ (x ∷ [])) q r xs (omega arith)
    ∙ append_assoc p (x ∷ []) (xs ++ r)

put16-append : (p w : Bytes) (i v : ℕ) → i + 1 < length p → put16 (p ++ w) i v ≡ put16 p i v ++ w
put16-append p w i v h =
    ap (λ b. put8 b (i + 1) (v / 256)) (set-append_left p w i (v % 256) (omega arith))
    ∙ set-append_left (put8 p i v) w (i + 1) (v / 256 % 256)
        (omega (arith, length-set p i (v % 256)))

pub put32-append :
    (p w : Bytes) (i v : ℕ) → i + 3 < length p → put32 (p ++ w) i v ≡ put32 p i v ++ w
put32-append p w i v h =
    ap (λ b. put16 b (i + 2) (v / 65536)) (put16-append p w i v (omega arith))
    ∙ put16-append (put16 p i v) w (i + 2) (v / 65536) (omega (arith, length-put16 p i v))

pub slice-parts : (p q r : Bytes) → slice (p ++ (q ++ r)) (length p) (length q) ≡ q
slice-parts p q r = ap (take (length q)) (drop-append p (q ++ r)) ∙ take-append q r
