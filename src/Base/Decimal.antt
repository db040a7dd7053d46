-- ===== src/Base/Decimal.antt =====
-- Signed decimal numbers as the 64-bit `FormatInt` and `ParseInt` of strconv write and read them.
use Prim.Native.Nat.{ℕ, zero, suc, ◌+◌, ◌-◌, ◌*◌, ◌/◌, ◌%◌, ◌^◌, ◌≤◌, ◌<◌}
use mathlib.Core.Path.{◌≡◌, refl, sym, ap, ◌∙◌}
use mathlib.Core.Bool.{◌&&◌}
use mathlib.Core.Option.{Option, none, some}
use mathlib.Core.List.{List, [], ◌∷◌}
use native.Mathlib.Omega.{arith}
use native.Mathlib.Nat.{pow-suc}
use portable_smb_server.Base.Tests.{ltb, leb, lt→ltb, ◌==◌, if◌then◌else◌, if_lem}
use portable_smb_server.Base.Int.{ℤ, pos, negsuc}

-- The last `k` digits or fewer, with no leading zero, before `acc`.
unfoldable pub digits : ℕ → ℕ → List ℕ → List ℕ
digits zero n acc = acc
digits (suc k) n acc =
    let c = (b'0' + n % 10) ∷ acc in
    let more = digits k (n / 10) c in if n / 10 == 0 then c else more

-- no 64-bit number has more than 20 digits
unfoldable pub format_nat : ℕ → List ℕ
unfolding digits
format_nat n = digits 20 n []

unfoldable pub format_int : ℤ → List ℕ
unfolding format_nat
format_int (pos n) = format_nat n
format_int (negsuc n) = b'-' ∷ format_nat (suc n)

unfoldable pub parse_digits : ℕ → List ℕ → Option ℕ
parse_digits acc [] = some acc
parse_digits acc (c ∷ s) =
    let rest = parse_digits (acc * 10 + (c - b'0')) s in
    if leb b'0' c && leb c b'9' then rest else none

unfoldable pub magnitude : List ℕ → Option ℕ
unfolding parse_digits
magnitude [] = none
magnitude (c ∷ s) = parse_digits 0 (c ∷ s)

abbrev negate : ℕ → ℤ
negate zero = pos 0
negate (suc n) = negsuc n

abbrev positive : Option ℕ → Option ℤ
positive none = none
positive (some n) = if ltb n (2 ^ 63) then some (pos n) else none

abbrev negative : Option ℕ → Option ℤ
negative none = none
negative (some n) = if leb n (2 ^ 63) then some (negate n) else none

unfoldable pub parse_int : List ℕ → Option ℤ
unfolding magnitude
parse_int [] = none
parse_int (c ∷ s) =
    if c == b'-'
    then negative (magnitude s)
    else if c == b'+'
    then positive (magnitude s)
    else positive (magnitude (c ∷ s))

-- what int64 holds
abbrev pub IsInt64 : ℤ → Type 0
IsInt64 (pos n) = n < 2 ^ 63
IsInt64 (negsuc n) = n < 2 ^ 63

parse_digits-cons :
    (a d : ℕ) (s : List ℕ) → d < 10 → parse_digits a ((b'0' + d) ∷ s) ≡ parse_digits (a * 10 + d) s
unfolding parse_digits
parse_digits-cons a d s h =
    let digit : (b'0' + d) - b'0' ≡ d = omega arith in
    ground (arith, ap (λ x. parse_digits (a * 10 + x) s) digit)

parse_digits_first :
    (d : ℕ) (s : List ℕ) → d < 10 → parse_digits 0 ((b'0' + d) ∷ s) ≡ parse_digits d s
parse_digits_first d s h = parse_digits-cons 0 d s h ∙ ap (λ m. parse_digits m s) (omega arith)

parse_digits-digits :
    (k n : ℕ) (acc : List ℕ)
    → n < 10 ^ suc k
    → parse_digits 0 (digits (suc k) n acc) ≡ parse_digits n acc
unfolding digits
parse_digits-digits zero n acc h =
    let small : n / 10 ≡ 0 = omega (arith, h) in
    let same : n % 10 ≡ n = omega (arith, h) in
    ground (arith, small, same, parse_digits_first n acc (omega (arith, h)))
parse_digits-digits (suc k) n acc h =
    if_lem (λ s. parse_digits 0 s ≡ parse_digits n acc) (n / 10 == 0)
      (λ e.
        let small : n < 10 = ground (arith, e) in
        let same : n % 10 ≡ n = omega (arith, small) in
        ap (λ d. parse_digits 0 ((b'0' + d) ∷ acc)) same ∙ parse_digits_first n acc small)
      (λ _.
        parse_digits-digits k (n / 10) ((b'0' + n % 10) ∷ acc)
          (omega (arith, h, pow-suc 10 (suc k)))
        ∙ parse_digits-cons (n / 10) (n % 10) acc (omega arith)
        ∙ ap (λ m. parse_digits m acc) (omega arith))

-- the first digit
record Digits (s : List ℕ) : Type 0 where
  first : ℕ
  rest : List ℕ
  same : s ≡ first ∷ rest
  low : b'0' ≤ first
  high : first ≤ b'9'

digits-Digits : (k n : ℕ) (acc : List ℕ) → Digits (digits (suc k) n acc)
unfolding digits
digits-Digits zero n acc = record {
  first = b'0' + n % 10;
  rest = acc;
  same = ground arith;
  low = omega arith;
  high = omega arith;
}
digits-Digits (suc k) n acc =
    if_lem Digits (n / 10 == 0)
      (λ _. record {
        first = b'0' + n % 10;
        rest = acc;
        same = refl;
        low = omega arith;
        high = omega arith;
      })
      (λ _. digits-Digits k (n / 10) ((b'0' + n % 10) ∷ acc))

magnitude-format_nat : (n : ℕ) → n < 10 ^ 20 → magnitude (format_nat n) ≡ some n
unfolding magnitude format_nat parse_digits
magnitude-format_nat n h =
    let d = digits-Digits 19 n [] in
    ap magnitude d.same ∙ ap (parse_digits 0) (sym d.same) ∙ parse_digits-digits 19 n [] h

parse_int-positive :
    (c : ℕ) (s : List ℕ) → b'0' ≤ c → parse_int (c ∷ s) ≡ positive (magnitude (c ∷ s))
unfolding parse_int
parse_int-positive c s h = ground arith

minus : (s : List ℕ) → parse_int (b'-' ∷ s) ≡ negative (magnitude s)
unfolding parse_int
minus s = refl

pub parse_int-format_int : (z : ℤ) → IsInt64 z → parse_int (format_int z) ≡ some z
unfolding format_int format_nat
parse_int-format_int (pos n) h =
    let d = digits-Digits 19 n [] in
    ap parse_int d.same
    ∙ parse_int-positive d.first d.rest d.low
    ∙ ap (λ s. positive (magnitude s)) (sym d.same)
    ∙ ap positive (magnitude-format_nat n (omega (arith, h)))
    ∙ ap (λ b. if b then some (pos n) else none) (lt→ltb n (2 ^ 63) h)
parse_int-format_int (negsuc n) h = negated
  where
    negated : parse_int (b'-' ∷ format_nat (suc n)) ≡ some (negsuc n)
    negated =
        minus (format_nat (suc n))
        ∙ ap negative (magnitude-format_nat (suc n) (omega (arith, h)))
        ∙ ground (arith, h)
