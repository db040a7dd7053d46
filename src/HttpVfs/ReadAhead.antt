-- ===== src/HttpVfs/ReadAhead.antt =====
-- Reads through the read-ahead window of internal/httpvfs/httpvfs.go beside reads of the file.
use portable_smb_server.Base.{
  ℕ, zero, suc, ◌+◌, ◌-◌, ◌≤◌, ◌<◌, ◌^◌, Bool, true, false, ◌&&◌, Option, none, some, List, [], ◌∷◌,
  ltb, leb, ◌==◌, ltb→lt, ==_iff, if◌then◌else◌, length, take, drop, ◌≡◌, refl, sym, ◌∙◌, ap, ap₂,
  if_lem, Option_lem, arith, length-take, length-drop, take-take, drop-take, drop-drop, take_all,
  subst, some-injective,
}
use portable_smb_server.Base.Int.{ℤ, pos}
use portable_smb_server.Wire.{Bytes}
use portable_smb_server.Fsx.{eof}
use portable_smb_server.Http.{answer}
use portable_smb_server.HttpVfs.{
  Read, Write, Outcome, fetch, Window, ahead, in_window, from_window, refill_with, refill, read_at,
  check_resp, write_at,
}

-- A provider that has the file's contents and answers with them every /read of no more than `limit`
-- bytes.
abbrev pub Serves : {W : Type 0} → ℕ → Read W → W → Bytes → Type 0
Serves limit read w file =
    (o n : ℕ) → o < 2 ^ 63 → n ≤ limit → (read w (pos o) n).1 ≡ answer 200 (take n (drop o file))

-- `io.ReaderAt` of the file itself
abbrev pub direct : Bytes → ℕ → ℕ → Outcome
direct file len o =
    let got = take len (drop o file) in (got, if ltb (length got) len then some eof else none)

-- Bytes of the file from a place on, up to its end if they are said to reach it.
pub record InFile (file : Bytes) (o : ℕ) (bs : Bytes) (at_eof : Bool) : Type 0 where
  pub same : bs ≡ take (length bs) (drop o file)
  pub end : at_eof ≡ true → length file ≤ o + length bs

-- A window of this generation holds such bytes; any other window may hold anything.
abbrev pub Holds : Bytes → ℕ → Window → Type 0
Holds file gen w =
    (bs : Bytes)
    → w.bytes ≡ some bs
    → w.gen ≡ gen
    → (o : ℕ) × (w.offset ≡ pos o) × InFile file o bs w.at_eof

fetch-direct :
    {W : Type 0} (limit : ℕ) (read : Read W) (w : W) (file : Bytes) (len o : ℕ)
    → Serves limit read w file
    → o < 2 ^ 63
    → len ≤ limit
    → (fetch read w len (pos o)).1 ≡ direct file len o
unfolding fetch
fetch-direct limit read w file len o s small few =
    ground (arith, s o len small few, take-take len len (drop o file) (omega arith))

ahead-some : (o place d : ℕ) → ahead (pos o) (pos place) ≡ some d → o ≡ place + d
unfolding ahead
ahead-some o place d e = ground arith

-- the rest of such bytes
InFile-drop :
    (file bs : Bytes) (place d : ℕ) (at_eof : Bool)
    → InFile file place bs at_eof
    → d < length bs
    → InFile file (place + d) (drop d bs) at_eof
InFile-drop file bs place d at_eof h lt =
    let n = length bs in
    let size : length (drop d bs) ≡ n - d = length-drop d bs in
    record {
      same =
          ap (drop d) h.same
          ∙ drop-take d (n - d) n (drop place file) (omega (arith, lt))
          ∙ ap (take (n - d)) (drop-drop d place file)
          ∙ ap (λ m. take m (drop (place + d) file)) (sym size);
      end = λ e. let all = h.end e in omega (arith, all, size, lt);
    }

-- what `in_window` finds
FoundIn : Bytes → ℕ → Bool → Option Bytes → Type 0
FoundIn file o at_eof none = Unit {0}
FoundIn file o at_eof (some bs) = InFile file o bs at_eof

in_window-FoundIn :
    (file : Bytes) (gen o : ℕ) (w : Window)
    → Holds file gen w
    → FoundIn file o w.at_eof (in_window gen (pos o) w)
unfolding in_window FoundIn
in_window-FoundIn file gen o w h =
    let P = FoundIn file o w.at_eof in
    Option_lem P w.bytes tt (λ bs b. Option_lem P (ahead (pos o) w.offset) tt (λ d a.
      if_lem P (w.gen == gen && ltb d (length bs))
        (λ t.
          let current : w.gen ≡ gen = (==_iff w.gen gen).0 (ground (arith, t)) in
          let inside : d < length bs = ltb→lt d (length bs) (ground (arith, t)) in
          let (place, q, bytes) = h bs b current in
          let there : o ≡ place + d =
            ahead-some o place d (subst (λ z. ahead (pos o) z ≡ some d) q a) in
          subst (λ z. InFile file z (drop d bs) w.at_eof) (sym there)
            (InFile-drop file bs place d w.at_eof bytes inside))
        (λ _. tt)))

-- what the window answers is what the file does
AsDirect : Bytes → ℕ → ℕ → Option Outcome → Type 0
AsDirect file len o none = Unit {0}
AsDirect file len o (some out) = out ≡ direct file len o

pair : {A B : Type 0} {a b : A} {c d : B} → a ≡ b → c ≡ d → Path (A × B) (a, c) (b, d)
pair p q = ap₂ (λ x y. (x, y)) p q

from_window-AsDirect :
    (file bs : Bytes) (len o : ℕ) (at_eof : Bool)
    → InFile file o bs at_eof
    → AsDirect file len o (from_window len at_eof bs)
unfolding AsDirect
from_window-AsDirect file bs len o at_eof h =
    let rest = drop o file in
    let P = AsDirect file len o in
    if_lem P (leb len (length bs))
      (λ enough.
        let le : len ≤ length bs = ground (arith, enough) in
        let bytes : take len bs ≡ take len rest =
          ap (take len) h.same ∙ take-take len (length bs) rest le in
        let size : length (take len rest) ≡ len =
          sym (ap length bytes) ∙ omega (arith, length-take len bs, le) in
        pair bytes (ground (arith, size)))
      (λ short.
        if_lem P at_eof
          (λ e.
            let all = h.end e in
            let gt : length bs < len = ground (arith, short) in
            let left : length rest ≤ length bs = omega (arith, all, length-drop o file) in
            let whole : bs ≡ rest = h.same ∙ take_all (length bs) rest left in
            let bytes : take len bs ≡ take len rest = ap (take len) whole in
            let size : length (take len rest) < len =
              omega (arith, length-take len rest, left, gt) in
            pair bytes (ground (arith, size)))
          (λ _. tt))

take-length : {A : Type 0} (n : ℕ) (xs : List A) → take n xs ≡ take (length (take n xs)) xs
take-length zero xs = refl
take-length (suc n) [] = refl
take-length (suc n) (x ∷ xs) = ap (λ z. x ∷ z) (take-length n xs)

-- an answer that is the file's, and a window that may be answered from
abbrev Good : Bytes → ℕ → ℕ → ℕ → Outcome × Window → Type 0
Good file gen len o r = (r.0 ≡ direct file len o) × Holds file gen r.1

refill_with-Good :
    (file : Bytes) (ahead gen len o : ℕ) (w : Window)
    → len < ahead
    → Good file gen len o (refill_with (direct file ahead o) gen len (pos o) w)
unfolding refill_with
refill_with-Good file ahead gen len o w lt = go (ltb (length (take ahead (drop o file))) ahead) refl
  where
    taken : take len (take ahead (drop o file)) ≡ take len (drop o file)
    taken = take-take len ahead (drop o file) (omega (arith, lt))

    answers :
        Path Outcome
          (
            take len (take ahead (drop o file)),
            if ltb (length (take len (take ahead (drop o file)))) len then some eof else none,
          )
          (direct file len o)
    answers = ap (λ z. (z, if ltb (length z) len then some eof else none)) taken

    holds :
        (b : Bool)
        → ltb (length (take ahead (drop o file))) ahead ≡ b
        → (bs : Bytes) → some (take ahead (drop o file)) ≡ some bs
        → InFile file o bs b
    holds b h bs e =
        subst (λ z. InFile file o z b) (some-injective (take ahead (drop o file)) bs e)
          (record {
            same = take-length ahead (drop o file);
            end = λ t. reaches (subst (λ c. ltb (length (take ahead (drop o file))) ahead ≡ c) t h);
          })
      where
        reaches :
            ltb (length (take ahead (drop o file))) ahead ≡ true
            → length file ≤ o + length (take ahead (drop o file))
        reaches t = omega (
          arith,
          ltb→lt (length (take ahead (drop o file))) ahead t,
          length-take ahead (drop o file),
          length-drop o file,
        )

    go :
        (b : Bool)
        → ltb (length (take ahead (drop o file))) ahead ≡ b
        → Good file gen len o
            (refill_with (take ahead (drop o file), if b then some eof else none) gen len (pos o) w)
    go true h = (answers, λ bs e g. (o, refl, holds true h bs e))
    go false h = (answers, λ bs e g. (o, refl, holds false h bs e))

abbrev made : {W : Type 0} → W × Outcome × Window → Outcome × Window
made r = (r.1, r.2)

refill-Good :
    {W : Type 0} (limit : ℕ) (read : Read W) (w : W) (file : Bytes) (ahead gen len o : ℕ)
    (win : Window)
    → Serves limit read w file
    → o < 2 ^ 63
    → ahead ≤ limit
    → len < ahead
    → Good file gen len o (made (refill read w ahead gen len (pos o) win))
unfolding refill
refill-Good limit read w file ahead gen len o win s near few lt =
    subst (λ f. Good file gen len o (refill_with f gen len (pos o) win))
      (sym (fetch-direct limit read w file ahead o s near few))
      (refill_with-Good file ahead gen len o win lt)

-- what is made of the bytes found in the window, if there are any
abbrev from_found :
    {W : Type 0} → W → ℕ → Window → W × Outcome × Window → Option Bytes → W × Outcome × Window
from_found w len win filled found = elim found [
  | none ↦ filled
  | some bs ↦ elim (from_window len win.at_eof bs) [ none ↦ filled | some out ↦ (w, out, win) ]
]

from_found-Good :
    {W : Type 0} (w : W) (file : Bytes) (gen len o : ℕ) (win : Window)
    (filled : W × Outcome × Window)
    → Holds file gen win
    → Good file gen len o (made filled)
    → (found : Option Bytes) → FoundIn file o win.at_eof found
    → Good file gen len o (made (from_found w len win filled found))
unfolding FoundIn AsDirect
from_found-Good w file gen len o win filled h g none f = g
from_found-Good {W} w file gen len o win filled h g (some bs) f =
    answered (from_window len win.at_eof bs) (from_window-AsDirect file bs len o win.at_eof f)
  where
    answered :
        (out : Option Outcome)
        → AsDirect file len o out
        → Good file gen len o (made {W = W} (elim out [ none ↦ filled | some out ↦ (w, out, win) ]))
    answered none a = g
    answered (some out) a = (a, h)

-- A read through the window returns what a read of the provider's file returns, the error beside
-- the bytes included, whatever was read before: for every length and every offset that is not
-- negative, and with a window that was fetched since the last change of the file, or with any
-- older one. The window that it leaves may be read from again. It rests on the provider answering
-- with the bytes of its file every /read up to a limit, which the read and the read-ahead are within.
pub read_at-direct :
    {W : Type 0} (limit : ℕ) (read : Read W) (w : W) (file : Bytes) (ahead gen len o : ℕ)
    (win : Window)
    → o < 2 ^ 63
    → ahead ≤ limit
    → len ≤ limit
    → Serves limit read w file
    → Holds file gen win
    → ((read_at read w ahead gen len (pos o) win).1 ≡ direct file len o)
      × Holds file gen (read_at read w ahead gen len (pos o) win).2
unfolding read_at
read_at-direct {W} limit read w file ahead gen len o win near few_ahead few s h =
    let P = λ (r : W × Outcome × Window). Good file gen len o (made r) in
    if_lem P (leb ahead len) (λ _. (fetch-direct limit read w file len o s near few, h))
      (λ small.
        let lt : len < ahead = ground (arith, small) in
        let filled = refill-Good limit read w file ahead gen len o win s near few_ahead lt in
        from_found-Good w file gen len o win (refill read w ahead gen len (pos o) win) h filled
          (in_window gen (pos o) win) (in_window-FoundIn file gen o win h))

-- no window that was fetched before the write may be read from
write_at-Holds :
    {W : Type 0} (write : Write W) (w : W) (gen : ℕ) (p : Bytes) (off : ℤ) (win other : Window)
    (file : Bytes)
    → gen + 1 < 2 ^ 64
    → other.gen ≤ gen
    → (status : ℕ) (n : Option ℕ) → (write w p off).1 ≡ answer status n
    → check_resp status false ≡ none
    → Holds file (write_at write w gen p off win).gen other
      × Holds file (write_at write w gen p off win).gen (write_at write w gen p off win).window
unfolding write_at
write_at-Holds write w gen p off win other file small older status n e ok =
    let next : (write_at write w gen p off win).gen ≡ gen + 1 = ground (arith, e, ok) in
    let cleared : Window.bytes (write_at write w gen p off win).window ≡ none =
      ground (arith, e, ok) in
    (λ bs b g. elim (stale (g ∙ next)) [ ], λ bs b g. elim (empty bs (sym cleared ∙ b)) [ ])
  where
    stale : other.gen ≡ gen + 1 → ⊥
    stale q = omega (arith, older, q)

    empty : (bs : Bytes) → none ≡ some bs → ⊥
    empty bs q = ground arith

-- After a write that the provider took, a read answers from the file as the provider then has it,
-- bytes and error, both through the handle that wrote and through any other handle of the file
-- system, whatever their windows had read ahead before the write. It rests on
-- the provider answering with the bytes of its file every /read up to a limit, which the read
-- and the read-ahead are within, and the counter of changes must not have wrapped.
pub write_at-read_at :
    {W : Type 0} (write : Write W) (read : Read W) (w : W) (gen : ℕ) (p : Bytes) (off : ℤ)
    (win other : Window) (file : Bytes) (limit ahead len o : ℕ)
    → gen + 1 < 2 ^ 64
    → other.gen ≤ gen
    → (status : ℕ) (n : Option ℕ) → (write w p off).1 ≡ answer status n
    → check_resp status false ≡ none
    → o < 2 ^ 63
    → ahead ≤ limit
    → len ≤ limit
    → Serves limit read (write_at write w gen p off win).world file
    → ((read_at read
          (write_at write w gen p off win).world
          ahead
          (write_at write w gen p off win).gen
          len
          (pos o)
          (write_at write w gen p off win).window).1
        ≡ direct file len o)
      × ((read_at read
            (write_at write w gen p off win).world
            ahead
            (write_at write w gen p off win).gen
            len
            (pos o)
            other).1
          ≡ direct file len o)
write_at-read_at write read w gen p off win other file limit ahead len o small older status n e ok
      near few_ahead few s =
    let out = write_at write w gen p off win in
    let (stale, own) = write_at-Holds write w gen p off win other file small older status n e ok in
    (
      (read_at-direct limit read out.world file ahead out.gen len o out.window near few_ahead few s
          own).0,
      (read_at-direct limit read out.world file ahead out.gen len o other near few_ahead few s
          stale).0,
    )
