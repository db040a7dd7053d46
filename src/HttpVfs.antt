-- ===== src/HttpVfs.antt =====
-- The file system behind a VFS provider: `checkResp`, and the file handle with its read-ahead window,
-- of internal/httpvfs/httpvfs.go. The provider is a function from an offset and a length to what a
-- /read request brings; a `readAhead` of 0 or less is 0, and `written` is a count.
pub mod ReadAhead
pub mod Errors
pub mod Client
use portable_smb_server.Base.{
  ℕ, suc, ◌+◌, ◌-◌, ◌%◌, ◌^◌, ◌<◌, Bool, true, false, ◌||◌, ◌&&◌, Option, none, some, List, [], ◌∷◌,
  ltb, leb, ◌==◌, if◌then◌else◌, length, take, drop,
}
use portable_smb_server.Base.Int.{ℤ, pos, negsuc}
use portable_smb_server.Wire.{Bytes}
use portable_smb_server.Http.{Answer, no_answer, answer}
use portable_smb_server.Fsx.{
  Error, not_exist, exist, permission, invalid, read_only, not_empty, eof, short_write, other,
  Result, ok, err,
}

-- `conflict_not_empty` is the argument `notEmpty`; no error for 200
unfoldable pub check_resp : ℕ → Bool → Option Error
check_resp status conflict_not_empty =
    if status == 200
    then none
    else if status == 404
    then some not_exist
    else if status == 409
    then some (if conflict_not_empty then not_empty else exist)
    else if status == 403 || status == 405 || status == 501
    then some read_only
    else if status == 401
    then some permission
    else if status == 400
    then some invalid
    else some other

-- a /read request in a world that may change with it
abbrev pub Read : Type 0 → Type 0
Read W = W → ℤ → ℕ → W × Answer Bytes

-- a /write request
abbrev pub Write : Type 0 → Type 0
Write W = W → Bytes → ℤ → W × Answer (Option ℕ)

-- the bytes read and the error beside them
abbrev pub Outcome : Type 0
Outcome = Bytes × Option Error

-- `io.ReadFull` of the response into a buffer of `len` bytes
abbrev read_full : ℕ → Bytes → Outcome
read_full len body =
    let got = take len body in (got, if ltb (length got) len then some eof else none)

abbrev fetched : ℕ → Option Error → Bytes → Outcome
fetched len none body = read_full len body
fetched len (some e) body = ([], some e)

abbrev fetch_answer : ℕ → Answer Bytes → Outcome
unfolding check_resp
fetch_answer len (no_answer e) = ([], some e)
fetch_answer len (answer status body) = fetched len (check_resp status false) body

unfoldable pub fetch : {W : Type 0} → Read W → W → ℕ → ℤ → W × Outcome
unfolding fetch_answer
fetch read w len off = let (w1, a) = read w off len in (w1, fetch_answer len a)

-- `win`, `winOff`, `winGen` and `winEOF` of a handle
pub record Window : Type 0 where
  pub bytes : Option Bytes
  pub offset : ℤ
  pub gen : ℕ
  pub at_eof : Bool

-- `off - winOff`, where `off >= winOff`
unfoldable pub ahead : ℤ → ℤ → Option ℕ
ahead (pos o) (pos w) = if leb w o then some (o - w) else none
ahead (pos o) (negsuc w) = some (o + suc w)
ahead (negsuc o) (pos w) = none
ahead (negsuc o) (negsuc w) = if leb o w then some (w - o) else none

-- the bytes of a window of this generation from an offset inside it on
unfoldable pub in_window : ℕ → ℤ → Window → Option Bytes
unfolding ahead
in_window gen off w = elim w.bytes [
  | none ↦ none
  | some bs ↦ elim (ahead off w.offset) [
    | none ↦ none
    | some d ↦ if w.gen == gen && ltb d (length bs) then some (drop d bs) else none
  ]
]

-- what the window alone answers: all that is asked for, or the file's end
abbrev pub from_window : ℕ → Bool → Bytes → Option Outcome
from_window len at_eof bs =
    if leb len (length bs)
    then some (take len bs, none)
    else if at_eof
    then some (take len bs, some eof)
    else none

-- a window that is fetched from `off`, and the answer from it
abbrev pub is_eof_or_none : Option Error → Bool
is_eof_or_none none = true
is_eof_or_none (some eof) = true
is_eof_or_none (some _) = false

abbrev pub is_at_eof : Option Error → Bool
is_at_eof (some eof) = true
is_at_eof _ = false

unfoldable pub refill_with : Outcome → ℕ → ℕ → ℤ → Window → Outcome × Window
refill_with (got, e) gen len off w =
    if is_eof_or_none e
    then (
      (take len got, if ltb (length (take len got)) len then some eof else none),
      record { bytes = some got; offset = off; gen = gen; at_eof = is_at_eof e },
    )
    else (([], e), w)

unfoldable pub refill : {W : Type 0} → Read W → W → ℕ → ℕ → ℕ → ℤ → Window → W × Outcome × Window
unfolding fetch refill_with
refill read w read_ahead gen len off win =
    let (w1, out) = fetch read w read_ahead off in
    let (taken, kept) = refill_with out gen len off win in (w1, taken, kept)

-- ReadAt of a handle whose file system is at generation `gen`
unfoldable pub read_at : {W : Type 0} → Read W → W → ℕ → ℕ → ℕ → ℤ → Window → W × Outcome × Window
unfolding in_window refill fetch
read_at read w read_ahead gen len off win =
    let direct = fetch read w len off in
    let filled = refill read w read_ahead gen len off win in
    if leb read_ahead len then (direct.0, direct.1, win) else elim (in_window gen off win) [
      | none ↦ filled
      | some bs ↦ elim (from_window len win.at_eof bs) [ none ↦ filled | some out ↦ (w, out, win) ]
    ]

-- what /write answers: its `written`, or a body that does not parse
abbrev written_of : ℕ → Option ℕ → ℕ × Option Error
written_of len none = (0, some other)
written_of len (some n) = (n, if n == len then none else some short_write)

-- what WriteAt leaves
pub record Written (W : Type 0) : Type 0 where
  pub world : W
  pub outcome : ℕ × Option Error
  pub gen : ℕ
  pub window : Window

-- mutated: the counter of changes
abbrev pub mutated : ℕ → ℕ
mutated gen = (gen + 1) % 2 ^ 64

abbrev write_answer : {W : Type 0} → W → ℕ → ℕ → Window → Answer (Option ℕ) → Written W
unfolding check_resp
write_answer w len gen win (no_answer e) = record {
  world = w;
  outcome = (0, some e);
  gen = gen;
  window = win;
}
write_answer w len gen win (answer status n) = elim (check_resp status false) [
  | some e ↦ record { world = w; outcome = (0, some e); gen = gen; window = win }
  | none ↦ record {
    world = w;
    outcome = written_of len n;
    gen = mutated gen;
    window = record win { bytes = none };
  }
]

unfoldable pub write_at : {W : Type 0} → Write W → W → ℕ → Bytes → ℤ → Window → Written W
unfolding write_answer
write_at write w gen p off win = let (w1, a) = write w p off in write_answer w1 (length p) gen win a
