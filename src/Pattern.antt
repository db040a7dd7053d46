-- ===== src/Pattern.antt =====
-- Search patterns of QUERY_DIRECTORY: `singleName`, `matchPattern` and `wildcardMatch` of
-- internal/smb/info.go.
pub mod Matches
pub mod Wildcard
use mathlib.Core.Option
use portable_smb_server.Base.{
  ℕ, zero, suc, ◌+◌, ◌*◌, Bool, true, false, ◌&&◌, ◌||◌, not, Option, none, some, List, [], ◌∷◌,
  map, ltb, ◌==◌, if◌then◌else◌, length, get_or, drop, list_eq,
}
use portable_smb_server.Packet.Utf16.{Str}
use portable_smb_server.Path.{is_empty}

abbrev pub star_rune : ℕ
star_rune = b'*'

abbrev pub any_rune : ℕ
any_rune = b'?'

-- The case tables of Go's `unicode`: `fold` takes a rune to one representative of the runes that
-- are equal to it under simple folding.
pub record Unicode : Type 0 where
  pub fold : ℕ → ℕ
  pub lower : ℕ → ℕ
  pub upper : ℕ → ℕ

-- strings.EqualFold
abbrev pub equal_fold : Unicode → Str → Str → Bool
equal_fold u s t = list_eq (map u.fold s) (map u.fold t)

abbrev pub contains_any : (ℕ → Bool) → Str → Bool
contains_any p [] = false
contains_any p (c ∷ s) = p c || contains_any p s

-- strings.ContainsAny(pattern, `*?<>"`)
abbrev pub is_wild : ℕ → Bool
is_wild c = c == b'*' || c == b'?' || c == b'<' || c == b'>' || c == 34

unfoldable pub single_name : Str → Bool
single_name pattern = not (is_empty pattern) && not (contains_any is_wild pattern)

-- The saved star position; `none` is `star = -1`.
pub record Cursor : Type 0 where
  pub p : ℕ
  pub n : ℕ
  pub star : Option ℕ
  pub mark : ℕ

abbrev pub at : Str → ℕ → ℕ
at s i = get_or s i 0

-- the two conditions on `pattern[p]`, with the bounds test in front
abbrev pub rune_fits : Str → Str → Cursor → Bool
rune_fits pattern name c =
    ltb c.p (length pattern) && (at pattern c.p == any_rune || at pattern c.p == at name c.n)

abbrev pub at_star : Str → Cursor → Bool
at_star pattern c = ltb c.p (length pattern) && at pattern c.p == star_rune

-- One round of the loop; `none` is the `return false` of its default case.
unfoldable pub advance : Str → Str → Cursor → Option Cursor
advance pattern name c =
    if rune_fits pattern name c
    then some (record c { p = c.p + 1; n = c.n + 1 })
    else if at_star pattern c
    then some (record c { star = some c.p; mark = c.n; p = c.p + 1 })
    else elim c.star [
      | none ↦ none
      | some s ↦ some (record c { p = s + 1; star = some s; mark = c.mark + 1; n = c.mark + 1 })
    ]

-- `for p < len(pattern) && pattern[p] == '*'`, then `p == len(pattern)`, on what is left
unfoldable pub only_stars : Str → Bool
only_stars [] = true
only_stars (c ∷ s) = let rest = only_stars s in if c == star_rune then rest else false

-- `none` means that the fuel ran out.
unfoldable pub wildcard_loop : ℕ → Str → Str → Cursor → Option Bool
wildcard_loop zero pattern name c = none
wildcard_loop (suc fuel) pattern name c =
    if ltb c.n (length name)
    then elim (advance pattern name c) [
      | none ↦ some false
      | some c' ↦ wildcard_loop fuel pattern name c'
    ]
    else some (only_stars (drop c.p pattern))

abbrev pub start : Cursor
start = record { p = 0; n = 0; star = none; mark = 0 }

abbrev pub enough : Str → Str → ℕ
enough pattern name = (length name + 1) * (length pattern + 1)

unfoldable pub wildcard_match : Str → Str → Bool
wildcard_match pattern name =
    Option.get_or (wildcard_loop (enough pattern name) pattern name start) false

-- strings.NewReplacer("<", "*", ">", "?")
abbrev replace_dos : ℕ → ℕ
replace_dos c = if c == b'<' then star_rune else if c == b'>' then any_rune else c

abbrev is_star_or_any : ℕ → Bool
is_star_or_any c = c == star_rune || c == any_rune

unfoldable pub match_pattern : Unicode → Str → Str → Bool → Bool
match_pattern u pattern name case_insensitive =
    let pat = map replace_dos pattern in
    if not (contains_any is_star_or_any pat)
    then (if case_insensitive then equal_fold u pat name else list_eq pat name)
    else if case_insensitive
    then wildcard_match (map u.lower pat) (map u.lower name)
    else wildcard_match pat name
