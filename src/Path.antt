-- ===== src/Path.antt =====
-- Names and paths of a share: `nameToPath` and `joinPath` of internal/smb/create.go, and
-- `shareFromPath` of internal/smb/tree.go.
pub mod Split
pub mod Confined
use portable_smb_server.Base.{
  ℕ, Bool, ◌&&◌, not, Option, none, some, List, [], ◌∷◌, ◌++◌, map, reverse, ◌==◌, if◌then◌else◌,
  list_eq,
}
use portable_smb_server.Packet.Utf16.{Str}

abbrev pub slash : ℕ
slash = b'/'

abbrev pub backslash : ℕ
backslash = 92

abbrev pub dot : Str
dot = b'.' ∷ []

abbrev pub dot_dot : Str
dot_dot = b'.' ∷ b'.' ∷ []

abbrev pub is_empty : Str → Bool
is_empty [] = Bool.true
is_empty (c ∷ s) = Bool.false

-- strings.ReplaceAll(name, `\`, `/`)
abbrev pub replace_rune : ℕ → ℕ
replace_rune c = if c == backslash then slash else c

abbrev pub cons_head : ℕ → List Str → List Str
cons_head c [] = (c ∷ []) ∷ []
cons_head c (w ∷ ws) = (c ∷ w) ∷ ws

-- the elements between slashes
unfoldable pub split : Str → List Str
split [] = [] ∷ []
split (c ∷ s) = let rest = split s in if c == slash then [] ∷ rest else cons_head c rest

unfoldable pub join : List Str → Str
join [] = []
join (w ∷ []) = w
join (w ∷ v ∷ ws) = w ++ (slash ∷ join (v ∷ ws))

abbrev pub pop : List Str → List Str
pop [] = []
pop (top ∷ below) = below

-- One element of `path.Clean` on a rooted path; the stack holds the elements kept, the last first.
abbrev pub clean_element : List Str → Str → List Str
clean_element stack w =
    if is_empty w
    then stack
    else if list_eq w dot
    then stack
    else if list_eq w dot_dot
    then pop stack
    else w ∷ stack

unfoldable pub clean_elements : List Str → List Str → List Str
clean_elements stack [] = reverse stack
clean_elements stack (w ∷ ws) = clean_elements (clean_element stack w) ws

-- path.Clean("/" + p)
unfoldable pub clean_rooted : Str → Str
clean_rooted p = slash ∷ join (clean_elements [] (split p))

abbrev pub trim_left : Str → Str
trim_left [] = []
trim_left (c ∷ s) = if c == slash then trim_left s else c ∷ s

abbrev pub trim_right : Str → Str
trim_right [] = []
trim_right (c ∷ s) = let rest = trim_right s in if c == slash && is_empty rest then [] else c ∷ rest

-- strings.Trim(p, "/") of the cleaned path
unfoldable pub name_to_path : Str → Str
name_to_path name = trim_right (trim_left (clean_rooted (map replace_rune name)))

unfoldable pub join_path : Str → Str → Str
join_path dir name = if is_empty dir then name else dir ++ (slash ∷ name)

-- `strings.TrimPrefix(p, "\\\\")`
abbrev pub trim_unc : Str → Str
trim_unc (a ∷ b ∷ s) = if a == backslash && b == backslash then s else a ∷ b ∷ s
trim_unc s = s

abbrev pub has_backslash : Str → Bool
has_backslash [] = Bool.false
has_backslash (d ∷ t) = if d == backslash then Bool.true else has_backslash t

-- the part behind the last backslash
abbrev pub last_part : Str → Str
last_part [] = []
last_part (c ∷ s) = if has_backslash s then last_part s else if c == backslash then s else c ∷ s

unfoldable pub share_from_path : Str → Str
share_from_path p = last_part (trim_unc p)

abbrev last : List Str → Str
last [] = []
last (w ∷ []) = w
last (w ∷ v ∷ ws) = last (v ∷ ws)

-- path.Base of a path with no trailing slash, "" for the share root
unfoldable pub base_name : Str → Str
base_name s = last (split s)
