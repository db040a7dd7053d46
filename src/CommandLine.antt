-- ===== src/CommandLine.antt =====
-- The shares that the command line asks for: main.go. What package `path/filepath` makes of a path,
-- which depends on the operating system, and the host of a URL are parameters.
pub mod Names
pub mod Keys
pub mod Reach
use portable_smb_server.Base.{
  ℕ, suc, ◌+◌, Bool, true, false, ◌||◌, ◌&&◌, not, Option, none, some, List, [], ◌∷◌, ◌++◌, map,
  ltb, leb, ◌==◌, if◌then◌else◌, list_eq,
}
use portable_smb_server.Packet.Utf16.{Str}
use portable_smb_server.Path.{is_empty, slash, backslash, dot}
use portable_smb_server.Pattern.{Unicode, equal_fold}
use portable_smb_server.Fsx.{FileSystem}
use portable_smb_server.Lifecycle.{Options, ShareDef}

-- filepath.Abs (`none` is its error), filepath.Base, and the separator
pub record Paths : Type 0 where
  pub abs : Str → Option Str
  pub base : Str → Str
  pub separator : ℕ
  pub host_of : Str → Option Str

-- `shareArg`; a name that is empty is not given yet
pub record ShareArg : Type 0 where
  pub folder : Str
  pub vfs : Str
  pub name : Str

pub data Flag : Type 0 where
  folder vfs share : Str → Flag

pub data Fatal : Type 0 where
  empty_name no_source named_twice duplicate : Fatal

pub data Outcome (A : Type 0) : Type 0 where
  made : A → Outcome A
  fatal : Fatal → Outcome A

-- the last of the list is named
abbrev pub name_last : List ShareArg → Str → Outcome (List ShareArg)
name_last [] v = fatal no_source
name_last (a ∷ []) v =
    if is_empty a.name then made (record a { name = v } ∷ []) else fatal named_twice
name_last (a ∷ b ∷ args) v = elim (name_last (b ∷ args) v) [
  | made more ↦ made (a ∷ more)
  | fatal e ↦ fatal e
]

-- Set of `folderFlag`, `vfsFlag` and `shareNameFlag`
unfoldable pub set_flag : List ShareArg → Flag → Outcome (List ShareArg)
set_flag args (folder v) = made (args ++ (record { folder = v; vfs = []; name = [] } ∷ []))
set_flag args (vfs v) = made (args ++ (record { folder = []; vfs = v; name = [] } ∷ []))
set_flag args (share v) = if is_empty v then fatal empty_name else name_last args v

-- flag.Parse calls Set in the order of the arguments
unfoldable pub parse_flags : List ShareArg → List Flag → Outcome (List ShareArg)
parse_flags args [] = made args
parse_flags args (f ∷ fs) = elim (set_flag args f) [
  | made more ↦ parse_flags more fs
  | fatal e ↦ fatal e
]

abbrev underscore : ℕ
underscore = b'_'

abbrev colon : ℕ
colon = b':'

-- strings.HasSuffix(s, ":")
abbrev ends_in_colon : Str → Bool
ends_in_colon [] = false
ends_in_colon (c ∷ []) = c == colon
ends_in_colon (c ∷ d ∷ s) = ends_in_colon (d ∷ s)

-- strings.ReplaceAll(s, ":", "")
abbrev pub without_colons : Str → Str
without_colons [] = []
without_colons (c ∷ s) = let rest = without_colons s in if c == colon then rest else c ∷ rest

abbrev pub is_separator : ℕ → Bool
is_separator c = c == backslash || c == slash

-- strings.FieldsFunc and strings.Join with "_": the fields between separators, of which the one that is
-- being read is `field`
abbrev pub joined : Str → Str → Str
joined [] rest = rest
joined (c ∷ field) [] = c ∷ field
joined (c ∷ field) (d ∷ rest) = (c ∷ field) ++ (underscore ∷ d ∷ rest)

abbrev pub fields : Str → Str → Str
fields field [] = field
fields field (c ∷ s) =
    let split = joined field (fields [] s) in
    let longer = fields (field ++ (c ∷ [])) s in if is_separator c then split else longer

abbrev pub is_lower_or_digit : ℕ → Bool
is_lower_or_digit c = leb b'a' c && leb c b'z' || leb b'0' c && leb c b'9'

abbrev pub host_rune : ℕ → ℕ
host_rune c = if is_lower_or_digit c then c else underscore

abbrev or_given : Option Str → Str → Str
or_given none s = s
or_given (some t) s = t

-- the host, if it is there and not empty
abbrev pub host_or_given : Option Str → Str → Str
host_or_given none s = s
host_or_given (some h) s = if is_empty h then s else h

module _ (u : Unicode) (paths : Paths) where
  -- filepath.Abs, or the folder where it fails
  abbrev pub absolute : Str → Str
  absolute f = or_given (paths.abs f) f

  unfoldable pub base_name : Str → Str
  base_name f =
      let base = paths.base (absolute f) in
      if list_eq base dot || list_eq base (paths.separator ∷ []) || ends_in_colon base
      then []
      else base

  unfoldable pub flatten_name : Str → Str
  flatten_name f = fields [] (without_colons (map u.lower (absolute f)))

  unfoldable pub flatten_host : Str → Str
  flatten_host url = map host_rune (map u.lower (host_or_given (paths.host_of url) url))

  -- the name that counts against another share's
  abbrev pub candidate : ShareArg → Str
  unfolding base_name
  candidate a = if is_empty a.name then base_name a.folder else a.name

  -- nameCount > 0, over the arguments other than this one
  unfoldable pub is_taken : Str → List ShareArg → Bool
  unfolding base_name
  is_taken name [] = false
  is_taken name (a ∷ args) =
      let rest = is_taken name args in equal_fold u (candidate a) name || rest

  -- the name of one argument, beside those before it and those behind it
  unfoldable pub assigned : List ShareArg → ShareArg → List ShareArg → ShareArg
  assigned before a behind =
      let base = base_name a.folder in
      if not (is_empty a.name)
      then a
      else if is_empty base || is_taken base before || is_taken base behind
      then record a { name = flatten_name a.folder }
      else record a { name = base }

  unfoldable pub assign_loop : List ShareArg → List ShareArg → List ShareArg
  assign_loop before [] = before
  assign_loop before (a ∷ behind) = assign_loop (before ++ (assigned before a behind ∷ [])) behind

  -- `seen`
  abbrev pub is_seen : Str → List Str → Bool
  is_seen k [] = false
  is_seen k (j ∷ seen) = let rest = is_seen k seen in list_eq j k || rest

  abbrev pub key : ShareArg → Str
  key a = map u.lower a.name

  unfoldable pub has_duplicate : List Str → List ShareArg → Bool
  has_duplicate seen [] = false
  has_duplicate seen (a ∷ args) =
      let rest = has_duplicate (key a ∷ seen) args in if is_seen (key a) seen then true else rest

  unfoldable pub assign_share_names : List ShareArg → Outcome (List ShareArg)
  assign_share_names args =
      let named = assign_loop [] args in
      if has_duplicate [] named then fatal duplicate else made named

  -- the name of a share on a provider: the given one, the provider's, or its host
  unfoldable pub name_provider : Str → ShareArg → ShareArg
  unfolding flatten_host
  name_provider suggested a =
      if not (is_empty a.name)
      then a
      else if not (is_empty suggested)
      then record a { name = suggested }
      else record a { name = flatten_host a.vfs }
