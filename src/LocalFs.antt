-- ===== src/LocalFs.antt =====
-- The file system on the local disk: internal/localfs/localfs.go, in the build for systems whose
-- separator is the slash. The calls of package os, on absolute paths, are a parameter.
pub mod Resolve
pub mod Confined
use portable_smb_server.Base.{
  ℕ, Bool, true, false, ◌||◌, ◌&&◌, Option, none, some, List, [], ◌∷◌, ◌++◌, ◌==◌, if◌then◌else◌,
  list_eq,
}
use portable_smb_server.Base.Int.{ℤ, scale, wrap64}
use portable_smb_server.Wire.{Bytes}
use portable_smb_server.Packet.Utf16.{Str}
use portable_smb_server.Packet.Filetime.{Time}
use portable_smb_server.Path.{
  slash, dot, dot_dot, is_empty, split, join, clean_elements, clean_rooted,
}
use portable_smb_server.Fsx.{
  Error, permission, other, Result, ok, err, FileInfo, OpenFlags, FileSystem,
}

-- `syscall.Statfs_t`
pub record Statfs : Type 0 where
  pub blocks : ℕ
  pub bavail : ℕ
  pub bsize : ℤ

-- Package os over what the disk holds, `openOSFile`, and the methods of `*os.File`. An entry of a
-- directory has the information that its Info brings.
pub record Os (W H : Type 0) : Type 0 where
  pub abs : Str → Result Str
  pub stat : W → Str → Result FileInfo
  pub open_os_file : W → Str → OpenFlags → W × Result H
  pub mkdir : W → Str → W × Result (Unit {0})
  pub read_dir : W → Str → Result (List (Result FileInfo))
  pub rename : W → Str → Str → W × Result (Unit {0})
  pub remove : W → Str → W × Result (Unit {0})
  pub truncate : W → Str → ℤ → W × Result (Unit {0})
  pub chtimes : W → Str → Time → W × Result (Unit {0})
  pub statfs : W → Str → Result Statfs
  pub is_windows_or_darwin : Bool
  pub read_at : W → H → ℕ → ℤ → W × Bytes × Option Error
  pub write_at : W → H → Bytes → ℤ → W × Result ℕ
  pub close : W → H → W × Result (Unit {0})
  pub truncate_handle : W → H → ℤ → W × Result (Unit {0})
  pub sync : W → H → W × Result (Unit {0})
  pub stat_handle : W → H → Result FileInfo

-- filepath.Join(root, clean) of an absolute root
unfoldable pub join_clean : Str → Str → Str
join_clean root clean = clean_rooted (root ++ (slash ∷ clean))

-- the elements of an absolute path that has been cleaned
unfoldable pub elements : Str → List Str
elements s = clean_elements [] (split s)

abbrev pub dots : List Str → List Str
dots [] = []
dots (b ∷ bs) = dot_dot ∷ dots bs

-- filepath.Rel of two absolute paths: the elements in common are left out, and each one left of the base
-- is a step up
unfoldable pub rel_elements : List Str → List Str → List Str
rel_elements [] ts = ts
rel_elements (b ∷ bs) [] = dots (b ∷ bs)
rel_elements (b ∷ bs) (t ∷ ts) =
    let rest = rel_elements bs ts in if list_eq b t then rest else dots (b ∷ bs) ++ (t ∷ ts)

abbrev pub dot_or_join : List Str → Str
dot_or_join [] = dot
dot_or_join (w ∷ ws) = join (w ∷ ws)

unfoldable pub rel : Str → Str → Str
unfolding elements rel_elements
rel base target = dot_or_join (rel_elements (elements base) (elements target))

-- strings.HasPrefix(s, "../")
abbrev pub starts_above : Str → Bool
starts_above (a ∷ b ∷ c ∷ s) = a == b'.' && (b == b'.' && c == slash)
starts_above _ = false

abbrev pub escapes : Str → Bool
escapes r = list_eq r dot_dot || starts_above r

unfoldable pub resolve : Str → Str → Result Str
unfolding join_clean rel
resolve root p =
    if is_empty p
    then ok root
    else if escapes (rel root (join_clean root (clean_rooted p)))
    then err permission
    else ok (join_clean root (clean_rooted p))

-- an entry that has gone since it was listed is left out
abbrev pub present : List (Result FileInfo) → List FileInfo
present [] = []
present (ok fi ∷ es) = fi ∷ present es
present (err e ∷ es) = present es

abbrev pub listed : Result (List (Result FileInfo)) → Result (List FileInfo)
listed (ok es) = ok (present es)
listed (err e) = err e

-- a call on the path that a name resolves to
abbrev pub on_path : {A : Type 0} → Result Str → (Str → Result A) → Result A
on_path (err e) call = err e
on_path (ok full) call = call full

abbrev pub changing : {W A : Type 0} → W → Result Str → (Str → W × Result A) → W × Result A
changing w (err e) call = (w, err e)
changing w (ok full) call = call full

-- the products of 64-bit integers; the count is not cut to 64 bits first, which the product does not show
abbrev pub statfs_answer : Result Statfs → Result (ℤ × ℤ)
statfs_answer (ok st) = ok (wrap64 (scale st.bsize st.blocks), wrap64 (scale st.bsize st.bavail))
statfs_answer (err e) = err e

-- `FS` with its root
unfoldable pub local_fs : {W H : Type 0} → Os W H → Str → FileSystem W H
unfolding resolve
local_fs os root = record {
  stat = λ w p. on_path (resolve root p) (λ f. os.stat w f);
  open_file = λ w p flags. changing w (resolve root p) (λ f. os.open_os_file w f flags);
  mkdir = λ w p. changing w (resolve root p) (λ f. os.mkdir w f);
  read_dir = λ w p. on_path (resolve root p) (λ f. listed (os.read_dir w f));
  rename = λ w p q.
      changing w (resolve root p) (λ f. changing w (resolve root q) (λ g. os.rename w f g));
  remove = λ w p. changing w (resolve root p) (λ f. os.remove w f);
  truncate = λ w p n. changing w (resolve root p) (λ f. os.truncate w f n);
  chtimes = λ w p t. changing w (resolve root p) (λ f. os.chtimes w f t);
  statfs = λ w. statfs_answer (os.statfs w root);
  case_insensitive = os.is_windows_or_darwin;
  read_at = os.read_at;
  write_at = os.write_at;
  close = os.close;
  truncate_handle = os.truncate_handle;
  sync = os.sync;
  stat_handle = os.stat_handle;
}

-- the directory that `New` serves
abbrev pub new_root : {W H : Type 0} → Os W H → W → Str → Result Str
new_root os w dir = elim (os.abs dir) [
  | err e ↦ err e
  | ok root ↦ elim (os.stat w root) [
    | err e ↦ err e
    | ok fi ↦ (if fi.is_dir then ok root else err other)
  ]
]
