-- ===== src/CommandLine/Reach.antt =====
-- The names that main.go makes for shares, as `shareFromPath` of internal/smb/tree.go finds them in a
-- client's path.
use portable_smb_server.Base.{
  ℕ, false, ◌||◌, ◌&&◌, [], ◌∷◌, ◌++◌, map, ◌≡◌, refl, ◌==◌, if_lem, arith,
}
use portable_smb_server.Packet.Utf16.{Str}
use portable_smb_server.Path.{backslash, has_backslash, last_part, share_from_path}
use portable_smb_server.Pattern.{Unicode}
use portable_smb_server.CommandLine.{
  Paths, joined, fields, is_separator, host_rune, without_colons, absolute, host_or_given,
  flatten_name, flatten_host,
}

has_backslash-append : (p s : Str) → has_backslash (p ++ s) ≡ (has_backslash p || has_backslash s)
has_backslash-append [] s = refl
has_backslash-append (c ∷ p) s = ground (arith, has_backslash-append p s)

last_part_whole : (s : Str) → has_backslash s ≡ false → last_part s ≡ s
last_part_whole [] h = refl
last_part_whole (c ∷ s) h = ground (arith, h)

last_part-append : (p s : Str) → has_backslash s ≡ false → last_part (p ++ (backslash ∷ s)) ≡ s
last_part-append [] s h = ground (arith, h)
last_part-append (c ∷ p) s h =
    ground (arith, has_backslash-append p (backslash ∷ s), last_part-append p s h)

pub share_from_path-append :
    (p s : Str) → has_backslash s ≡ false → share_from_path (p ++ (backslash ∷ s)) ≡ s
unfolding share_from_path
share_from_path-append [] [] h = refl
share_from_path-append [] (c ∷ s) h = ground (arith, h, last_part-append [] (c ∷ s) h)
share_from_path-append (c ∷ []) s h =
    if_lem (λ t. last_part t ≡ s) (c == backslash && backslash == backslash)
      (λ _. last_part_whole s h) (λ _. last_part-append (c ∷ []) s h)
share_from_path-append (c ∷ d ∷ p) s h =
    if_lem (λ t. last_part t ≡ s) (c == backslash && d == backslash) (λ _. last_part-append p s h)
      (λ _. last_part-append (c ∷ d ∷ p) s h)

has_backslash-joined :
    (field rest : Str)
    → has_backslash field ≡ false
    → has_backslash rest ≡ false
    → has_backslash (joined field rest) ≡ false
has_backslash-joined [] rest h k = k
has_backslash-joined (c ∷ field) [] h k = h
has_backslash-joined (c ∷ field) (d ∷ rest) h k =
    ground (arith, has_backslash-append (c ∷ field) (b'_' ∷ d ∷ rest), h, k)

has_backslash-fields :
    (s field : Str) → has_backslash field ≡ false → has_backslash (fields field s) ≡ false
has_backslash-fields [] field h = h
has_backslash-fields (c ∷ s) field h =
    if_lem (λ t. has_backslash t ≡ false) (is_separator c)
      (λ _. has_backslash-joined field (fields [] s) h (has_backslash-fields s [] refl))
      (λ other.
        has_backslash-fields s (field ++ (c ∷ []))
          (ground (arith, has_backslash-append field (c ∷ []), h, other)))

host_rune_lem : (c : ℕ) → (host_rune c == backslash) ≡ false
host_rune_lem c = ground arith

has_backslash-host : (s : Str) → has_backslash (map host_rune s) ≡ false
has_backslash-host [] = refl
has_backslash-host (c ∷ s) = ground (arith, host_rune_lem c, has_backslash-host s)

module _ (u : Unicode) (paths : Paths) where
  -- A share that is named after the whole path of its folder, or after the host of its provider, is
  -- found: whatever server a client names before it, the share that the server reads in a client's
  -- path is this name.
  pub share_from_path-flatten_name :
      (server folder url : Str)
      → (share_from_path (server ++ (backslash ∷ flatten_name u paths folder))
          ≡ flatten_name u paths folder)
        × (share_from_path (server ++ (backslash ∷ flatten_host u paths url))
            ≡ flatten_host u paths url)
  unfolding flatten_name flatten_host
  share_from_path-flatten_name server folder url = (
    share_from_path-append server (flatten_name u paths folder)
        (has_backslash-fields (without_colons (map u.lower (absolute u paths folder))) [] refl),
    share_from_path-append server (flatten_host u paths url)
        (has_backslash-host (map u.lower (host_or_given (paths.host_of url) url))),
  )
