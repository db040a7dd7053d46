-- ===== src/Path/Split.antt =====
-- Splitting at slashes and joining (`strings` behind `nameToPath` of internal/smb/create.go).
use portable_smb_server.Base.{ℕ, false, List, [], ◌∷◌, ◌++◌, ◌≡◌, ◌≢◌, refl, ap, ◌∙◌, arith, All}
use portable_smb_server.Packet.Utf16.{Str}
use portable_smb_server.Path.{slash, is_empty, cons_head, split, join, trim_left, trim_right}

abbrev pub NoSlash : Str → Type 0
NoSlash s = All (λ c. c ≢ slash) s

cons_head-NoSlash :
    (c : ℕ) (ws : List Str) → c ≢ slash → All NoSlash ws → All NoSlash (cons_head c ws)
cons_head-NoSlash c [] h k = ((h, tt), tt)
cons_head-NoSlash c (w ∷ ws) h (hw, hws) = ((h, hw), hws)

pub split-NoSlash : (s : Str) → All NoSlash (split s)
unfolding split
split-NoSlash [] = (tt, tt)
split-NoSlash (c ∷ s) = ground (arith, split-NoSlash s, cons_head-NoSlash c (split s))

split_element : (w : Str) → NoSlash w → split w ≡ w ∷ []
unfolding split
split_element [] h = refl
split_element (c ∷ w) (hc, hw) = ground (arith, split_element w hw)

split_element_append : (w s : Str) → NoSlash w → split (w ++ (slash ∷ s)) ≡ w ∷ split s
unfolding split
split_element_append [] s h = refl
split_element_append (c ∷ w) s (hc, hw) = ground (arith, split_element_append w s hw)

pub split-join : (w : Str) (ws : List Str) → All NoSlash (w ∷ ws) → split (join (w ∷ ws)) ≡ w ∷ ws
unfolding join
split-join w [] (hw, h) = split_element w hw
split-join w (v ∷ ws) (hw, h) =
    split_element_append w (join (v ∷ ws)) hw ∙ ap (λ t. w ∷ t) (split-join v ws h)

trim_right_element : (w : Str) → NoSlash w → trim_right w ≡ w
trim_right_element [] h = refl
trim_right_element (c ∷ w) (hc, hw) = ground (arith, trim_right_element w hw)

trim_right_append :
    (w s : Str) → trim_right s ≡ s → is_empty s ≡ false → trim_right (w ++ s) ≡ w ++ s
trim_right_append [] s h k = h
trim_right_append (c ∷ w) [] h k = ground arith
trim_right_append (c ∷ []) (d ∷ s) h k = ground arith
trim_right_append (c ∷ d ∷ w) (e ∷ s) h k = ground (arith, trim_right_append (d ∷ w) (e ∷ s) h k)

abbrev pub NonEmpty : Str → Type 0
NonEmpty w = is_empty w ≡ false

is_empty-join : (w : Str) (ws : List Str) → NonEmpty w → is_empty (join (w ∷ ws)) ≡ false
unfolding join
is_empty-join (c ∷ w) [] h = refl
is_empty-join (c ∷ w) (v ∷ ws) h = refl
is_empty-join [] ws h = absurd (ground arith)

-- Joined elements begin and end with no slash.
pub trim_right-join :
    (ws : List Str) → All NoSlash ws → All NonEmpty ws → trim_right (join ws) ≡ join ws
unfolding join
trim_right-join [] h k = refl
trim_right-join (w ∷ []) (hw, h) k = trim_right_element w hw
trim_right-join (w ∷ v ∷ ws) (hw, h) (kw, k) =
    trim_right_append w (slash ∷ join (v ∷ ws))
      (ground (arith, trim_right-join (v ∷ ws) h k, is_empty-join v ws k.0)) refl

pub trim_left-join :
    (ws : List Str) → All NoSlash ws → All NonEmpty ws → trim_left (slash ∷ join ws) ≡ join ws
unfolding join
trim_left-join [] h k = refl
trim_left-join ((c ∷ w) ∷ []) ((hc, hw), h) k = ground arith
trim_left-join ((c ∷ w) ∷ v ∷ ws) ((hc, hw), h) k = ground arith
trim_left-join ([] ∷ ws) h (k, ks) = absurd (ground arith)
