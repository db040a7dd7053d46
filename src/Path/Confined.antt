-- ===== src/Path/Confined.antt =====
-- The paths that `nameToPath` of internal/smb/create.go makes of names.
use mathlib.Core.List.{reverse-append}
use portable_smb_server.Base.{
  ℕ, false, List, [], ◌∷◌, ◌++◌, map, reverse, ◌≡◌, ◌≢◌, refl, sym, ap, ◌∙◌, arith, All, list_eq,
  append_assoc, append-nil,
}
use portable_smb_server.Packet.Utf16.{Str}
use portable_smb_server.Path.{
  slash, backslash, dot, dot_dot, cons_head, split, join, trim_right, pop, clean_element,
  clean_elements, clean_rooted, replace_rune, name_to_path,
}
use portable_smb_server.Path.Split.{
  NoSlash, NonEmpty, split-NoSlash, split-join, trim_left-join, trim_right-join,
}

-- An element of a path that names a child: not "", "." or "..", and with no separator in it.
pub record IsElement (w : Str) : Type 0 where
  pub non_empty : NonEmpty w
  pub ne_dot : list_eq w dot ≡ false
  pub ne_dot_dot : list_eq w dot_dot ≡ false
  pub no_slash : NoSlash w
  pub no_backslash : All (λ c. c ≢ backslash) w

NoBackslash : Str → Type 0
NoBackslash s = All (λ c. c ≢ backslash) s

replace-NoBackslash : (s : Str) → NoBackslash (map replace_rune s)
unfolding NoBackslash
replace-NoBackslash [] = tt
replace-NoBackslash (c ∷ s) = (ground arith, replace-NoBackslash s)

replace-eq_self : (s : Str) → NoBackslash s → map replace_rune s ≡ s
unfolding NoBackslash
replace-eq_self [] h = refl
replace-eq_self (c ∷ s) (hc, h) = ground (arith, replace-eq_self s h)

cons_head-NoBackslash :
    (c : ℕ) (ws : List Str) → c ≢ backslash → All NoBackslash ws → All NoBackslash (cons_head c ws)
unfolding NoBackslash
cons_head-NoBackslash c [] h k = ((h, tt), tt)
cons_head-NoBackslash c (w ∷ ws) h (hw, hws) = ((h, hw), hws)

split-NoBackslash : (s : Str) → NoBackslash s → All NoBackslash (split s)
unfolding split NoBackslash
split-NoBackslash [] h = (tt, tt)
split-NoBackslash (c ∷ s) (hc, hs) =
    ground (arith, split-NoBackslash s hs, cons_head-NoBackslash c (split s))

All-snoc :
    (ws : List Str) (w : Str) → All IsElement ws → IsElement w → All IsElement (ws ++ (w ∷ []))
All-snoc [] w h k = (k, tt)
All-snoc (v ∷ ws) w (hv, h) k = (hv, All-snoc ws w h k)

All-reverse : (ws : List Str) → All IsElement ws → All IsElement (reverse ws)
All-reverse [] h = tt
All-reverse (w ∷ ws) (hw, h) =
    rw (reverse-append (w ∷ []) ws) (All-snoc (reverse ws) w (All-reverse ws h) hw)

pop-IsElement : (stack : List Str) → All IsElement stack → All IsElement (pop stack)
pop-IsElement [] h = tt
pop-IsElement (w ∷ ws) (hw, h) = h

clean_element-IsElement :
    (stack : List Str) (w : Str)
    → All IsElement stack
    → NoSlash w
    → NoBackslash w
    → All IsElement (clean_element stack w)
unfolding NoBackslash
clean_element-IsElement stack w h s b = ground (arith, pop-IsElement stack h)

clean_elements-IsElement :
    (stack ws : List Str)
    → All IsElement stack
    → All NoSlash ws
    → All NoBackslash ws
    → All IsElement (clean_elements stack ws)
unfolding clean_elements
clean_elements-IsElement stack [] h s b = All-reverse stack h
clean_elements-IsElement stack (w ∷ ws) h (sw, s) (bw, b) =
    clean_elements-IsElement (clean_element stack w) ws (clean_element-IsElement stack w h sw bw) s
      b

elements-NoSlash : (ws : List Str) → All IsElement ws → All NoSlash ws
elements-NoSlash [] h = tt
elements-NoSlash (w ∷ ws) (hw, h) = (hw.no_slash, elements-NoSlash ws h)

elements-NonEmpty : (ws : List Str) → All IsElement ws → All NonEmpty ws
elements-NonEmpty [] h = tt
elements-NonEmpty (w ∷ ws) (hw, h) = (hw.non_empty, elements-NonEmpty ws h)

-- What `Clean` keeps of a path, and what is left of it after the slashes are trimmed.
path_elements : Str → List Str
path_elements name = clean_elements [] (split (map replace_rune name))

path_elements-IsElement : (name : Str) → All IsElement (path_elements name)
unfolding path_elements
path_elements-IsElement name =
    clean_elements-IsElement [] (split (map replace_rune name)) tt (split-NoSlash _)
      (split-NoBackslash _ (replace-NoBackslash name))

name_to_path-join : (name : Str) → name_to_path name ≡ join (path_elements name)
unfolding name_to_path clean_rooted path_elements
name_to_path-join name =
    let h = path_elements-IsElement name in
    ap trim_right
      (trim_left-join (path_elements name) (elements-NoSlash _ h) (elements-NonEmpty _ h))
    ∙ trim_right-join (path_elements name) (elements-NoSlash _ h) (elements-NonEmpty _ h)

-- Whatever name a client sends, the path is a sequence of elements of which none is empty, "." or
-- "..", and none holds a slash or a backslash: it names something at or below the share's root.
pub name_to_path_confined :
    (name : Str) → (ws : List Str) × (name_to_path name ≡ join ws) × All IsElement ws
name_to_path_confined name =
    (path_elements name, name_to_path-join name, path_elements-IsElement name)

clean_elements-append :
    (stack ws : List Str) → All IsElement ws → clean_elements stack ws ≡ reverse stack ++ ws
unfolding clean_elements
clean_elements-append stack [] h = sym (append-nil (reverse stack))
clean_elements-append stack (w ∷ ws) (hw, h) = ground (
  arith,
  clean_elements-append (w ∷ stack) ws h,
  reverse-append (w ∷ []) stack,
  append_assoc (reverse stack) (w ∷ []) ws,
)

slash_dots : (ws : List Str) → All IsElement ws → NoBackslash (join ws)
unfolding NoBackslash join
slash_dots [] h = tt
slash_dots (w ∷ []) (hw, h) = hw.no_backslash
slash_dots (w ∷ v ∷ ws) (hw, h) =
    append w (slash ∷ join (v ∷ ws)) hw.no_backslash (omega arith, slash_dots (v ∷ ws) h)
  where
    append : (a b : Str) → NoBackslash a → NoBackslash b → NoBackslash (a ++ b)
    append [] b p q = q
    append (c ∷ a) b (pc, p) q = (pc, append a b p q)

path_elements-join : (ws : List Str) → All IsElement ws → path_elements (join ws) ≡ ws
unfolding path_elements
path_elements-join ws h =
    ap (λ s. clean_elements [] (split s)) (replace-eq_self (join ws) (slash_dots ws h)) ∙ go ws h
  where
    go : (vs : List Str) → All IsElement vs → clean_elements [] (split (join vs)) ≡ vs
    go [] k = unfold clean_elements split join in refl
    go (v ∷ vs) k =
        ap (clean_elements []) (split-join v vs (elements-NoSlash (v ∷ vs) k))
        ∙ clean_elements-append [] (v ∷ vs) k

-- A path that is converted again stays as it is, so the paths that the server itself hands on
-- (for a rename or a lookup) mean the same file.
pub name_to_path_idem : (name : Str) → name_to_path (name_to_path name) ≡ name_to_path name
name_to_path_idem name =
    name_to_path-join (name_to_path name)
    ∙ ap join (
        ap path_elements (name_to_path-join name)
        ∙ path_elements-join (path_elements name) (path_elements-IsElement name))
    ∙ sym (name_to_path-join name)
