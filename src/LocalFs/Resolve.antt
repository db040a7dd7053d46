-- ===== src/LocalFs/Resolve.antt =====
-- Where `resolve` of internal/localfs/localfs.go leads.
use mathlib.Core.List.{reverse-append}
use portable_smb_server.Base.{
  ℕ, false, List, [], ◌∷◌, ◌++◌, reverse, ◌≡◌, refl, sym, ◌∙◌, ap, ap₂, subst, ◌==◌, if◌then◌else◌,
  if_lem, list_eq, list_eq_refl, All, append-nil, append_assoc, arith,
}
use portable_smb_server.Packet.Utf16.{Str}
use portable_smb_server.Path.{
  slash, dot, dot_dot, cons_head, split, join, pop, clean_element, clean_elements, clean_rooted,
}
use portable_smb_server.Path.Split.{NoSlash, NonEmpty, split-NoSlash, split-join}
use portable_smb_server.Fsx.{ok, err, permission}
use portable_smb_server.LocalFs.{
  join_clean, elements, rel_elements, dot_or_join, rel, escapes, resolve,
}

-- An element of a path that goes down: not "", "." or "..", and with no slash in it.
pub record IsDown (w : Str) : Type 0 where
  pub non_empty : NonEmpty w
  pub ne_dot : list_eq w dot ≡ false
  pub ne_dot_dot : list_eq w dot_dot ≡ false
  pub no_slash : NoSlash w

-- the path of elements below a root
abbrev pub path_of : List Str → Str
path_of ws = slash ∷ join ws

abbrev pub onto : List Str → List Str → List Str
onto [] stack = stack
onto (w ∷ ws) stack = onto ws (w ∷ stack)

reverse-onto : (ws stack : List Str) → reverse (onto ws stack) ≡ reverse stack ++ ws
reverse-onto [] stack = sym (append-nil (reverse stack))
reverse-onto (w ∷ ws) stack =
    reverse-onto ws (w ∷ stack)
    ∙ ap (λ l. l ++ ws) (reverse-append (w ∷ []) stack)
    ∙ append_assoc (reverse stack) (w ∷ []) ws

All-snoc : (ws : List Str) (w : Str) → All IsDown ws → IsDown w → All IsDown (ws ++ (w ∷ []))
All-snoc [] w h k = (k, tt)
All-snoc (v ∷ ws) w (hv, h) k = (hv, All-snoc ws w h k)

All-reverse : (ws : List Str) → All IsDown ws → All IsDown (reverse ws)
All-reverse [] h = tt
All-reverse (w ∷ ws) (hw, h) =
    rw (reverse-append (w ∷ []) ws) (All-snoc (reverse ws) w (All-reverse ws h) hw)

pop-IsDown : (stack : List Str) → All IsDown stack → All IsDown (pop stack)
pop-IsDown [] h = tt
pop-IsDown (w ∷ ws) (hw, h) = h

clean_element-IsDown :
    (stack : List Str) (w : Str) → All IsDown stack → NoSlash w → All IsDown (clean_element stack w)
clean_element-IsDown stack w h s = ground (arith, pop-IsDown stack h)

clean_elements-IsDown :
    (ws stack : List Str) → All IsDown stack → All NoSlash ws → All IsDown (clean_elements stack ws)
unfolding clean_elements
clean_elements-IsDown [] stack h s = All-reverse stack h
clean_elements-IsDown (w ∷ ws) stack h (sw, s) =
    clean_elements-IsDown ws (clean_element stack w) (clean_element-IsDown stack w h sw) s

clean_elements-onto :
    (ws stack rest : List Str)
    → All IsDown ws
    → clean_elements stack (ws ++ rest) ≡ clean_elements (onto ws stack) rest
unfolding clean_elements
clean_elements-onto [] stack rest h = refl
clean_elements-onto (w ∷ ws) stack rest (hw, h) =
    ap (λ s. clean_elements s (ws ++ rest)) (pushed stack w hw)
    ∙ clean_elements-onto ws (w ∷ stack) rest h
  where
    pushed : (stack : List Str) (w : Str) → IsDown w → clean_element stack w ≡ w ∷ stack
    pushed stack w h = ground (arith, h.non_empty, h.ne_dot, h.ne_dot_dot)

-- the elements that have been joined, and those behind them
clean_elements-join :
    (ws stack rest : List Str)
    → All IsDown ws
    → clean_elements stack (split (join ws) ++ rest) ≡ clean_elements (onto ws stack) rest
unfolding clean_elements split join
clean_elements-join [] stack rest h = refl
clean_elements-join (w ∷ ws) stack rest h =
    ap (λ l. clean_elements stack (l ++ rest)) (split-join w ws (no_slashes (w ∷ ws) h))
    ∙ clean_elements-onto (w ∷ ws) stack rest h
  where
    no_slashes : (ws : List Str) → All IsDown ws → All NoSlash ws
    no_slashes [] h = tt
    no_slashes (w ∷ ws) (hw, h) = (hw.no_slash, no_slashes ws h)

split-Cons : (s : Str) → (w : Str) × (ws : List Str) × (split s ≡ w ∷ ws)
unfolding split
split-Cons [] = ([], [], refl)
split-Cons (c ∷ s) =
    if_lem (λ l. (w : Str) × (ws : List Str) × (l ≡ w ∷ ws)) (c == slash) (λ _. ([], split s, refl))
      (λ _. let (w, ws, e) = split-Cons s in (c ∷ w, ws, ap (cons_head c) e))

cons_head-append :
    (c : ℕ) (s : Str) (rest : List Str)
    → cons_head c (split s ++ rest) ≡ cons_head c (split s) ++ rest
cons_head-append c s rest =
    let (w, ws, e) = split-Cons s in
    subst (λ l. cons_head c (l ++ rest) ≡ cons_head c l ++ rest) (sym e) refl

split-append : (a b : Str) → split (a ++ (slash ∷ b)) ≡ split a ++ split b
unfolding split
split-append [] b = refl
split-append (c ∷ a) b = ground (arith, split-append a b, cons_head-append c a (split b))

clean_elements-path :
    (ws stack rest : List Str)
    → All IsDown ws
    → clean_elements stack (split (path_of ws) ++ rest) ≡ clean_elements (onto ws stack) rest
unfolding clean_elements split
clean_elements-path ws stack rest h = clean_elements-join ws stack rest h

elements-path : (ws : List Str) → All IsDown ws → elements (path_of ws) ≡ ws
unfolding elements clean_elements
elements-path ws h =
    ap (clean_elements []) (sym (append-nil (split (path_of ws))))
    ∙ clean_elements-path ws [] [] h
    ∙ reverse-onto ws []

join_clean-path :
    (rs ws : List Str)
    → All IsDown rs
    → All IsDown ws
    → join_clean (path_of rs) (path_of ws) ≡ path_of (rs ++ ws)
unfolding join_clean clean_rooted clean_elements
join_clean-path rs ws h k =
    ap (λ l. path_of (clean_elements [] l)) (split-append (path_of rs) (path_of ws))
    ∙ ap path_of (
        clean_elements-path rs [] (split (path_of ws)) h
        ∙ ap (clean_elements (onto rs [])) (sym (append-nil (split (path_of ws))))
        ∙ clean_elements-path ws (onto rs []) [] k
        ∙ reverse-onto ws (onto rs [])
        ∙ ap (λ l. l ++ ws) (reverse-onto rs []))

-- what a path below the root is, seen from the root
rel_elements-append : (rs ws : List Str) → rel_elements rs (rs ++ ws) ≡ ws
unfolding rel_elements
rel_elements-append [] ws = refl
rel_elements-append (r ∷ rs) ws = ground (arith, list_eq_refl r, rel_elements-append rs ws)

All-append : (rs ws : List Str) → All IsDown rs → All IsDown ws → All IsDown (rs ++ ws)
All-append [] ws h k = k
All-append (r ∷ rs) ws (hr, h) k = (hr, All-append rs ws h k)

rel-path :
    (rs ws : List Str)
    → All IsDown rs
    → All IsDown ws
    → rel (path_of rs) (path_of (rs ++ ws)) ≡ dot_or_join ws
unfolding rel
rel-path rs ws h k = ap dot_or_join (
    ap₂ rel_elements (elements-path rs h) (elements-path (rs ++ ws) (All-append rs ws h k))
    ∙ rel_elements-append rs ws)

escapes_element : (w : Str) → IsDown w → escapes w ≡ false
escapes_element [] h = absurd (ground (arith, h.non_empty))
escapes_element (a ∷ []) h = ground arith
escapes_element (a ∷ b ∷ []) h = ground (arith, h.ne_dot_dot)
escapes_element (a ∷ b ∷ c ∷ w) h =
    let (ha, no_b) = h.no_slash in
    let (hb, no_c) = no_b in let (hc, hw) = no_c in ground (arith, hc)

escapes_elements : (w s : Str) → IsDown w → escapes (w ++ (slash ∷ s)) ≡ false
escapes_elements [] s h = absurd (ground (arith, h.non_empty))
escapes_elements (a ∷ []) [] h = ground arith
escapes_elements (a ∷ []) (b ∷ s) h = ground arith
escapes_elements (a ∷ b ∷ []) s h = ground (arith, h.ne_dot_dot)
escapes_elements (a ∷ b ∷ c ∷ w) s h =
    let (ha, no_b) = h.no_slash in
    let (hb, no_c) = no_b in let (hc, hw) = no_c in ground (arith, hc)

escapes-join : (ws : List Str) → All IsDown ws → escapes (dot_or_join ws) ≡ false
unfolding join
escapes-join [] h = refl
escapes-join (w ∷ []) (hw, h) = escapes_element w hw
escapes-join (w ∷ v ∷ ws) (hw, h) = escapes_elements w (join (v ∷ ws)) hw

-- the elements of a share's path
abbrev pub below : Str → List Str
below p = clean_elements [] (split p)

pub below-IsDown : (p : Str) → All IsDown (below p)
below-IsDown p = clean_elements-IsDown (split p) [] tt (split-NoSlash p)

-- In a share whose root is a clean absolute path, every path is resolved, and to one at or below
-- the root: the root's elements and behind them those of the path, none of which is "." or "..".
-- The check behind it, on what is seen from the root, never refuses.
pub resolve-IsDown :
    (root : List Str) (p : Str)
    → All IsDown root
    → (resolve (path_of root) p ≡ ok (path_of (root ++ below p))) × All IsDown (below p)
unfolding resolve split clean_elements clean_rooted
resolve-IsDown root [] h = (ap (λ ws. ok (path_of ws)) (sym (append-nil root)), tt)
resolve-IsDown root (c ∷ p) h =
    let ws : List Str = below (c ∷ p) in
    let down : All IsDown ws = below-IsDown (c ∷ p) in
    let full : join_clean (path_of root) (path_of ws) ≡ path_of (root ++ ws) =
      join_clean-path root ws h down in
    let kept : escapes (rel (path_of root) (join_clean (path_of root) (path_of ws))) ≡ false =
      ap (λ f. escapes (rel (path_of root) f)) full
      ∙ ap escapes (rel-path root ws h down)
      ∙ escapes-join ws down in
    (
      ap (λ b. if b then err permission else ok (join_clean (path_of root) (path_of ws))) kept
          ∙ ap ok full,
      down,
    )
