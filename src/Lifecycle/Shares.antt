-- ===== src/Lifecycle/Shares.antt =====
-- The shares of a new server: `NewServer` and `findShare` of internal/smb/server.go.
use portable_smb_server.Base.{
  suc, ◌<◌, Bool, true, false, ◌&&◌, not, Option, none, some, List, [], ◌∷◌, ◌++◌, map, ◌≡◌, refl,
  sym, ◌∙◌, ap, subst, list_eq_refl, if◌then◌else◌, length, All, append-nil, append_assoc, arith,
}
use portable_smb_server.Packet.Utf16.{Str}
use portable_smb_server.Path.{is_empty}
use portable_smb_server.Pattern.{Unicode, equal_fold}
use portable_smb_server.Fsx.{FileSystem}
use portable_smb_server.Conn.{Share, find_share}
use portable_smb_server.Lifecycle.{
  ShareDef, Options, Outcome, made, refused, unnamed, reserved, duplicate, ipc, share_of, add_share,
  add_shares, no_definition, new_server, no_password, no_shares,
}

module _ {W H : Type 0} (u : Unicode) where
  -- a lookup that succeeds does so in a longer list too
  find_share-append :
      (name : Str) (shs more : List (Share W H)) (sh : Share W H)
      → find_share u name shs ≡ some sh
      → find_share u name (shs ++ more) ≡ some sh
  unfolding find_share
  find_share-append name [] more sh h = ground arith
  find_share-append name (x ∷ shs) more sh h = ground (arith, find_share-append name shs more sh)

  find_share_last :
      (shs : List (Share W H)) (sh : Share W H)
      → find_share u sh.name shs ≡ none
      → find_share u sh.name (shs ++ (sh ∷ [])) ≡ some sh
  unfolding find_share
  find_share_last [] sh h = ground (arith, list_eq_refl (map u.fold sh.name))
  find_share_last (x ∷ shs) sh h = ground (arith, find_share_last shs sh)

  -- A definition that is served under its name.
  pub record Served (shs : List (Share W H)) (def : ShareDef W H) : Type 0 where
    pub fs : FileSystem W H
    pub has_fs : def.fs ≡ some fs
    pub found : find_share u def.name shs ≡ some (share_of u def fs)
    pub named : is_empty def.name ≡ false
    pub not_reserved : equal_fold u def.name ipc ≡ false

  -- what a definition that is taken has been found to be
  record Added (shs out : List (Share W H)) (def : ShareDef W H) : Type 0 where
    fs : FileSystem W H
    has_fs : def.fs ≡ some fs
    named : is_empty def.name ≡ false
    not_reserved : equal_fold u def.name ipc ≡ false
    is_new : find_share u def.name shs ≡ none
    same : shs ++ (share_of u def fs ∷ []) ≡ out

  made-injective : (a b : List (Share W H)) → made a ≡ made b → a ≡ b
  made-injective a b h = cc

  add_share-Added :
      (shs out : List (Share W H)) (def : ShareDef W H)
      → add_share u shs def ≡ made out
      → Added shs out def
  unfolding add_share
  add_share-Added shs out def h =
      taken def.fs (is_empty def.name) (equal_fold u def.name ipc) (find_share u def.name shs) refl
        refl refl refl h
    where
      taken :
          (o : Option (FileSystem W H)) (e r : Bool) (f : Option (Share W H))
          → def.fs ≡ o
          → is_empty def.name ≡ e
          → equal_fold u def.name ipc ≡ r
          → find_share u def.name shs ≡ f
          → (elim o as (λ _. Outcome (List (Share W H))) [
            | none ↦ refused unnamed
            | some fs ↦
                if e
                then refused unnamed
                else if r
                then refused reserved
                else elim f as (λ _. Outcome (List (Share W H))) [
                  | some other ↦ refused duplicate
                  | none ↦ made (shs ++ (share_of u def fs ∷ []))
                ]
          ])
            ≡ made out
          → Added shs out def
      taken none e r f a b c d h = absurd (ground (arith, h))
      taken (some fs) true r f a b c d h = absurd (ground (arith, h))
      taken (some fs) false true f a b c d h = absurd (ground (arith, h))
      taken (some fs) false false (some other) a b c d h = absurd (ground (arith, h))
      taken (some fs) false false none a b c d h = record {
        fs = fs;
        has_fs = a;
        named = b;
        not_reserved = c;
        is_new = d;
        same = made-injective (shs ++ (share_of u def fs ∷ [])) out h;
      }

  Added-Served :
      {shs out : List (Share W H)} {def : ShareDef W H} → Added shs out def → Served out def
  Added-Served {shs} {out} {def} a = record {
    fs = a.fs;
    has_fs = a.has_fs;
    found =
        subst (λ l. find_share u def.name l ≡ some (share_of u def a.fs)) a.same
          (find_share_last shs (share_of u def a.fs) a.is_new);
    named = a.named;
    not_reserved = a.not_reserved;
  }

  Served-append :
      (shs more : List (Share W H)) (def : ShareDef W H) → Served shs def → Served (shs ++ more) def
  Served-append shs more def s = record {
    fs = s.fs;
    has_fs = s.has_fs;
    found = find_share-append def.name shs more (share_of u def s.fs) s.found;
    named = s.named;
    not_reserved = s.not_reserved;
  }

  -- The rest of the definitions adds shares behind those that are there.
  record Grown (shs out : List (Share W H)) (defs : List (ShareDef W H)) : Type 0 where
    more : List (Share W H)
    same : shs ++ more ≡ out
    counted : length more ≡ length defs
    served : All (Served out) defs

  step-Grown :
      (shs mid out : List (Share W H)) (def : ShareDef W H) (defs : List (ShareDef W H))
      → Added shs mid def
      → Grown mid out defs
      → Grown shs out (def ∷ defs)
  step-Grown shs mid out def defs a g =
      let sh = share_of u def a.fs in
      record {
        more = sh ∷ g.more;
        same = sym (append_assoc shs (sh ∷ []) g.more) ∙ ap (λ l. l ++ g.more) a.same ∙ g.same;
        counted = ap suc g.counted;
        served = (
          subst (λ l. Served l def) g.same (Served-append mid g.more def (Added-Served a)),
          g.served,
        );
      }

  add_shares-Grown :
      (defs : List (ShareDef W H)) (shs out : List (Share W H))
      → add_shares u shs defs ≡ made out
      → Grown shs out defs
  unfolding add_shares
  add_shares-Grown [] shs out h = record {
    more = [];
    same = append-nil shs ∙ made-injective shs out h;
    counted = refl;
    served = tt;
  }
  add_shares-Grown (def ∷ defs) shs out h =
      next (λ mid. add_shares-Grown defs mid out) (add_share u shs def) refl h
    where
      next :
          ((mid : List (Share W H)) → add_shares u mid defs ≡ made out → Grown mid out defs)
          → (o : Outcome (List (Share W H))) → add_share u shs def ≡ o
          → (elim o as (λ _. Outcome (List (Share W H))) [
            | refused e ↦ refused e
            | made more ↦ add_shares u more defs
          ])
            ≡ made out
          → Grown shs out (def ∷ defs)
      next rest (refused e) a h = absurd (ground (arith, h))
      next rest (made mid) a h =
          step-Grown shs mid out def defs (add_share-Added shs mid def a) (rest mid h)

  some_definition : (defs : List (ShareDef W H)) → no_definition u defs ≡ false → 0 < length defs
  some_definition [] h = absurd (ground (arith, h))
  some_definition (def ∷ defs) h = omega arith

  -- A server that comes to be has a share for every definition, and no others: each has a name that is
  -- not empty and not IPC$, whatever the case, and a client that asks for that name gets the file
  -- system of its definition, and no other. There is a password if there is a user.
  pub new_server-Served :
      (opt : Options W H) (shs : List (Share W H))
      → new_server u opt ≡ made shs
      → All (Served shs) opt.shares
        × (length shs ≡ length opt.shares)
        × (0 < length shs)
        × ((not (is_empty opt.user) && is_empty opt.pass) ≡ false)
  unfolding new_server
  new_server-Served opt shs h =
      opened (not (is_empty opt.user) && is_empty opt.pass) (no_definition u opt.shares) refl refl h
    where
      opened :
          (b n : Bool)
          → (not (is_empty opt.user) && is_empty opt.pass) ≡ b
          → no_definition u opt.shares ≡ n
          → (if b
              then refused no_password
              else if n
              then refused no_shares
              else add_shares u [] opt.shares)
            ≡ made shs
          → All (Served shs) opt.shares
            × (length shs ≡ length opt.shares)
            × (0 < length shs)
            × ((not (is_empty opt.user) && is_empty opt.pass) ≡ false)
      opened true n a b h = absurd (ground (arith, h))
      opened false true a b h = absurd (ground (arith, h))
      opened false false a b h =
          let g = add_shares-Grown opt.shares [] shs h in
          let count : length shs ≡ length opt.shares = sym (ap length g.same) ∙ g.counted in
          (g.served, count, omega (arith, count, some_definition opt.shares b), a)
