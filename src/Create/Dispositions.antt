-- ===== src/Create/Dispositions.antt =====
-- What `handleCreate` of internal/smb/create.go makes of a CreateDisposition.
use portable_smb_server.Base.{
  ℕ, zero, suc, Bool, true, false, ◌||◌, ◌&&◌, not, Option, none, some, ◌≡◌, ◌≢◌, refl, sym, ◌∙◌,
  ap, if◌then◌else◌, if_lem, arith,
}
use portable_smb_server.Wire.{Bytes}
use portable_smb_server.Packet.Status
use portable_smb_server.Fsx.{FileInfo, Result, Error, ok, err, map_os_error}
use portable_smb_server.Fsx.Errors.{map_os_error_fails}
use portable_smb_server.Conn.{Share}
use portable_smb_server.Shield.Files.{err_ok_lem}
use portable_smb_server.Create.{
  Disposition, supersede, open_existing, create, open_if, overwrite, other_disposition, truncates,
  access_to_flags, Request, parse_request, Opening, Outcome, refused, opened, make_directory,
  open_regular, open_existing_name, open_missing_name, open_request, share_refuses, file_refuses,
  read_only_flags, is_exclusive, needs_existing,
}

-- The CreateAction of [MS-SMB2] 2.2.14, from whether the name is that of a directory or a file, or free:
-- FILE_SUPERSEDED is 0, FILE_OPENED 1, FILE_CREATED 2 and FILE_OVERWRITTEN 3. A directory is only opened.
abbrev pub expected : Disposition → Option Bool → Option ℕ
expected create none = some 2
expected create (some _) = none
expected open_existing none = none
expected overwrite none = none
expected _ none = some 2
expected _ (some true) = some 1
expected open_existing (some false) = some 1
expected open_if (some false) = some 1
expected other_disposition (some false) = some 1
expected supersede (some false) = some 0
expected _ (some false) = some 3

-- the server answers FILE_OVERWRITTEN where the protocol has FILE_SUPERSEDED
abbrev pub as_answered : Option ℕ → Option ℕ
as_answered none = none
as_answered (some zero) = some 3
as_answered (some (suc n)) = some (suc n)

abbrev has_handle {ℓ} : {A : Type ℓ} → Option A → Bool
has_handle none = false
has_handle (some _) = true

abbrev pub kind_of : Result FileInfo → Option Bool
kind_of (ok fi) = some fi.is_dir
kind_of (err _) = none

missing_lem : (d : Disposition) → needs_existing d ≡ false → as_answered (expected d none) ≡ some 2
missing_lem d p = ground (arith, p)

existing_lem :
    (d : Disposition)
    → is_exclusive d ≡ false
    → as_answered (expected d (some false)) ≡ some (if truncates d then 3 else 1)
existing_lem d p = ground (arith, p)

directory_lem :
    (d : Disposition) → is_exclusive d ≡ false → as_answered (expected d (some true)) ≡ some 1
directory_lem d p = ground (arith, p)

module _ {W H : Type 0} where
  -- what is opened is a directory
  abbrev pub directory_for : Request W H → Result FileInfo → Bool
  directory_for r (ok fi) = fi.is_dir
  directory_for r (err _) = r.wants_directory

  abbrev pub is_refused_kind : Request W H → Result FileInfo → Bool
  is_refused_kind r (ok fi) = r.refuses_directory && fi.is_dir || r.wants_directory && not fi.is_dir
  is_refused_kind r (err _) = false

  pub record Opens (r : Request W H) (found : Result FileInfo) (o : Opening H) : Type 0 where
    pub action : as_answered (expected r.disposition (kind_of found)) ≡ some o.action
    pub kind : o.is_dir ≡ directory_for r found
    pub wanted_kind : is_refused_kind r found ≡ false
    pub handle : has_handle o.handle ≡ not o.is_dir

  abbrev pub Answers : Request W H → Result FileInfo → Outcome H → Type 0
  Answers r found (refused status) = status ≢ Status.success
  Answers r found (opened o) = Opens r found o

  -- the same, beside the new world
  abbrev pub On : Request W H → Result FileInfo → W × Outcome H → Type 0
  On r found out = Answers r found out.1

  -- the truncation that was asked for is that of the flags in use, where the share lets the open pass
  trunc_lem :
      (r : Request W H) (exists : Bool)
      → share_refuses r exists ≡ false
      → (if r.share.read_only then read_only_flags else r.flags).trunc ≡ r.flags.trunc
  unfolding share_refuses
  trunc_lem r exists p = ground (arith, p)

  open_regular-Answers :
      (r : Request W H) (exists : Bool) (found : Result FileInfo) (w : W)
      → r.flags.trunc ≡ truncates r.disposition
      → share_refuses r exists ≡ false
      → as_answered (expected r.disposition (kind_of found))
        ≡ some (if not exists then 2 else if truncates r.disposition then 3 else 1)
      → directory_for r found ≡ false
      → is_refused_kind r found ≡ false
      → Answers r found (open_regular r exists w).1
  unfolding open_regular
  open_regular-Answers r exists found w t p a k n =
      let flags = if r.share.read_only then read_only_flags else r.flags in
      err_ok_lem (On r found) (r.share.fs.open_file w r.path flags).1 (λ e. map_os_error_fails e)
        (λ h. record {
          action =
              a
              ∙ ap (λ b. some (if not exists then 2 else if b then 3 else 1))
                  (sym (trunc_lem r exists p ∙ t));
          kind = sym k;
          wanted_kind = n;
          handle = refl;
        })

  make_directory-Answers :
      (r : Request W H) (e : Error) (w : W)
      → needs_existing r.disposition ≡ false
      → r.wants_directory ≡ true
      → Answers r (err e) (make_directory r w).1
  unfolding make_directory
  make_directory-Answers r e w p d =
      err_ok_lem (On r (err e)) (r.share.fs.mkdir w r.path).1 (λ e1. map_os_error_fails e1)
        (λ _.
          err_ok_lem (On r (err e)) (r.share.fs.stat (r.share.fs.mkdir w r.path).0 r.path)
            (λ e1. map_os_error_fails e1)
            (λ _. record {
              action = missing_lem r.disposition p;
              kind = sym d;
              wanted_kind = refl;
              handle = refl;
            }))

  open_existing_name-Answers :
      (r : Request W H) (fi : FileInfo) (w : W)
      → r.flags.trunc ≡ truncates r.disposition
      → is_exclusive r.disposition ≡ false
      → share_refuses r true ≡ false
      → Answers r (ok fi) (open_existing_name r fi w).1
  unfolding open_existing_name
  open_existing_name-Answers r fi w t x p =
      if_lem (On r (ok fi)) (file_refuses r fi) (λ _ e. ground (arith, e))
        (λ _.
          if_lem (On r (ok fi)) fi.is_dir
            (λ d.
              if_lem (Answers r (ok fi)) r.refuses_directory (λ _ e. ground (arith, e))
                (λ n. record {
                  action =
                      ap (λ b. as_answered (expected r.disposition (some b))) d
                      ∙ directory_lem r.disposition x;
                  kind = sym d;
                  wanted_kind = ground (arith, d, n);
                  handle = refl;
                }))
            (λ d.
              if_lem (On r (ok fi)) r.wants_directory (λ _ e. ground (arith, e))
                (λ n.
                  open_regular-Answers r true (ok fi) w t p
                    (ap (λ b. as_answered (expected r.disposition (some b))) d
                      ∙ existing_lem r.disposition x)
                    d (ground (arith, d, n)))))

  pub open_request-Answers :
      (body : Bytes) (share : Share W H) (w : W)
      → let r = parse_request body share in Answers r (share.fs.stat w r.path) (open_request r w).1
  unfolding open_request open_missing_name parse_request access_to_flags
  open_request-Answers body share w =
      let r = parse_request body share in go r refl (share.fs.stat w r.path)
    where
      go :
          (r : Request W H)
          → r.flags.trunc ≡ truncates r.disposition
          → (found : Result FileInfo)
          → On r found (elim found [
            | ok fi ↦
                if is_exclusive r.disposition
                then (w, refused Status.object_name_collision)
                else if share_refuses r true
                then (w, refused Status.media_write_protected)
                else open_existing_name r fi w
            | err e ↦
                if needs_existing r.disposition
                then (w, refused (map_os_error e))
                else if share_refuses r false
                then (w, refused Status.media_write_protected)
                else open_missing_name r w
          ])
      go r t (ok fi) =
          if_lem (On r (ok fi)) (is_exclusive r.disposition) (λ _ e. ground (arith, e))
            (λ x.
              if_lem (On r (ok fi)) (share_refuses r true) (λ _ e. ground (arith, e))
                (λ p. open_existing_name-Answers r fi w t x p))
      go r t (err e) =
          if_lem (On r (err e)) (needs_existing r.disposition) (λ _. map_os_error_fails e)
            (λ x.
              if_lem (On r (err e)) (share_refuses r false) (λ _ q. ground (arith, q))
                (λ p.
                  if_lem (On r (err e)) r.wants_directory (λ d. make_directory-Answers r e w x d)
                    (λ d.
                      open_regular-Answers r false (err e) w t p (missing_lem r.disposition x) d
                        refl)))
