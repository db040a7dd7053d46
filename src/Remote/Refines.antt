-- ===== src/Remote/Refines.antt =====
-- What a share on a provider does to the file system behind the provider, beside what a share on that
-- file system would do: the operations of internal/httpvfs/httpvfs.go through the handlers of
-- internal/vfsprovider/vfsprovider.go.
use portable_smb_server.Base.{
  ℕ, ◌^◌, Bool, true, false, Option, none, some, List, map, ◌≡◌, if◌then◌else◌,
}
use portable_smb_server.Base.Int.{ℤ, pos}
use portable_smb_server.Wire.{Bytes}
use portable_smb_server.Packet.Utf16.{Str}
use portable_smb_server.Packet.Filetime.{Time}
use portable_smb_server.Fsx.{Error, not_empty, is_not_exist, Result, ok, err, FileInfo, FileSystem}
use portable_smb_server.Http.{Json, no_fields, Response, answer}
use portable_smb_server.Provider
use portable_smb_server.Provider.{Options, handler, to_json, is_full_dir}
use portable_smb_server.HttpVfs.Errors.{received}
use portable_smb_server.HttpVfs.Client.{
  Send, Settings, Remote, refusal, json_of, remote_info, stat_path, read_dir_path, statfs_all,
  mkdir_path, rename_path, remove_path, truncate_path, chtimes_path,
}
use portable_smb_server.Remote.Requests.{answered}

-- what a client knows of a file: all but the exact permissions
abbrev pub seen : FileInfo → FileInfo
seen fi = remote_info (to_json fi)

-- a result of the file system, as it comes through
abbrev pub relayed : {A B : Type 0} → Bool → (A → B) → Result A → Result B
relayed c f (ok a) = ok (f a)
relayed c f (err e) = err (received e c)

abbrev pub relayed_space : Result (ℤ × ℤ) → Result (ℤ × ℤ)
relayed_space (ok v) = ok v
relayed_space (err e) =
    if is_not_exist e then ok (pos (2 ^ 40), pos (2 ^ 39)) else err (received e false)

-- the same world behind it, and the result that came through
abbrev pub Tracks : {W : Type 0} → Remote W × Result (Unit {0}) → W × Result (Unit {0}) → Type 0
Tracks remote direct = (remote.0.world ≡ direct.0) × (remote.1 ≡ relayed false (λ u. u) direct.1)

-- a removal that failed, where the name is a directory with entries
abbrev pub relayed_removal : Bool → Result (Unit {0}) → Result (Unit {0})
relayed_removal full (ok _) = ok tt
relayed_removal full (err e) = if full then err not_empty else err (received e true)

module _ {W H : Type 0} (fs : FileSystem W H) (po : Options) (so : Settings) (encode : Json → Bytes)
    (decode : Bytes → Option Json) (parse_time : Str → Option Time) (format_time : Time → Str) where
  abbrev pub send : Send W
  send = answered (handler fs po encode decode parse_time)

  -- `change`, once the request has been answered
  abbrev after_answer :
      Bool → (Remote W → Remote W) → Remote W → W × Response → Remote W × Result (Unit {0})
  after_answer c after s (w1, a) =
      let s1 = record s { world = w1 } in
      elim (refusal c (answer a.status a.body)) [ none ↦ (after s1, ok tt) | some e ↦ (s1, err e) ]

  abbrev failed : W → Error → W × Response
  failed w e = (w, Provider.fail fs po encode decode parse_time e)

  -- the answer to a removal, from what the file system makes of it
  abbrev removal_failed : W → Error → Bool → W × Response
  removal_failed w e full =
      if full then (w, Provider.write_err fs po encode decode parse_time 409) else failed w e

  abbrev removal : Str → W × Result (Unit {0}) → W × Response
  removal p (w1, removed) = elim removed [
    | ok _ ↦ (w1, Provider.answer_ok fs po encode decode parse_time)
    | err e ↦ removal_failed w1 e (is_full_dir (fs.stat w1 p) (fs.read_dir w1 p))
  ]

  -- a removal that came through
  abbrev pub TracksRemoval : Str → Remote W × Result (Unit {0}) → W × Result (Unit {0}) → Type 0
  TracksRemoval p remote (w1, removed) =
      (remote.0.world ≡ w1)
      × (remote.1 ≡ relayed_removal (is_full_dir (fs.stat w1 p) (fs.read_dir w1 p)) removed)

  -- what the client decodes
  abbrev json_answer : W × Response → Result Json
  unfolding json_of
  json_answer (w, a) = json_of (answer a.status a.body)

  abbrev stat_answer : W → FileInfo → W × Response
  stat_answer w fi = (
    w,
    Provider.write_json fs po encode decode parse_time 200
        (record no_fields { info = some (to_json fi) }),
  )

  abbrev list_answer : W → List FileInfo → W × Response
  list_answer w fis = (
    w,
    Provider.write_json fs po encode decode parse_time 200
        (record no_fields { entries = some (map to_json fis) }),
  )

  abbrev space_answer : W → ℤ → ℤ → W × Response
  space_answer w total free =
      let v : Json = record no_fields { total_bytes = some total; free_bytes = some free } in
      (w, Provider.write_json fs po encode decode parse_time 200 v)

  -- The operations of the client beside those of the file system.
  pub record Agrees (s : Remote W) (p to : Str) (n : ℕ) (t : Time) : Type 0 where
    pub stat : stat_path send so encode format_time s p ≡ relayed false seen (fs.stat s.world p)
    pub read_dir :
        read_dir_path send so encode format_time s p
        ≡ relayed false (map seen) (fs.read_dir s.world p)
    pub statfs : statfs_all send so encode format_time s ≡ relayed_space (fs.statfs s.world)
    pub mkdir : Tracks (mkdir_path send so encode format_time s p) (fs.mkdir s.world p)
    pub rename : Tracks (rename_path send so encode format_time s p to) (fs.rename s.world p to)
    pub truncate :
        Tracks
          (truncate_path send so encode format_time s p (pos n))
          (fs.truncate s.world p (pos n))
    pub chtimes : Tracks (chtimes_path send so encode format_time s p t) (fs.chtimes s.world p t)
    pub remove : TracksRemoval p (remove_path send so encode format_time s p) (fs.remove s.world p)
