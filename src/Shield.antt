-- ===== src/Shield.antt =====
-- What a read-only share keeps: the calls of the backend that internal/smb makes on a share whose
-- `readOnly` is set, and the invariant of a connection behind it.
pub mod Table
pub mod Files
pub mod Opens
pub mod Changes
pub mod Logon
pub mod Messages
use portable_smb_server.Base.{ℕ, Bool, true, false, ◌&&◌, List, ◌≡◌, All}
use portable_smb_server.Base.Int.{ℤ}
use portable_smb_server.Wire.{Bytes}
use portable_smb_server.Packet.Filetime.{Time}
use portable_smb_server.Packet.Utf16.{Str}
use portable_smb_server.Fsx.{FileSystem, OpenFlags}
use portable_smb_server.Conn.{Share, OpenFile, Env, State}
use portable_smb_server.Create.{read_only_flags}

module _ {W H V : Type 0} (view : W → V) where
  -- The backend of a share in terms of what `view` sees of the world. Of every share: a read, an
  -- open with O_RDONLY, a sync and a close change nothing that is seen. Of a share that is not
  -- read-only: nothing that is seen lies on it.
  pub record Shielded (sh : Share W H) : Type 0 where
    pub read_at_keeps :
        (w : W) (h : H) (n : ℕ) (off : ℤ) → view (sh.fs.read_at w h n off).0 ≡ view w
    pub read_only_open_keeps :
        (w : W) (p : Str) → view (sh.fs.open_file w p read_only_flags).0 ≡ view w
    pub sync_keeps : (w : W) (h : H) → view (sh.fs.sync w h).0 ≡ view w
    pub close_keeps : (w : W) (h : H) → view (sh.fs.close w h).0 ≡ view w
    pub open_keeps :
        sh.read_only ≡ false
        → (w : W) (p : Str) (f : OpenFlags) → view (sh.fs.open_file w p f).0 ≡ view w
    pub mkdir_keeps : sh.read_only ≡ false → (w : W) (p : Str) → view (sh.fs.mkdir w p).0 ≡ view w
    pub rename_keeps :
        sh.read_only ≡ false → (w : W) (p q : Str) → view (sh.fs.rename w p q).0 ≡ view w
    pub remove_keeps : sh.read_only ≡ false → (w : W) (p : Str) → view (sh.fs.remove w p).0 ≡ view w
    pub truncate_keeps :
        sh.read_only ≡ false → (w : W) (p : Str) (n : ℤ) → view (sh.fs.truncate w p n).0 ≡ view w
    pub chtimes_keeps :
        sh.read_only ≡ false → (w : W) (p : Str) (t : Time) → view (sh.fs.chtimes w p t).0 ≡ view w
    pub write_at_keeps :
        sh.read_only ≡ false
        → (w : W) (h : H) (b : Bytes) (off : ℤ) → view (sh.fs.write_at w h b off).0 ≡ view w
    pub truncate_handle_keeps :
        sh.read_only ≡ false
        → (w : W) (h : H) (n : ℤ) → view (sh.fs.truncate_handle w h n).0 ≡ view w

  -- no open on a read-only share is marked for deletion
  pub record ShieldedOpen (of : OpenFile W H) : Type 0 where
    pub share_shielded : Shielded of.share
    pub keeps_file : of.delete_on_close ≡ true → of.share.read_only ≡ false

  abbrev pub ShieldedTree : ℕ × Share W H → Type 0
  ShieldedTree t = Shielded t.1

  -- The connection's tables hold nothing but such shares and opens, and the view is `v`.
  pub record Kept (v : V) (s : State W H) : Type 0 where
    pub world_kept : view s.world ≡ v
    pub trees_kept : All ShieldedTree s.conn.disk_trees
    pub handles_kept : All ShieldedOpen s.conn.handles
