-- ===== src/LocalFs/Confined.antt =====
-- Where the calls of internal/localfs/localfs.go go on the disk.
use portable_smb_server.Base.{List, ◌++◌, ◌≡◌, ap, ap₂, All}
use portable_smb_server.Base.Int.{ℤ}
use portable_smb_server.Packet.Utf16.{Str}
use portable_smb_server.Packet.Filetime.{Time}
use portable_smb_server.Fsx.{ok, OpenFlags, FileSystem}
use portable_smb_server.LocalFs.{Os, resolve, on_path, changing, listed, local_fs}
use portable_smb_server.LocalFs.Resolve.{IsDown, path_of, below, resolve-IsDown}

-- The calls of the file system `fs` are those of package os on paths at or below a root.
pub record Confined {W H : Type 0} (os : Os W H) (root : List Str) (fs : FileSystem W H)
    : Type 0 where
  pub down : (p : Str) → All IsDown (below p)
  pub stat : (w : W) (p : Str) → fs.stat w p ≡ os.stat w (path_of (root ++ below p))
  pub open_file :
      (w : W) (p : Str) (f : OpenFlags)
      → fs.open_file w p f ≡ os.open_os_file w (path_of (root ++ below p)) f
  pub mkdir : (w : W) (p : Str) → fs.mkdir w p ≡ os.mkdir w (path_of (root ++ below p))
  pub read_dir :
      (w : W) (p : Str) → fs.read_dir w p ≡ listed (os.read_dir w (path_of (root ++ below p)))
  pub rename :
      (w : W) (p q : Str)
      → fs.rename w p q ≡ os.rename w (path_of (root ++ below p)) (path_of (root ++ below q))
  pub remove : (w : W) (p : Str) → fs.remove w p ≡ os.remove w (path_of (root ++ below p))
  pub truncate :
      (w : W) (p : Str) (n : ℤ) → fs.truncate w p n ≡ os.truncate w (path_of (root ++ below p)) n
  pub chtimes :
      (w : W) (p : Str) (t : Time) → fs.chtimes w p t ≡ os.chtimes w (path_of (root ++ below p)) t

module _ {W H : Type 0} (os : Os W H) (root : List Str) (h : All IsDown root) where
  resolved : (p : Str) → resolve (path_of root) p ≡ ok (path_of (root ++ below p))
  resolved p = (resolve-IsDown root p h).0

  -- In a share of the local disk whose root is a clean absolute path, every call is made, and made on
  -- a path at or below the root, which is the root's elements and behind them those of the given
  -- path, none of which is empty, "." or ".."; a name that climbs out of the share names the root or
  -- what is below it, never what is beside it.
  pub local_fs-Confined : Confined os root (local_fs os (path_of root))
  unfolding local_fs
  local_fs-Confined = record {
    down = λ p. (resolve-IsDown root p h).1;
    stat = λ w p. ap (λ r. on_path r (λ f. os.stat w f)) (resolved p);
    open_file = λ w p flags. ap (λ r. changing w r (λ f. os.open_os_file w f flags)) (resolved p);
    mkdir = λ w p. ap (λ r. changing w r (λ f. os.mkdir w f)) (resolved p);
    read_dir = λ w p. ap (λ r. on_path r (λ f. listed (os.read_dir w f))) (resolved p);
    rename = λ w p q.
        ap₂ (λ r s. changing w r (λ f. changing w s (λ g. os.rename w f g))) (resolved p)
          (resolved q);
    remove = λ w p. ap (λ r. changing w r (λ f. os.remove w f)) (resolved p);
    truncate = λ w p n. ap (λ r. changing w r (λ f. os.truncate w f n)) (resolved p);
    chtimes = λ w p t. ap (λ r. changing w r (λ f. os.chtimes w f t)) (resolved p);
  }
