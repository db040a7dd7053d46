-- ===== src/Examples/LocalFs.antt =====
-- A directory of the local disk, behind internal/localfs/localfs.go.
use portable_smb_server.Base.{ℕ, List, ◌++◌, arith, true, false, ◌≡◌, refl, [], ◌∷◌}
use portable_smb_server.Base.Int.{pos}
use portable_smb_server.Path.{slash, dot_dot, split, join, clean_elements, clean_rooted}
use portable_smb_server.Fsx.{ok, err, not_exist}
use portable_smb_server.LocalFs.{Os, rel, resolve, escapes, local_fs}
use portable_smb_server.LocalFs.Resolve.{path_of}
use portable_smb_server.LocalFs.Confined.{Confined, local_fs-Confined}
use portable_smb_server.Examples.Backend.{World, info_of, open_share}

abbrev disk : Os World ℕ
disk = record {
  abs = ok;
  stat = open_share.fs.stat;
  open_os_file = open_share.fs.open_file;
  mkdir = open_share.fs.mkdir;
  read_dir = λ w p. ok (ok (info_of p w.open_file) ∷ err not_exist ∷ []);
  rename = open_share.fs.rename;
  remove = open_share.fs.remove;
  truncate = open_share.fs.truncate;
  chtimes = open_share.fs.chtimes;
  statfs = λ w p. ok (record { blocks = 10; bavail = 5; bsize = pos 4096 });
  is_windows_or_darwin = false;
  read_at = open_share.fs.read_at;
  write_at = open_share.fs.write_at;
  close = open_share.fs.close;
  truncate_handle = open_share.fs.truncate_handle;
  sync = open_share.fs.sync;
  stat_handle = open_share.fs.stat_handle;
}

abbrev root : List (List ℕ)
root = (b's' ∷ []) ∷ []

climbs :
    resolve (path_of root) (dot_dot ++ (slash ∷ b'x' ∷ [])) ≡ ok (slash ∷ b's' ∷ slash ∷ b'x' ∷ [])
unfolding resolve rel clean_elements split join clean_rooted
climbs = refl

beside : escapes (rel (path_of root) (slash ∷ b't' ∷ [])) ≡ true
unfolding rel clean_elements split join
beside = refl

local_fs-Confined_example : Confined disk root (local_fs disk (path_of root))
local_fs-Confined_example = local_fs-Confined disk root (
  record {
    non_empty = refl;
    ne_dot = refl;
    ne_dot_dot = refl;
    no_slash = (λ e. ground (arith, e), tt);
  },
  tt,
)
