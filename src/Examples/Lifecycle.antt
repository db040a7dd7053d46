-- ===== src/Examples/Lifecycle.antt =====
-- A server of internal/smb/server.go that accepts one connection and is shut down, and one of two
-- shares.
use portable_smb_server.Base.{ℕ, true, false, ◌&&◌, ◌||◌, not, ◌<◌, ◌≡◌, refl, some, [], ◌∷◌, All}
use portable_smb_server.Path.{is_empty}
use portable_smb_server.Conn.{mem, find_share}
use portable_smb_server.Lifecycle
use portable_smb_server.Lifecycle.{
  Server, ended, locked, returned, accepts, registers, stops, locks, unlistens, closes, leaves,
  finishes, waits, Reach, begin, later, Options, add_share, new_server,
}
use portable_smb_server.Lifecycle.Invariant.{to_close, Reach-covered, Stopped, Reach-Stopped}
use portable_smb_server.Lifecycle.Shares.{Served, new_server-Served}
use portable_smb_server.Examples.Backend.{World, ascii, kept_share, open_share}

-- Shutdown has the lock, and the one connection on its list
abbrev seen : Server
seen = record Lifecycle.start {
  closer = locked (0 ∷ []);
  is_closing = true;
  conns = 0 ∷ [];
  live = 0 ∷ [];
  accepted = 1;
}

seen-Reach : Reach seen
seen-Reach = later (later (later begin (accepts refl refl)) (registers 0 refl refl)) (locks refl)

abbrev over : Server
over = record seen {
  serving = ended;
  closer = returned;
  listening = false;
  conns = [];
  live = [];
  shut = 0 ∷ [];
}

over-Reach : Reach over
over-Reach =
    let swept = later (later seen-Reach (unlistens (0 ∷ []) refl)) (closes 0 [] refl) in
    let alone = later (later swept (leaves 0 refl refl)) (finishes 0 [] refl) in
    later (later alone (stops refl refl)) (waits refl refl refl)

Reach-covered_example : (mem 0 (to_close seen.closer) || mem 0 seen.shut) ≡ true
Reach-covered_example = Reach-covered seen-Reach refl 0 refl

Reach-Stopped_example : Stopped over
Reach-Stopped_example = Reach-Stopped over-Reach refl

abbrev options : Options World ℕ
options = record {
  user = b'u' ∷ [];
  pass = b'p' ∷ [];
  shares =
      record { name = kept_share.name; fs = some kept_share.fs; read_only = true }
      ∷ record { name = open_share.name; fs = some open_share.fs; read_only = false }
      ∷ [];
}

new_server-Served_example :
    All (Served ascii (kept_share ∷ open_share ∷ [])) options.shares
    × (◌≡◌ {A = ℕ} 2 2)
    × (0 < 2)
    × ((not (is_empty options.user) && is_empty options.pass) ≡ false)
unfolding new_server add_share find_share
new_server-Served_example = new_server-Served ascii options (kept_share ∷ open_share ∷ []) refl
