-- ===== src/Lifecycle.antt =====
-- The server around its connections: `NewServer`, the accept loop of `Serve`, and `Shutdown`, of
-- internal/smb/server.go.
pub mod Shares
pub mod Invariant
use portable_smb_server.Base.{
  ℕ, suc, ◌+◌, ◌*◌, Bool, true, false, ◌&&◌, not, Option, none, some, List, [], ◌∷◌, ◌++◌, ◌≡◌, ltb,
  ◌==◌, if◌then◌else◌,
}
use portable_smb_server.Packet.Utf16.{Str}
use portable_smb_server.Path.{is_empty}
use portable_smb_server.Pattern.{Unicode, equal_fold}
use portable_smb_server.Fsx.{FileSystem}
use portable_smb_server.Conn.{Share, find_share, mem, delete}

-- `ShareDef`; a nil file system is `none`
pub record ShareDef (W H : Type 0) : Type 0 where
  pub name : Str
  pub fs : Option (FileSystem W H)
  pub read_only : Bool

pub record Options (W H : Type 0) : Type 0 where
  pub user : Str
  pub pass : Str
  pub shares : List (ShareDef W H)

-- the errors of `NewServer` before it draws its GUID and listens
pub data Refusal : Type 0 where
  no_password no_shares unnamed reserved duplicate : Refusal

pub data Outcome (A : Type 0) : Type 0 where
  made : A → Outcome A
  refused : Refusal → Outcome A

abbrev pub ipc : Str
ipc = b'I' ∷ b'P' ∷ b'C' ∷ b'$' ∷ []

module _ {W H : Type 0} (u : Unicode) where
  abbrev pub share_of : ShareDef W H → FileSystem W H → Share W H
  share_of def fs = record { name = def.name; fs = fs; read_only = def.read_only }

  -- one round of the loop over the definitions
  unfoldable pub add_share : List (Share W H) → ShareDef W H → Outcome (List (Share W H))
  unfolding find_share
  add_share shares def = elim def.fs [
    | none ↦ refused unnamed
    | some fs ↦
        if is_empty def.name
        then refused unnamed
        else if equal_fold u def.name ipc
        then refused reserved
        else elim (find_share u def.name shares) [
          | some other ↦ refused duplicate
          | none ↦ made (shares ++ (share_of def fs ∷ []))
        ]
  ]

  unfoldable pub add_shares : List (Share W H) → List (ShareDef W H) → Outcome (List (Share W H))
  add_shares shares [] = made shares
  add_shares shares (def ∷ defs) = elim (add_share shares def) [
    | refused e ↦ refused e
    | made more ↦ add_shares more defs
  ]

  abbrev no_definition : List (ShareDef W H) → Bool
  no_definition [] = true
  no_definition (def ∷ defs) = false

  unfoldable pub new_server : Options W H → Outcome (List (Share W H))
  unfolding add_shares
  new_server opt =
      if not (is_empty opt.user) && is_empty opt.pass
      then refused no_password
      else if no_definition opt.shares
      then refused no_shares
      else add_shares [] opt.shares

-- The wait before another accept, in milliseconds.
unfoldable pub next_delay : ℕ → ℕ
next_delay delay =
    let longer = if delay == 0 then 5 else delay * 2 in if ltb 1000 longer then 1000 else longer

-- Where `Serve` stands: in `Accept`, behind it with a new connection, or at its end.
pub data Serving : Type 0 where
  accepting : Serving
  holding : ℕ → Serving
  ended : Serving

-- Where the first call of `Shutdown` stands: not made, behind the lock with the connections that it has
-- seen, behind the close of the listener with those left to close, or at its end. A later call is the
-- step `shuts_again`.
pub data Closer : Type 0 where
  before : Closer
  locked : List ℕ → Closer
  closing : List ℕ → Closer
  returned : Closer

-- A connection is a number. `live` are those whose goroutine runs and has not yet deleted them from
-- `conns`, `leaving` those that have and are before `wg.Done`; `shut` are those whose socket has been
-- closed. `accepted` is how many there were.
pub record Server : Type 0 where
  pub serving : Serving
  pub closer : Closer
  pub is_closing : Bool
  pub listening : Bool
  pub conns : List ℕ
  pub live : List ℕ
  pub leaving : List ℕ
  pub shut : List ℕ
  pub accepted : ℕ
  pub delay : ℕ

pub data Step (s : Server) : Server → Type 0 where
  accepts :
      s.serving ≡ accepting
      → s.listening ≡ true
      → Step s (record s { serving = holding s.accepted; accepted = s.accepted + 1; delay = 0 })
  -- an error of Accept, while `closing` is open and when it is closed
  retries :
      s.serving ≡ accepting
      → s.is_closing ≡ false
      → Step s (record s { delay = next_delay s.delay })
  -- a later call of Shutdown, which finds `closing` closed and returns
  shuts_again : s.is_closing ≡ true → Step s s
  stops : s.serving ≡ accepting → s.is_closing ≡ true → Step s (record s { serving = ended })
  -- the new connection is registered, or closed at once
  registers :
      (c : ℕ)
      → s.serving ≡ holding c
      → s.is_closing ≡ false
      → Step s (record s { serving = accepting; conns = c ∷ s.conns; live = c ∷ s.live })
  rejects :
      (c : ℕ)
      → s.serving ≡ holding c
      → s.is_closing ≡ true
      → Step s (record s { serving = ended; shut = c ∷ s.shut })
  -- the end of a connection: its `serve` closes the socket, its goroutine deletes it, and is done
  hangs_up : (c : ℕ) → mem c s.live ≡ true → Step s (record s { shut = c ∷ s.shut })
  leaves :
      (c : ℕ)
      → mem c s.live ≡ true
      → mem c s.shut ≡ true
      → Step s
          (record s { conns = delete c s.conns; live = delete c s.live; leaving = c ∷ s.leaving })
  finishes : (c : ℕ) (rest : List ℕ) → s.leaving ≡ c ∷ rest → Step s (record s { leaving = rest })
  -- Shutdown
  locks : s.closer ≡ before → Step s (record s { closer = locked s.conns; is_closing = true })
  unlistens :
      (cs : List ℕ)
      → s.closer ≡ locked cs
      → Step s (record s { closer = closing cs; listening = false })
  closes :
      (c : ℕ) (cs : List ℕ)
      → s.closer ≡ closing (c ∷ cs)
      → Step s (record s { closer = closing cs; shut = c ∷ s.shut })
  waits :
      s.closer ≡ closing [] → s.live ≡ [] → s.leaving ≡ [] → Step s (record s { closer = returned })

abbrev pub start : Server
start = record {
  serving = accepting;
  closer = before;
  is_closing = false;
  listening = true;
  conns = [];
  live = [];
  leaving = [];
  shut = [];
  accepted = 0;
  delay = 0;
}

pub data Reach : Server → Type 0 where
  begin : Reach start
  later : {s t : Server} → Reach s → Step s t → Reach t
