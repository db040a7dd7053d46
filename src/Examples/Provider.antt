-- ===== src/Examples/Provider.antt =====
-- A provider of internal/vfsprovider/vfsprovider.go over files in memory, and the client of
-- internal/httpvfs/httpvfs.go before it.
use portable_smb_server.Base.{ℕ, true, false, ◌≡◌, refl, Option, none, some, [], ◌∷◌, inr, arith}
use portable_smb_server.Base.Int.{pos}
use portable_smb_server.Base.Decimal.{parse_int, format_int}
use portable_smb_server.Wire.{Bytes}
use portable_smb_server.Packet.Utf16.{Str}
use portable_smb_server.Packet.Filetime.{Time, zero_time, unix_nano}
use portable_smb_server.Fsx.{FileSystem}
use portable_smb_server.Http
use portable_smb_server.Http.{Json, Request, get, delete, path}
use portable_smb_server.Provider.{Options, handler}
use portable_smb_server.Provider.Guard.{Guarded, handler-Guarded}
use portable_smb_server.HttpVfs.Client.{
  Settings, Remote, RemoteFile, no_window, nothing, read_handle,
}
use portable_smb_server.Remote.Reads.{send, Direct, read_handle-Direct}
use portable_smb_server.Examples.Backend.{World, memory_fs}

abbrev files : FileSystem World ℕ
files = memory_fs World.kept_file (λ w b. record w { kept_file = b })

abbrev world : World
world = record { kept_file = 1 ∷ 2 ∷ 3 ∷ 4 ∷ 5 ∷ []; open_file = 6 ∷ [] }

abbrev secret : Str
secret = b's' ∷ b'3' ∷ []

abbrev writable : Options
writable = record { name = b'd' ∷ []; read_only = false; token = secret }

abbrev gated : Options
gated = record writable { read_only = true }

abbrev settings : Settings
settings = record {
  name = b'd' ∷ [];
  read_only = false;
  case_insensitive = false;
  token = secret;
  read_ahead = 3;
}

abbrev text_of : Json → Bytes
text_of v = b'{' ∷ b'}' ∷ []

abbrev object_in : Bytes → Option Json
object_in b = none

abbrev written_time : Time → Str
written_time zero_time = []
written_time (unix_nano n) = format_int n

abbrev read_time : Str → Option Time
read_time [] = some zero_time
read_time (c ∷ s) = elim (parse_int (c ∷ s)) [ none ↦ none | some n ↦ some (unix_nano n) ]

abbrev document : RemoteFile
document = record { path = b'a' ∷ []; window = no_window }

abbrev remote : Remote World
remote = record { world = world; gen = 4; files = document ∷ [] }

read_handle-Direct_example : Direct 0 2 1 document world.kept_file (
    read_handle
      (send files writable settings text_of object_in read_time written_time)
      settings
      text_of
      written_time
      remote
      0
      2
      (pos 1))
read_handle-Direct_example =
    read_handle-Direct files writable settings text_of object_in read_time written_time refl remote
      0 2 1 document world.kept_file refl
      (record { handle = 7; opens = refl; reads = λ o n. (refl, inr refl) })
      (λ bs b g. elim (cleared bs b) [ ]) (omega arith) (omega arith) (omega arith)
  where
    cleared : (bs : Bytes) → none ≡ some bs → ⊥
    cleared bs q = ground arith

-- a removal
abbrev removal : Request
removal = record {
  method = delete;
  endpoint = Http.remove;
  query = (path, b'a' ∷ []) ∷ [];
  token = secret;
  body = nothing;
}

handler-Guarded_example :
    Guarded World.kept_file files gated text_of object_in read_time world Http.remove
      (handler files gated text_of object_in read_time world removal)
handler-Guarded_example =
    handler-Guarded World.kept_file files gated text_of object_in read_time (λ w p. refl)
      (λ w h n o. refl) (λ w h. refl) refl world removal
