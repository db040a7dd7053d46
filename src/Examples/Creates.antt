-- ===== src/Examples/Creates.antt =====
-- A CREATE of internal/smb/create.go that overwrites a file.
use portable_smb_server.Base.{ℕ, [], ◌∷◌, false, ◌≡◌, refl, some}
use portable_smb_server.Wire.{Bytes, zeros, put32}
use portable_smb_server.Fsx.{file_is_read_only}
use portable_smb_server.Create.{
  handle_create, create_on, finish_create, parse_request, opened, open_request,
}
use portable_smb_server.Create.Handles.{Answered, handle_create-Answered}
use portable_smb_server.Packet.Status
use portable_smb_server.Conn.{State, new_conn}
use portable_smb_server.Examples.Backend.{World, start, open_share}

-- FILE_OVERWRITE_IF and no name
abbrev body : Bytes
body = put32 (zeros 56) 36 5

overwrites :
    (open_request (parse_request body open_share) start.world).1
    ≡ opened (record { handle = some 7; is_dir = false; action = 3 })
unfolding parse_request open_request file_is_read_only
overwrites = refl

-- a connection with a tree
abbrev connected : State World ℕ
connected = record start { conn = record new_conn { disk_trees = (1, open_share) ∷ [] } }

succeeds : (handle_create body 1 connected).status ≡ Status.success
unfolding handle_create create_on finish_create parse_request open_request file_is_read_only
succeeds = refl

handle_create-Answered_example : Answered body 1 connected (handle_create body 1 connected)
handle_create-Answered_example = handle_create-Answered body 1 connected
