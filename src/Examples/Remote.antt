-- ===== src/Examples/Remote.antt =====
-- A provider of one file behind internal/httpvfs/httpvfs.go, and a compound response of two PDUs of
-- internal/smb/server.go.
use portable_smb_server.Base.{
  ℕ, ◌+◌, true, false, ◌≡◌, refl, some, [], ◌∷◌, length, take, drop, arith,
}
use portable_smb_server.Base.Int.{pos, negsuc}
use portable_smb_server.Wire.{Bytes, zeros}
use portable_smb_server.Packet.Status
use portable_smb_server.Fsx.{permission, is_not_exist, is_exist, is_permission, map_os_error}
use portable_smb_server.Http.{answer}
use portable_smb_server.Provider.{fail_status}
use portable_smb_server.HttpVfs.{Read, Write, Window, write_at, read_at, check_resp}
use portable_smb_server.HttpVfs.ReadAhead.{write_at-read_at, Serves, direct}
use portable_smb_server.HttpVfs.Errors.{check_resp-fail_status, received}
use portable_smb_server.Conn.{State, new_conn}
use portable_smb_server.Examples.Codec.{primitives-Sizes}
use portable_smb_server.Dispatch.Compound.{assemble_response-Received, Received, Single}
use portable_smb_server.Examples.Backend.{World, env, start}

abbrev file : Bytes
file = 1 ∷ 2 ∷ 3 ∷ 4 ∷ 5 ∷ []

abbrev provider : Read Bytes
provider w (pos o) n = (w, answer 200 (take n (drop o w)))
provider w (negsuc o) n = (w, answer 400 [])

abbrev writer : Write Bytes
writer w p off = (p, answer 200 (some (length p)))

-- a window over the second and the third byte, as a read brought it
abbrev window : Window
window = record { bytes = some (2 ∷ 3 ∷ []); offset = pos 1; gen = 0; at_eof = false }

abbrev old_window : Window
old_window = record { bytes = some (9 ∷ 9 ∷ []); offset = pos 1; gen = 0; at_eof = true }

written_Serves : Serves 4 provider (write_at writer file 0 (9 ∷ []) (pos 1) window).world (9 ∷ [])
unfolding write_at
written_Serves o n near few = refl

write_at-read_at_example :
    ((read_at provider
        (write_at writer file 0 (9 ∷ []) (pos 1) window).world
        3
        (write_at writer file 0 (9 ∷ []) (pos 1) window).gen
        2
        (pos 1)
        (write_at writer file 0 (9 ∷ []) (pos 1) window).window).1
      ≡ direct (9 ∷ []) 2 1)
    × ((read_at provider
          (write_at writer file 0 (9 ∷ []) (pos 1) window).world
          3
          (write_at writer file 0 (9 ∷ []) (pos 1) window).gen
          2
          (pos 1)
          window).1
        ≡ direct (9 ∷ []) 2 1)
unfolding check_resp
write_at-read_at_example =
    write_at-read_at writer provider file 0 (9 ∷ []) (pos 1) window window (9 ∷ []) 4 3 2 1
      (omega arith) (omega arith) 200 (some 1) refl refl (omega arith) (omega arith) (omega arith)
      written_Serves

check_resp-fail_status_example :
    (check_resp (fail_status permission) false ≡ some (received permission false))
    × (is_not_exist permission ≡ true
        → map_os_error (received permission false) ≡ map_os_error permission)
    × (is_exist permission ≡ true
        → map_os_error (received permission false) ≡ map_os_error permission)
    × (is_exist permission ≡ true
        → map_os_error (received permission true) ≡ Status.directory_not_empty)
    × (is_not_exist permission ≡ false
        → is_exist permission ≡ false
        → is_permission permission ≡ true
        → map_os_error (received permission false) ≡ Status.media_write_protected)
check_resp-fail_status_example = check_resp-fail_status permission false

abbrev pdu_of : ℕ → Bytes
pdu_of n = 0xFE ∷ zeros (64 + n)

three-Single : Single (pdu_of 3)
three-Single = record { headed = omega arith; no_next = refl; small = omega arith }

nine-Single : Single (pdu_of 9)
nine-Single = record { headed = omega arith; no_next = refl; small = omega arith }

-- a session that signs
abbrev signing : State World ℕ
signing = record start { conn = record new_conn { sign_key = some (1 ∷ 2 ∷ []) } }

assemble_response-Received_example : Received env signing (pdu_of 3 ∷ pdu_of 9 ∷ [])
assemble_response-Received_example =
    assemble_response-Received env signing (pdu_of 3) (pdu_of 9 ∷ []) primitives-Sizes
      (three-Single, (nine-Single, tt))
