-- ===== src/Packet/Reply.antt =====
-- The header of a reply, `buildResponse` of internal/smb/packet.go, as a client parses it.
use portable_smb_server.Base.{ℕ, ◌^◌, ◌<◌, ◌≡◌, some, arith}
use portable_smb_server.Wire.{Bytes, u32, copy_at}
use portable_smb_server.Packet.{Header, parse_header, build_response}

-- The fields of a header stay within the widths that the wire gives them.
pub record FitsWire (h : Header) : Type 0 where
  pub credit_charge : h.credit_charge < 2 ^ 16
  pub message_id : h.message_id < 2 ^ 64

-- A client that parses a reply reads the request's MessageId and CreditCharge back, beside the
-- command, session, tree and credits that the server put there, and the NTSTATUS where the header
-- has it; the reply is flagged as the server's and does not name a next command.
pub parse_header-build_response :
    (req : Header) (command status sid tid credits : ℕ) (body : Bytes)
    → FitsWire req
    → command < 2 ^ 16
    → sid < 2 ^ 64
    → tid < 2 ^ 32
    → credits < 2 ^ 16
    → status < 2 ^ 32
    → (parse_header (build_response req command status sid tid credits body)
        ≡ some (record {
          credit_charge = req.credit_charge;
          command = command;
          credit_req_resp = credits;
          flags = 1;
          next_command = 0;
          message_id = req.message_id;
          tree_id = tid;
          session_id = sid;
        }))
      × (u32 (build_response req command status sid tid credits body) 8 ≡ status)
unfolding parse_header build_response copy_at
parse_header-build_response req command status sid tid credits body f hc hs ht hk hn =
    (ground arith, omega arith)
