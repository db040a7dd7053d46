-- ===== src/Dispatch/Message.antt =====
-- A message, and the responses to its commands as one message: `dispatch` and `assembleResponse`
-- of internal/smb/server.go.
use portable_smb_server.Base.{
  ℕ, zero, suc, ◌+◌, ◌-◌, Bool, ◌||◌, ◌&&◌, not, Option, none, some, List, [], ◌∷◌, ◌++◌, ltb,
  if◌then◌else◌, length, take, drop, list_eq, map,
}
use portable_smb_server.Wire.{Bytes, put32, zeros, slice, smb2_header_size}
use portable_smb_server.Packet.{Header, parse_header}
use portable_smb_server.Crypto.{sign_message}
use portable_smb_server.Conn.{Env, State}
use portable_smb_server.Aapl.{round_up8}
use portable_smb_server.Negotiate.{smb1_negotiate_response}
use portable_smb_server.Dispatch.Command.{ChainCtx, empty_chain, handle_command}

-- the part of the message that a command takes
unfoldable pub segment : Bytes → ℕ → ℕ → Bytes
segment msg offset next =
    if ltb next smb2_header_size || ltb (length msg) (offset + next)
    then drop offset msg
    else slice msg offset next

-- the commands of a message, as the loop of `dispatch` finds them
pub record Part : Type 0 where
  pub header : Header
  pub bytes : Bytes

-- `for offset+smb2HeaderSize <= len(msg)`, on fuel. The list does not depend on what the handlers
-- do: only the header decides where the next command stands.
unfoldable pub parts_loop : ℕ → Bytes → ℕ → List Part
parts_loop zero msg offset = []
parts_loop (suc fuel) msg offset =
    if ltb (length msg) (offset + smb2_header_size)
    then []
    else elim (parse_header (drop offset msg)) [
      | none ↦ []
      | some h ↦
          let rest = parts_loop fuel msg (offset + h.next_command) in
          record { header = h; bytes = segment msg offset h.next_command }
          ∷ (if ltb h.next_command smb2_header_size then [] else rest)
    ]

unfoldable pub parts : Bytes → List Part
unfolding parts_loop segment
parts msg = parts_loop (length msg + 1) msg 0

-- one PDU of several: the bytes up to a multiple of 8, and NextCommand
unfoldable pub link : Bytes → Bytes
link pdu = let size = round_up8 (length pdu) in put32 (pdu ++ zeros (size - length pdu)) 20 size

-- the PDUs of a compound response: each but the last is linked to the next
unfoldable pub linked : List Bytes → List Bytes
unfolding link
linked [] = []
linked (pdu ∷ []) = pdu ∷ []
linked (pdu ∷ next ∷ pdus) = link pdu ∷ linked (next ∷ pdus)

abbrev pub concat : List Bytes → Bytes
concat [] = []
concat (x ∷ xs) = x ++ concat xs

abbrev pub is_smb1_negotiate : Bytes → Bool
is_smb1_negotiate msg =
    not (ltb (length msg) 5) && list_eq (take 5 msg) (0xff ∷ b'S' ∷ b'M' ∷ b'B' ∷ 0x72 ∷ [])

-- What `dispatch` returns: an error, no response, or a message.
pub data Dispatched : Type 0 where
  invalid_header no_response : Dispatched
  response : Bytes → Dispatched

module _ {W H : Type 0} (env : Env W H) where
  -- assembleResponse; `none` is nil
  unfoldable pub assemble_response : State W H → List Bytes → Option Bytes
  unfolding linked
  assemble_response s [] = none
  assemble_response s (pdu ∷ pdus) = elim s.conn.sign_key [
    | none ↦ some (concat (linked (pdu ∷ pdus)))
    | some key ↦
        some (concat (map (sign_message env.prims key s.conn.dialect) (linked (pdu ∷ pdus))))
  ]

  abbrev pub add_pdu : Option Bytes → List Bytes → List Bytes
  add_pdu none pdus = pdus
  add_pdu (some pdu) pdus = pdu ∷ pdus

  -- the handlers, in the order of the commands
  unfoldable pub run_parts : List Part → ChainCtx → State W H → State W H × List Bytes
  run_parts [] ctx s = (s, [])
  run_parts (p ∷ ps) ctx s =
      let step = handle_command env p.header p.bytes ctx s in
      let (s1, pdus) = run_parts ps step.chain step.state in (s1, add_pdu step.pdu pdus)

  abbrev to_dispatched : Option Bytes → Dispatched
  to_dispatched none = no_response
  to_dispatched (some out) = response out

  unfoldable pub dispatch : Bytes → State W H → State W H × Dispatched
  unfolding run_parts assemble_response parts smb1_negotiate_response
  dispatch msg s =
      let (s1, pdus) = run_parts (parts msg) empty_chain s in
      if is_smb1_negotiate msg
      then (s, response (smb1_negotiate_response env))
      else elim (parse_header msg) [
        | none ↦ (s, invalid_header)
        | some _ ↦ (s1, to_dispatched (assemble_response s1 pdus))
      ]
