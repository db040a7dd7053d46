-- ===== src/Examples/Turns.antt =====
-- The two goroutines of a connection of internal/smb/server.go, with one message.
use portable_smb_server.Base.{ℕ, Bool, ◌≤◌, refl, [], ◌∷◌, length, arith}
use portable_smb_server.Wire.{Bytes, zeros}
use portable_smb_server.Negotiate.{smb1_negotiate_response}
use portable_smb_server.Dispatch.Message.{dispatch}
use portable_smb_server.Dispatch.Serve.{close_all_handles}
use portable_smb_server.Dispatch.Pipeline
use portable_smb_server.Dispatch.Pipeline.{
  outbound_depth, Pipe, waiting, handing, closed, finished, idle, sending, done, draining, receive,
  reads, ends, hands, takes, writes, stops, finishes_done, Reach, begin, later,
}
use portable_smb_server.Dispatch.Pipeline.Ends.{Ended, Reach-Ended}
use portable_smb_server.Dispatch.Pipeline.Halts.{Halts, Reach-Halts}
use portable_smb_server.Examples.Backend.{World, env, start}

-- the NEGOTIATE of SMB1
abbrev hello : Bytes
hello = 0xFF ∷ b'S' ∷ b'M' ∷ b'B' ∷ 0x72 ∷ zeros 60

abbrev answer : Bytes
answer = smb1_negotiate_response env

-- the response is in the channel, and the reader back at the socket
abbrev answered : Pipe World ℕ
answered = record (Pipeline.start start) { read = hello ∷ []; queue = answer ∷ [] }

answered-Reach : Reach env start answered
unfolding receive dispatch
answered-Reach = later (later begin (reads hello refl refl)) (hands answer refl (omega arith))

abbrev over : Pipe World ℕ
over = record {
  read = hello ∷ [];
  state = close_all_handles start;
  reader = finished;
  writer = done;
  queue = [];
  wire = answer ∷ [];
  is_open = Bool.false;
}

over-Reach : Reach env start over
over-Reach =
    let sent = later (later answered-Reach (takes answer [] refl refl)) (writes answer refl refl) in
    later (later (later sent (ends refl)) (stops refl refl refl)) (finishes_done refl refl)

Reach-Ended_example : Ended env start over
Reach-Ended_example = Reach-Ended env start over-Reach refl

Reach-Halts_example : Halts env answered × (length answered.queue ≤ outbound_depth)
Reach-Halts_example = Reach-Halts env start answered-Reach
