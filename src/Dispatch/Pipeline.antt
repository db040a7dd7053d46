-- ===== src/Dispatch/Pipeline.antt =====
-- The two goroutines of a connection, interleaved in any order: `serve` of internal/smb/server.go reads
-- a message, handles it and hands the response to the writer through a channel of 8 places, and the
-- writer sends the responses. A panic of a handler is left out.
pub mod Delivery
pub mod Ends
pub mod Halts
use portable_smb_server.Base.{
  ℕ, ◌<◌, Bool, true, false, Option, none, some, List, [], ◌∷◌, ◌++◌, ◌≡◌, ltb, if◌then◌else◌,
  length,
}
use portable_smb_server.Wire.{Bytes, smb2_header_size}
use portable_smb_server.Conn.{Env, State}
use portable_smb_server.Dispatch.Message.{
  dispatch, Dispatched, invalid_header, no_response, response,
}
use portable_smb_server.Dispatch.Serve.{close_all_handles}

-- outboundDepth
abbrev pub outbound_depth : ℕ
outbound_depth = 8

-- Where `serve` stands: before `readMessage`, before the send to the channel, in the deferred function
-- behind `close(outbound)`, or at its end.
pub data Reader : Type 0 where
  waiting : Reader
  handing : Bytes → Reader
  closed : Reader
  finished : Reader

-- Where the writer stands: at the channel, in `writeMessage`, in the loop behind a failed write, at its
-- end after all writes, or at its end after a failed one.
pub data Writer : Type 0 where
  idle : Writer
  sending : Bytes → Writer
  draining : Writer
  done : Writer
  gone : Writer

-- `read` holds the messages that `readMessage` has brought, `wire` those written, `is_open` whether this side has closed the socket.
pub record Pipe (W H : Type 0) : Type 0 where
  pub read : List Bytes
  pub state : State W H
  pub reader : Reader
  pub writer : Writer
  pub queue : List Bytes
  pub wire : List Bytes
  pub is_open : Bool

module _ {W H : Type 0} (env : Env W H) where
  -- what follows a message that has been dispatched
  abbrev pub after_dispatch : Pipe W H → State W H × Dispatched → Pipe W H
  after_dispatch p (s, invalid_header) = record p { state = s; reader = closed }
  after_dispatch p (s, no_response) = record p { state = s }
  after_dispatch p (s, response out) = record p { state = s; reader = handing out }

  unfoldable pub receive : Bytes → Pipe W H → Pipe W H
  receive msg p =
      if ltb (length msg) smb2_header_size then p else after_dispatch p (dispatch env msg p.state)

  pub data Step (p : Pipe W H) : Pipe W H → Type 0 where
    -- `readMessage` brings a message, or fails
    reads :
        (msg : Bytes)
        → p.reader ≡ waiting
        → p.is_open ≡ true
        → Step p (record (receive msg p) { read = p.read ++ (msg ∷ []) })
    ends : p.reader ≡ waiting → Step p (record p { reader = closed })
    -- `outbound <- out`, which waits for a free place
    hands :
        (out : Bytes)
        → p.reader ≡ handing out
        → length p.queue < outbound_depth
        → Step p (record p { queue = p.queue ++ (out ∷ []); reader = waiting })
    takes :
        (msg : Bytes) (rest : List Bytes)
        → p.writer ≡ idle
        → p.queue ≡ msg ∷ rest
        → Step p (record p { queue = rest; writer = sending msg })
    -- `writeMessage` succeeds, or fails, and then the socket is closed
    writes :
        (msg : Bytes)
        → p.writer ≡ sending msg
        → p.is_open ≡ true
        → Step p (record p { wire = p.wire ++ (msg ∷ []); writer = idle })
    fails :
        (msg : Bytes)
        → p.writer ≡ sending msg
        → Step p (record p { writer = draining; is_open = false })
    drains :
        (msg : Bytes) (rest : List Bytes)
        → p.writer ≡ draining
        → p.queue ≡ msg ∷ rest
        → Step p (record p { queue = rest })
    -- the channel is closed and empty
    stops : p.writer ≡ idle → p.reader ≡ closed → p.queue ≡ [] → Step p (record p { writer = done })
    gives_up :
        p.writer ≡ draining → p.reader ≡ closed → p.queue ≡ [] → Step p (record p { writer = gone })
    -- `<-writerDone`, then the handles are closed, and the socket
    finishes_done :
        p.reader ≡ closed
        → p.writer ≡ done
        → Step p
            (record p { state = close_all_handles p.state; reader = finished; is_open = false })
    finishes_gone :
        p.reader ≡ closed
        → p.writer ≡ gone
        → Step p
            (record p { state = close_all_handles p.state; reader = finished; is_open = false })
    -- Shutdown closes the socket
    shuts : Step p (record p { is_open = false })

-- a new connection
abbrev pub start : {W H : Type 0} → State W H → Pipe W H
start s = record {
  read = [];
  state = s;
  reader = waiting;
  writer = idle;
  queue = [];
  wire = [];
  is_open = true;
}

pub data Reach {W H : Type 0} (env : Env W H) (s : State W H) : Pipe W H → Type 0 where
  begin : Reach env s (start s)
  later : {p q : Pipe W H} → Reach env s p → Step env p q → Reach env s q
