-- ===== src/Dispatch/Serve.antt =====
-- A connection from its first message to its end: `serve` of internal/smb/server.go and
-- `closeAllHandles` of internal/smb/create.go.
use portable_smb_server.Base.{none, some, List, [], ◌∷◌, ltb, if◌then◌else◌, length}
use portable_smb_server.Wire.{Bytes, smb2_header_size}
use portable_smb_server.Conn.{OpenFile, Env, State, with_conn, with_world}
use portable_smb_server.Dispatch.Message.{
  dispatch, Dispatched, invalid_header, no_response, response,
}

module _ {W H : Type 0} where
  -- the handle of an open, if it has one, is closed; an error is only logged
  unfoldable pub close_each : List (OpenFile W H) → W → W
  close_each [] w = w
  close_each (of ∷ hs) w =
      close_each hs (elim of.handle [ none ↦ w | some h ↦ (of.share.fs.close w h).0 ])

  unfoldable pub close_all_handles : State W H → State W H
  unfolding close_each
  close_all_handles s =
      with_world (with_conn s (record s.conn { handles = [] })) (close_each s.conn.handles s.world)

module _ {W H : Type 0} (env : Env W H) where
  abbrev pub emit : Dispatched → State W H × List Bytes → State W H → State W H × List Bytes
  emit invalid_header rest s = (s, [])
  emit no_response rest s = rest
  emit (response out) (s1, outs) s = (s1, out ∷ outs)

  -- The messages that `readMessage` returns, in order, and the responses handed to the writer. A
  -- message below the size of a header is skipped, and one that is no SMB2 message ends the loop.
  unfoldable pub serve_loop : List Bytes → State W H → State W H × List Bytes
  serve_loop [] s = (s, [])
  serve_loop (msg ∷ msgs) s =
      let (s1, out) = dispatch env msg s in
      let skipped = serve_loop msgs s in
      let rest = serve_loop msgs s1 in
      if ltb (length msg) smb2_header_size then skipped else emit out rest s1

  unfoldable pub serve : List Bytes → State W H → State W H × List Bytes
  unfolding serve_loop close_all_handles
  serve msgs s = let (s1, outs) = serve_loop msgs s in (close_all_handles s1, outs)
