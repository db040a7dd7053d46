-- ===== src/Io.antt =====
-- READ, WRITE, FLUSH and CLOSE: internal/smb/io.go, and the fixed response bodies of
-- internal/smb/misc.go.
pub mod Bounds
use portable_smb_server.Base.{
  ℕ, ◌+◌, ◌-◌, ◌%◌, ◌^◌, Bool, true, false, ◌||◌, ◌&&◌, not, Option, none, some, List, [], ◌∷◌,
  ◌++◌, ltb, leb, ◌==◌, if◌then◌else◌, length,
}
use portable_smb_server.Base.Int.{int64}
use portable_smb_server.Wire.{
  Bytes, u16, u32, u64, put8, put16, put32, put64, zeros, slice, has_bits, smb2_header_size,
}
use portable_smb_server.Packet.Status
use portable_smb_server.Packet.Filetime.{time_to_filetime}
use portable_smb_server.Fsx.{Error, eof, Result, ok, err, map_os_error}
use portable_smb_server.Conn.{
  OpenFile, State, Reply, Attrs, reply, fail, with_world, get_handle, remove_handle, open_attrs,
}

abbrev pub max_io_size : ℕ
max_io_size = 0x00100000

abbrev pub read_resp_fixed : ℕ
read_resp_fixed = 16

abbrev pub close_flag_post_query_attrib : ℕ
close_flag_post_query_attrib = 0x0001

abbrev pub echo_response_body : Bytes
echo_response_body = put16 (zeros 4) 0 4

abbrev pub tree_disconnect_response_body : Bytes
tree_disconnect_response_body = put16 (zeros 4) 0 4

abbrev pub logoff_response_body : Bytes
logoff_response_body = put16 (zeros 4) 0 4

abbrev pub lock_response_body : Bytes
lock_response_body = put16 (zeros 4) 0 4

abbrev pub close_response_body : Bytes
close_response_body = put16 (zeros 60) 0 60

abbrev pub flush_response_body : Bytes
flush_response_body = put16 (zeros 4) 0 4

unfoldable pub close_attrs : Attrs → Bytes
close_attrs a =
    let ft = time_to_filetime a.mtime in
    let b1 = put16 (put16 (zeros 60) 0 60) 2 close_flag_post_query_attrib in
    let b2 = put64 (put64 (put64 (put64 b1 8 ft) 16 ft) 24 ft) 32 ft in
    put32 (put64 (put64 b2 40 a.size) 48 a.size) 56 a.attrs

-- the fixed part before the data, filled in
unfoldable pub read_response_body : Bytes → Bytes
read_response_body body =
    let b1 = put16 body 0 17 in
    let b2 = put8 b1 2 (smb2_header_size + read_resp_fixed) in
    put32 b2 4 (length body - read_resp_fixed)

unfoldable pub write_response_body : ℕ → Bytes
write_response_body count = put32 (put16 (zeros 17) 0 17) 4 count

abbrev pub is_eof : Error → Bool
is_eof eof = true
is_eof _ = false

-- The data's place in the body; `none` where it does not lie inside or is larger than a WRITE
-- may carry. `dataOffset < 0` says that the offset is below the header's size.
unfoldable pub write_data : Bytes → Option Bytes
write_data body =
    let start = u16 body 2 in
    let len = u32 body 4 in
    if ltb max_io_size len
      || ltb start smb2_header_size
      || ltb (length body) (start - smb2_header_size + len)
    then none
    else some (slice body (start - smb2_header_size) len)

module _ {W H : Type 0} where
  -- what `ReadAt` brought, as a reply
  unfoldable pub read_reply : State W H → Bytes → Option Error → Reply W H
  unfolding read_response_body
  read_reply s [] none = fail s Status.end_of_file
  read_reply s [] (some e) = fail s (if is_eof e then Status.end_of_file else map_os_error e)
  read_reply s (x ∷ xs) _ =
      reply s Status.success (read_response_body (zeros read_resp_fixed ++ x ∷ xs))

  unfoldable pub read_open : State W H → OpenFile W H → H → ℕ → ℕ → Reply W H
  unfolding read_reply
  read_open s of h len offset =
      let (w, got, e) = of.share.fs.read_at s.world h len (int64 offset) in
      if ltb max_io_size len
      then fail s Status.invalid_parameter
      else if len == 0
      then reply s Status.success (read_response_body (zeros read_resp_fixed))
      else read_reply (with_world s w) got e

  unfoldable pub handle_read : Bytes → State W H → Reply W H
  unfolding read_open
  handle_read body s =
      if ltb (length body) 48
      then fail s Status.invalid_parameter
      else elim (get_handle s (slice body 16 16)) [
        | none ↦ fail s Status.invalid_parameter
        | some of ↦ elim of.handle [
          | none ↦ fail s Status.invalid_parameter
          | some h ↦ read_open s of h (u32 body 4) (u64 body 8)
        ]
      ]

  unfoldable pub write_open : State W H → OpenFile W H → H → Bytes → ℕ → Reply W H
  unfolding write_response_body
  write_open s of h bytes offset =
      let (w, result) = of.share.fs.write_at s.world h bytes (int64 offset) in
      elim result [
        | err e ↦ fail (with_world s w) (map_os_error e)
        | ok n ↦ reply (with_world s w) Status.success (write_response_body (n % 2 ^ 32))
      ]

  unfoldable pub handle_write : Bytes → State W H → Reply W H
  unfolding write_data write_open
  handle_write body s =
      if ltb (length body) 48
      then fail s Status.invalid_parameter
      else elim (get_handle s (slice body 16 16)) [
        | none ↦ fail s Status.invalid_parameter
        | some of ↦ elim of.handle [
          | none ↦ fail s Status.invalid_parameter
          | some h ↦
              if of.share.read_only
              then fail s Status.media_write_protected
              else elim (write_data body) [
                | none ↦ fail s Status.invalid_parameter
                | some bytes ↦ write_open s of h bytes (u64 body 8)
              ]
        ]
      ]

  unfoldable pub handle_flush : Bytes → State W H → Reply W H
  handle_flush body s =
      if ltb (length body) 24
      then fail s Status.invalid_parameter
      else elim (get_handle s (slice body 8 16)) [
        | none ↦ reply s Status.success flush_response_body
        | some of ↦ elim of.handle [
          | none ↦ reply s Status.success flush_response_body
          | some h ↦
              let (w, result) = of.share.fs.sync s.world h in
              elim result [
                | err e ↦ fail (with_world s w) (map_os_error e)
                | ok _ ↦ reply (with_world s w) Status.success flush_response_body
              ]
        ]
      ]

  -- of.handle.Close(), of an open that has a handle
  unfoldable pub close_open : W → OpenFile W H → W × Option Error
  close_open w of = elim of.handle [
    | none ↦ (w, none)
    | some h ↦
        let (w1, result) = of.share.fs.close w h in
        elim result [ ok _ ↦ (w1, none) | err e ↦ (w1, some e) ]
  ]

  -- the deletion behind a close that did not fail
  unfoldable pub delete_closed : W → OpenFile W H → W × Option Error
  delete_closed w of =
      let (w1, result) = of.share.fs.remove w of.path in
      elim of.delete_on_close [
        | false ↦ (w, none)
        | true ↦ elim result [ ok _ ↦ (w1, none) | err e ↦ (w1, some e) ]
      ]

  unfoldable pub close_world : W → OpenFile W H → W × Option Error
  unfolding close_open delete_closed
  close_world w of =
      let (w1, closed) = close_open w of in
      elim closed [ some e ↦ (w1, some e) | none ↦ delete_closed w1 of ]

  -- the attributes are read before the handle is closed
  unfoldable pub close_body : ℕ → W → OpenFile W H → Bytes
  unfolding close_attrs
  close_body flags w of =
      if has_bits flags close_flag_post_query_attrib && not of.delete_on_close
      then close_attrs (open_attrs w of)
      else close_response_body

  unfoldable pub handle_close : Bytes → State W H → Reply W H
  unfolding close_world close_body
  handle_close body s =
      let id = slice body 8 16 in
      if ltb (length body) 24 then fail s Status.invalid_parameter else elim (get_handle s id) [
        | none ↦ reply (remove_handle s id) Status.success close_response_body
        | some of ↦
            let (w, failure) = close_world s.world of in
            let s1 = with_world (remove_handle s id) w in
            elim failure [
              | some e ↦ fail s1 (map_os_error e)
              | none ↦ reply s1 Status.success (close_body (u16 body 2) s.world of)
            ]
      ]
