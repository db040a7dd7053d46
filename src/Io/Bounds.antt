-- ===== src/Io/Bounds.antt =====
-- The bounds of READ, WRITE and CLOSE: what internal/smb/io.go answers with, and what it hands on.
use portable_smb_server.Base.{
  ℕ, ◌+◌, ◌-◌, ◌%◌, ◌^◌, ◌≤◌, ◌<◌, ◌≢◌, false, Option, none, some, [], ◌∷◌, ◌++◌, ltb, ◌==◌,
  if◌then◌else◌, length, drop, ◌≡◌, refl, sym, ◌∙◌, ap, if_lem, Option_lem, arith,
}
use portable_smb_server.Base.Int.{int64}
use portable_smb_server.Wire.{Bytes, u16, u32, u64, slice, zeros, put16, smb2_header_size}
use portable_smb_server.Wire.Fields.{u32-put32}
use portable_smb_server.Wire.Slices.{length-slice}
use portable_smb_server.Packet.Status
use portable_smb_server.Fsx.{Error, Result, ok, err, map_os_error}
use portable_smb_server.Fsx.Errors.{map_os_error_fails}
use portable_smb_server.Conn.{OpenFile, State, Reply, get_handle, fail, reply, with_world}
use portable_smb_server.Io.{
  read_response_body, is_eof, write_open, write_response_body, read_reply, read_open, handle_read,
  write_data, handle_write, max_io_size, read_resp_fixed,
}

-- The READ response around data: the length that the client reads, and the data behind the fixed
-- part.
read_response_body_parts :
    (got : Bytes)
    → length got < 2 ^ 32
    → (u32 (read_response_body (zeros read_resp_fixed ++ got)) 4 ≡ length got)
      × (drop read_resp_fixed (read_response_body (zeros read_resp_fixed ++ got)) ≡ got)
unfolding read_response_body
read_response_body_parts got h = (ground arith, refl)

write_data_inside :
    (body bytes : Bytes)
    → write_data body ≡ some bytes
    → (length bytes ≡ u32 body 4) × (length bytes ≤ max_io_size)
unfolding write_data
write_data_inside body bytes e =
    ground (arith, length-slice body (u16 body 2 - smb2_header_size) (u32 body 4))

-- the place of the data lies behind the header and inside the message, nothing cut off
write_data_inside_message :
    (body bytes : Bytes)
    → write_data body ≡ some bytes
    → (smb2_header_size ≤ u16 body 2) × (u16 body 2 + u32 body 4 ≤ smb2_header_size + length body)
unfolding write_data
write_data_inside_message body bytes e = ground arith

write_data_placed :
    (body bytes : Bytes)
    → write_data body ≡ some bytes
    → bytes ≡ slice body (u16 body 2 - smb2_header_size) (u32 body 4)
unfolding write_data
write_data_placed body bytes e = ground arith

module _ {W H : Type 0} where
  -- the bytes that a READ gets from the backend
  abbrev pub read_got : State W H → OpenFile W H → H → ℕ → ℕ → Bytes
  read_got s of h len offset =
      if len == 0 then [] else (of.share.fs.read_at s.world h len (int64 offset)).1

  -- `ReadAt` brings no more than was asked for
  abbrev pub ReadsAtMost : State W H → Bytes → Type 0
  ReadsAtMost s body =
      (of : OpenFile W H) (h : H)
      → get_handle s (slice body 16 16) ≡ some of
      → length (of.share.fs.read_at s.world h (u32 body 4) (int64 (u64 body 8))).1 ≤ u32 body 4

  -- What a READ that succeeds was given and answers.
  pub record ReadOk (body : Bytes) (s : State W H) (r : Reply W H) : Type 0 where
    pub of : OpenFile W H
    pub h : H
    pub found : get_handle s (slice body 16 16) ≡ some of
    pub file : of.handle ≡ some h
    pub bounded : u32 body 4 ≤ max_io_size
    pub counted : u32 r.body 4 ≡ length (read_got s of h (u32 body 4) (u64 body 8))
    pub carried : drop read_resp_fixed r.body ≡ read_got s of h (u32 body 4) (u64 body 8)

  abbrev Ok : (Reply W H → Type 0) → Reply W H → Type 0
  Ok P r = r.status ≡ Status.success → P r

  abbrev not_ok :
      (P : Reply W H → Type 0) (s : State W H) (n : ℕ) → n ≢ Status.success → Ok P (fail s n)
  not_ok P s n h e = elim (h e) [ ]

  read_reply_body :
      (s : State W H) (got : Bytes) (e : Option Error)
      → (read_reply s got e).status ≡ Status.success
      → (read_reply s got e).body ≡ read_response_body (zeros read_resp_fixed ++ got)
  unfolding read_reply
  read_reply_body s [] none h = ground arith
  read_reply_body s [] (some e) h = elim (is_eof-cases e h) [ ]
    where
      is_eof-cases :
          (e : Error)
          → (if is_eof e then Status.end_of_file else map_os_error e) ≡ Status.success
          → ⊥
      is_eof-cases e h = let m = map_os_error_fails e in ground arith
  read_reply_body s (x ∷ xs) e h = refl

  read_open-ReadOk :
      (body : Bytes) (s : State W H) (of : OpenFile W H) (h : H)
      → get_handle s (slice body 16 16) ≡ some of
      → of.handle ≡ some h
      → ReadsAtMost s body
      → Ok (ReadOk body s) (read_open s of h (u32 body 4) (u64 body 8))
  unfolding read_open
  read_open-ReadOk body s of h found file contract =
      let len = u32 body 4 in
      if_lem (Ok (ReadOk body s)) (ltb max_io_size len)
        (λ _. not_ok (ReadOk body s) s _ (λ e. ground arith))
        (λ small.
          if_lem (Ok (ReadOk body s)) (len == 0)
            (λ e _.
              let none_got : read_got s of h len (u64 body 8) ≡ [] =
                ap
                  (λ b.
                    if b then [] else (of.share.fs.read_at s.world h len (int64 (u64 body 8))).1)
                  e in
              let (counted, carried) = read_response_body_parts [] (omega arith) in
              record {
                of = of;
                h = h;
                found = found;
                file = file;
                bounded = ground arith;
                counted = counted ∙ ap length (sym none_got);
                carried = carried ∙ sym none_got;
              })
            (λ e ok.
              let (w, got, failure) = of.share.fs.read_at s.world h len (int64 (u64 body 8)) in
              let all_got : read_got s of h len (u64 body 8) ≡ got =
                ap (λ b. if b then [] else got) e in
              let bound : length got ≤ len = contract of h found in
              let (counted, carried) = read_response_body_parts got (ground arith) in
              let same = read_reply_body (with_world s w) got failure ok in
              record {
                of = of;
                h = h;
                found = found;
                file = file;
                bounded = ground arith;
                counted = ap (λ b. u32 b 4) same ∙ counted ∙ ap length (sym all_got);
                carried = ap (drop read_resp_fixed) same ∙ carried ∙ sym all_got;
              }))

  -- A READ that is answered with success was made on an open file and asked for no more than
  -- 1 MiB, and its reply counts and carries exactly the bytes that the backend returned for that
  -- file, offset and length (none for a length of 0). It rests on `ReadAt` returning no more
  -- bytes than it is asked for.
  pub handle_read-success :
      (body : Bytes) (s : State W H)
      → ReadsAtMost s body
      → (handle_read body s).status ≡ Status.success
      → ReadOk body s (handle_read body s)
  unfolding handle_read
  handle_read-success body s contract =
      let P = Ok (ReadOk body s) in
      let refused : P (fail s Status.invalid_parameter) =
        not_ok (ReadOk body s) s _ (λ e. ground arith) in
      if_lem P (ltb (length body) 48) (λ _. refused)
        (λ _. Option_lem P (get_handle s (slice body 16 16)) refused (λ of found.
          Option_lem P of.handle refused
            (λ h file. read_open-ReadOk body s of h found file contract)))

  -- What a WRITE that succeeds was given, did and answers.
  pub record WriteOk (body : Bytes) (s : State W H) (r : Reply W H) : Type 0 where
    pub of : OpenFile W H
    pub h : H
    pub bytes : Bytes
    pub count : ℕ
    pub found : get_handle s (slice body 16 16) ≡ some of
    pub file : of.handle ≡ some h
    pub writable : of.share.read_only ≡ false
    pub sized : length bytes ≡ u32 body 4
    pub bounded : length bytes ≤ max_io_size
    pub behind_header : smb2_header_size ≤ u16 body 2
    pub inside : u16 body 2 + u32 body 4 ≤ smb2_header_size + length body
    pub placed : bytes ≡ slice body (u16 body 2 - smb2_header_size) (u32 body 4)
    pub written :
        of.share.fs.write_at s.world h bytes (int64 (u64 body 8)) ≡ (r.state.world, ok count)
    pub answered : u32 r.body 4 ≡ count % 2 ^ 32

  write_open-WriteOk :
      (body bytes : Bytes) (s : State W H) (of : OpenFile W H) (h : H)
      → get_handle s (slice body 16 16) ≡ some of
      → of.handle ≡ some h
      → of.share.read_only ≡ false
      → write_data body ≡ some bytes
      → Ok (WriteOk body s) (write_open s of h bytes (u64 body 8))
  unfolding write_open write_response_body
  write_open-WriteOk body bytes s of h found file writable e =
      let called = of.share.fs.write_at s.world h bytes (int64 (u64 body 8)) in
      go called.0 called.1 refl
    where
      go :
          (w : W) (r : Result ℕ)
          → of.share.fs.write_at s.world h bytes (int64 (u64 body 8)) ≡ (w, r)
          → Ok (WriteOk body s) (elim r [
            | err e ↦ fail (with_world s w) (map_os_error e)
            | ok n ↦ reply (with_world s w) Status.success (write_response_body (n % 2 ^ 32))
          ])
      go w (err f) q = λ ok. elim (map_os_error_fails f ok) [ ]
      go w (ok n) q = λ _. record {
        of = of;
        h = h;
        bytes = bytes;
        count = n;
        found = found;
        file = file;
        writable = writable;
        sized = (write_data_inside body bytes e).0;
        bounded = (write_data_inside body bytes e).1;
        behind_header = (write_data_inside_message body bytes e).0;
        inside = (write_data_inside_message body bytes e).1;
        placed = write_data_placed body bytes e;
        written = q;
        answered = u32-put32 (put16 (zeros 17) 0 17) 4 (n % 2 ^ 32) (omega arith) ∙ omega arith;
      }

  -- A WRITE that is answered with success was made on an open file of a share that is not
  -- read-only, and the backend was called once: with exactly the bytes that the request's offset
  -- and length name, which lie inside the request and are no more than 1 MiB. The reply counts
  -- what the backend says it wrote.
  pub handle_write-success :
      (body : Bytes) (s : State W H)
      → (handle_write body s).status ≡ Status.success
      → WriteOk body s (handle_write body s)
  unfolding handle_write
  handle_write-success body s =
      let P = Ok (WriteOk body s) in
      let refused : P (fail s Status.invalid_parameter) =
        not_ok (WriteOk body s) s _ (λ e. ground arith) in
      if_lem P (ltb (length body) 48) (λ _. refused)
        (λ _. Option_lem P (get_handle s (slice body 16 16)) refused (λ of found.
          Option_lem P of.handle refused (λ h file.
            if_lem P of.share.read_only (λ _. not_ok (WriteOk body s) s _ (λ e. ground arith))
              (λ writable.
                Option_lem P (write_data body) refused
                  (λ bytes e. write_open-WriteOk body bytes s of h found file writable e)))))
