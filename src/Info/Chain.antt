-- ===== src/Info/Chain.antt =====
-- The chain of entries that `buildDirInfoBuffer` of internal/smb/info.go packs into a response.
use portable_smb_server.Base.{
  ℕ, suc, ◌+◌, ◌≤◌, Bool, ◌||◌, ◌&&◌, List, [], ◌∷◌, ◌++◌, ltb, length, take, ◌≡◌, sym, ◌∙◌, if_lem,
  Bool-cases, ◌⊎◌, inl, inr, arith, length-append, length-set, length-replicate, append-nil,
  append_assoc,
}
use portable_smb_server.Wire.{Bytes, put32, put64, zeros}
use portable_smb_server.Wire.Fields.{length-put16, length-put32, length-put64, length-copy_at}
use portable_smb_server.Fsx.{FileInfo, file_is_read_only}
use portable_smb_server.Packet.Utf16.{string_to_utf16le}
use portable_smb_server.Crypto.{Primitives}
use portable_smb_server.Conn.{OpenFile, file_info_attrs}
use portable_smb_server.Aapl.{apple_read_dir_attr}
use portable_smb_server.Info.Encode.{put_times, path_file_id}
use portable_smb_server.Path.{join_path}
use portable_smb_server.Packet.Filetime.{time_to_filetime}
use portable_smb_server.Info.Entries.{
  dir_info_layout, padded_size, entry_ids, entry_fields, dir_entry, dir_info_loop,
}

length-apple_read_dir_attr :
    (e : Bytes) (r d : Bool) → length (apple_read_dir_attr e r d) ≡ length e
unfolding apple_read_dir_attr
length-apple_read_dir_attr e r d =
    length-put16 _ 94 _
    ∙ length-copy_at _ 70 (zeros 24)
    ∙ length-set _ 69 _
    ∙ length-set _ 68 _
    ∙ length-put32 e 64 _

pub length-put_times : (b : Bytes) (i ft : ℕ) → length (put_times b i ft) ≡ length b
length-put_times b i ft =
    length-put64 _ (i + 24) ft
    ∙ length-put64 _ (i + 16) ft
    ∙ length-put64 _ (i + 8) ft
    ∙ length-put64 b i ft

module _ {W H : Type 0} (c : Primitives) (class : ℕ) (of : OpenFile W H) (aapl : Bool) where
  -- the entries of a list, one behind the other
  abbrev pub chained : List FileInfo → Bytes
  chained [] = []
  chained (fi ∷ fis) = dir_entry c class of aapl fi ++ chained fis

  length-entry_ids :
      (fi : FileInfo) (e : Bytes) → length (entry_ids c class of aapl fi e) ≡ length e
  unfolding entry_ids
  length-entry_ids fi e =
      let id = path_file_id c of.share.name (join_path of.path fi.name) in
      ground (
        arith,
        length-put64 e 72 id,
        length-put64 e 96 id,
        length-apple_read_dir_attr (put64 e 96 id) (of.share.read_only || file_is_read_only fi)
            fi.is_dir,
      )

  pub length-entry_fields :
      (fi : FileInfo) (n : ℕ) (e : Bytes) → length (entry_fields c class of aapl fi n e) ≡ length e
  unfolding entry_fields
  length-entry_fields fi n e =
      let ft = time_to_filetime fi.mod_time in
      let e1 = put_times e 8 ft in
      let e2 = put32 (put64 (put64 e1 40 fi.size) 48 fi.size) 56 (file_info_attrs fi) in
      let all =
        length-entry_ids fi (put32 e2 60 n)
        ∙ length-put32 e2 60 n
        ∙ length-put32 _ 56 _
        ∙ length-put64 _ 48 fi.size
        ∙ length-put64 e1 40 fi.size
        ∙ length-put_times e 8 ft in
      ground (arith, length-put32 e 8 n, all)

  pub length-dir_entry :
      (fi : FileInfo) → length (dir_entry c class of aapl fi) ≡ padded_size class fi
  unfolding dir_entry
  length-dir_entry fi =
      length-copy_at _ (dir_info_layout class) (string_to_utf16le fi.name)
      ∙ length-entry_fields fi _ _
      ∙ length-put32 _ 0 _
      ∙ length-replicate (padded_size class fi) 0

  -- What the loop adds to what it was given: the chain of the first entries, as many as fit.
  pub record Packed (fis : List FileInfo) (max_len : ℕ) (buf : Bytes) (count : ℕ)
      (out : Bytes × ℕ × ℕ) : Type 0 where
    pub added : ℕ
    pub counted : out.2 ≡ count + added
    pub within : added ≤ length fis
    pub chain : out.0 ≡ buf ++ chained (take added fis)
    pub fits : (length out.0 ≤ max_len) ⊎ (out.2 ≤ 1)
    pub starts : count ≡ 0 → 1 ≤ length fis → 1 ≤ added

  pub dir_info_loop-Packed :
      (fis : List FileInfo) (max_len : ℕ) (buf : Bytes) (last count : ℕ)
      → (length buf ≤ max_len) ⊎ (count ≤ 1)
      → Packed fis max_len buf count (dir_info_loop c class of aapl fis max_len buf last count)
  unfolding dir_info_loop
  dir_info_loop-Packed [] max_len buf last count h = record {
    added = 0;
    counted = omega arith;
    within = omega arith;
    chain = sym (append-nil buf);
    fits = h;
    starts = λ e f. f;
  }
  dir_info_loop-Packed (fi ∷ fis) max_len buf last count h =
      if_lem (Packed (fi ∷ fis) max_len buf count)
        (ltb 0 count && ltb max_len (length buf + padded_size class fi))
        (λ stop. record {
          added = 0;
          counted = omega arith;
          within = omega arith;
          chain = sym (append-nil buf);
          fits = h;
          starts = λ e f. ground arith;
        })
        (λ go.
          let e = dir_entry c class of aapl fi in
          let room : (length (buf ++ e) ≤ max_len) ⊎ (count + 1 ≤ 1) =
            elim (Bool-cases (ltb 0 count)) [
              | inr first ↦ inr (ground arith)
              | inl later ↦ inl (ground (arith, length-append buf e, length-dir_entry fi))
            ] in
          let rest = dir_info_loop-Packed fis max_len (buf ++ e) (length buf) (count + 1) room in
          record {
            added = suc rest.added;
            counted = omega (arith, rest.counted);
            within = omega (arith, rest.within);
            chain = rest.chain ∙ append_assoc buf e (chained (take rest.added fis));
            fits = rest.fits;
            starts = λ _ _. omega arith;
          })
