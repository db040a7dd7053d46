-- ===== src/Info/Fields.antt =====
-- An entry of a QUERY_DIRECTORY response of internal/smb/info.go: NextEntryOffset, and the
-- length and the bytes of the name, as they are read back.
use portable_smb_server.Base.{
  ℕ, ◌+◌, ◌%◌, ◌^◌, ◌≤◌, ◌<◌, Bool, true, false, ◌==◌, if◌then◌else◌, if_lem, length, ◌≡◌, refl,
  ◌∙◌, ap, arith, length-replicate,
}
use portable_smb_server.Wire.{Bytes, u32, put32, put64, copy_at, zeros, slice}
use portable_smb_server.Wire.Fields.{u32-put32, length-put32, length-put64}
use portable_smb_server.Wire.Frame.{
  Same, Same-refl, Same-less, Same-trans, Same-put8, Same-put16, Same-put32, Same-put64,
  Same-copy_at, u32-Same, slice-copy_at,
}
use portable_smb_server.Packet.Utf16.{string_to_utf16le}
use portable_smb_server.Packet.Filetime.{time_to_filetime}
use portable_smb_server.Path.{join_path}
use portable_smb_server.Crypto.{Primitives}
use portable_smb_server.Fsx.{FileInfo}
use portable_smb_server.Conn.{OpenFile, file_info_attrs}
use portable_smb_server.Aapl.{apple_read_dir_attr}
use portable_smb_server.Info.Encode.{put_times, path_file_id}
use portable_smb_server.Info.Entries.{
  dir_info_layout, padded_size, entry_ids, entry_fields, dir_entry,
}
use portable_smb_server.Info.Chain.{length-put_times, length-entry_fields}

-- where a class of [MS-FSCC] has FileNameLength
abbrev pub length_at : ℕ → ℕ
length_at class = if class == 0x0c then 8 else 60

abbrev pub name_bytes : FileInfo → Bytes
name_bytes fi = string_to_utf16le fi.name

-- where a class of [MS-FSCC] has FileName
abbrev pub name_at : ℕ → ℕ
name_at class =
    if class == 0x0c
    then 12
    else if class == 0x02
    then 68
    else if class == 0x26
    then 80
    else if class == 0x03
    then 94
    else if class == 0x25
    then 104
    else 64

pub name_at_lem : (class : ℕ) → name_at class ≡ dir_info_layout class
unfolding dir_info_layout
name_at_lem class = ground arith

-- an entry is below 4 GiB
abbrev pub Small : ℕ → FileInfo → Type 0
Small class fi = padded_size class fi < 2 ^ 32

pub length_at_lem : (class : ℕ) → length_at class + 4 ≤ dir_info_layout class
unfolding dir_info_layout
length_at_lem class = ground arith

pub length_at_low : (class : ℕ) → 8 ≤ length_at class
length_at_low class = ground arith

pub layout_low : (class : ℕ) → 12 ≤ dir_info_layout class
unfolding dir_info_layout
layout_low class = ground arith

layout_wide : (class : ℕ) → (class == 0x0c) ≡ false → 64 ≤ dir_info_layout class
unfolding dir_info_layout
layout_wide class h = ground (arith, h)

pub padded_size_lem :
    (class : ℕ) (fi : FileInfo)
    → dir_info_layout class + length (string_to_utf16le fi.name) ≤ padded_size class fi
unfolding padded_size
padded_size_lem class fi = omega arith

Same-put_times : (k : ℕ) (b : Bytes) (i ft : ℕ) → k ≤ i → Same k b (put_times b i ft)
Same-put_times k b i ft h = Same-trans k b _ _ (Same-put64 k b i ft h) (
    Same-trans k _ _ _ (Same-put64 k _ (i + 8) ft (omega (arith, h))) (
      Same-trans k _ _ _ (Same-put64 k _ (i + 16) ft (omega (arith, h)))
        (Same-put64 k _ (i + 24) ft (omega (arith, h)))))

Same-apple_read_dir_attr : (e : Bytes) (r d : Bool) → Same 64 e (apple_read_dir_attr e r d)
unfolding apple_read_dir_attr
Same-apple_read_dir_attr e r d = Same-trans 64 e _ _ (Same-put32 64 e 64 _ (omega arith)) (
    Same-trans 64 _ _ _ (Same-put8 64 _ 68 24 (omega arith)) (
      Same-trans 64 _ _ _ (Same-put8 64 _ 69 0 (omega arith)) (
        Same-trans 64 _ _ _ (Same-copy_at 64 _ 70 (zeros 24) (omega arith))
          (Same-put16 64 _ 94 _ (omega arith)))))

module _ {W H : Type 0} (c : Primitives) (class : ℕ) (of : OpenFile W H) (aapl : Bool) where
  Same-entry_ids : (fi : FileInfo) (e : Bytes) → Same 64 e (entry_ids c class of aapl fi e)
  unfolding entry_ids
  Same-entry_ids fi e =
      let id = path_file_id c of.share.name (join_path of.path fi.name) in
      let wide : Same 64 e (put64 e 96 id) = Same-put64 64 e 96 id (omega arith) in
      if_lem (Same 64 e) (class == 0x26) (λ _. Same-put64 64 e 72 id (omega arith))
        (λ _.
          if_lem (Same 64 e) (class == 0x25)
            (λ _.
              if_lem (Same 64 e) aapl
                (λ _. Same-trans 64 e _ _ wide (Same-apple_read_dir_attr _ _ _)) (λ _. wide))
            (λ _. Same-refl 64 e))

  -- the fields that stand before the length of the name
  before_ids : FileInfo → Bytes → Bytes
  before_ids fi e =
      put32 (put64 (put64 (put_times e 8 (time_to_filetime fi.mod_time)) 40 fi.size) 48 fi.size) 56
        (file_info_attrs fi)

  length-before_ids : (fi : FileInfo) (e : Bytes) → length (before_ids fi e) ≡ length e
  unfolding before_ids
  length-before_ids fi e =
      length-put32 _ 56 _
      ∙ length-put64 _ 48 fi.size
      ∙ length-put64 _ 40 fi.size
      ∙ length-put_times e 8 (time_to_filetime fi.mod_time)

  Same-before_ids : (fi : FileInfo) (e : Bytes) → Same 8 e (before_ids fi e)
  unfolding before_ids
  Same-before_ids fi e =
      Same-trans 8 e _ _ (Same-put_times 8 e 8 (time_to_filetime fi.mod_time) (omega arith)) (
        Same-trans 8 _ _ _ (Same-put64 8 _ 40 fi.size (omega arith)) (
          Same-trans 8 _ _ _ (Same-put64 8 _ 48 fi.size (omega arith))
            (Same-put32 8 _ 56 _ (omega arith))))

  Same-entry_fields :
      (fi : FileInfo) (n : ℕ) (e : Bytes) → Same 8 e (entry_fields c class of aapl fi n e)
  unfolding entry_fields before_ids
  Same-entry_fields fi n e =
      if_lem (Same 8 e) (class == 0x0c) (λ _. Same-put32 8 e 8 n (omega arith))
        (λ _. Same-trans 8 e _ _ (Same-before_ids fi e) (
          Same-trans 8 _ _ _ (Same-put32 8 (before_ids fi e) 60 n (omega arith))
            (Same-less 8 64 _ _ (omega arith) (Same-entry_ids fi (put32 (before_ids fi e) 60 n)))))

  length_field :
      (fi : FileInfo) (n : ℕ) (e : Bytes)
      → dir_info_layout class ≤ length e
      → u32 (entry_fields c class of aapl fi n e) (length_at class) ≡ n % 2 ^ 32
  unfolding entry_fields before_ids
  length_field fi n e h = go (class == 0x0c) refl
    where
      go :
          (b : Bool)
          → (class == 0x0c) ≡ b
          → u32
              (if b
                then put32 e 8 n
                else entry_ids c class of aapl fi (put32 (before_ids fi e) 60 n))
              (if b then 8 else 60)
            ≡ n % 2 ^ 32
      go true q = u32-put32 e 8 n (omega (arith, h, layout_low class))
      go false q =
          u32-Same 64 (put32 (before_ids fi e) 60 n) _ 60
            (Same-entry_ids fi (put32 (before_ids fi e) 60 n)) (omega arith)
          ∙ u32-put32 (before_ids fi e) 60 n
              (omega (arith, length-before_ids fi e, h, layout_wide class q))

  -- an entry before its fields are written
  started : FileInfo → Bytes
  started fi = put32 (zeros (padded_size class fi)) 0 (padded_size class fi)

  filled : FileInfo → Bytes
  filled fi = entry_fields c class of aapl fi (length (string_to_utf16le fi.name)) (started fi)

  dir_entry_lem :
      (fi : FileInfo)
      → dir_entry c class of aapl fi
        ≡ copy_at (filled fi) (dir_info_layout class) (string_to_utf16le fi.name)
  unfolding dir_entry filled started
  dir_entry_lem fi = refl

  length-started : (fi : FileInfo) → length (started fi) ≡ padded_size class fi
  unfolding started
  length-started fi = length-put32 _ 0 _ ∙ length-replicate (padded_size class fi) 0

  length-filled : (fi : FileInfo) → length (filled fi) ≡ padded_size class fi
  unfolding filled
  length-filled fi =
      length-entry_fields c class of aapl fi (length (string_to_utf16le fi.name)) (started fi)
      ∙ length-started fi

  Same-dir_entry :
      (k : ℕ) (fi : FileInfo)
      → k ≤ dir_info_layout class
      → Same k (filled fi) (dir_entry c class of aapl fi)
  Same-dir_entry k fi h =
      rw (dir_entry_lem fi)
        (Same-copy_at k (filled fi) (dir_info_layout class) (string_to_utf16le fi.name) h)

  pub next_of_entry :
      (fi : FileInfo) → Small class fi → u32 (dir_entry c class of aapl fi) 0 ≡ padded_size class fi
  unfolding filled started
  next_of_entry fi small =
      let size = padded_size class fi in
      let low = layout_low class in
      u32-Same 8 (filled fi) _ 0 (Same-dir_entry 8 fi (omega (arith, low))) (omega arith)
      ∙ u32-Same 8 (started fi) (filled fi) 0
          (Same-entry_fields fi (length (string_to_utf16le fi.name)) (started fi)) (omega arith)
      ∙ u32-put32 (zeros size) 0 size
          (omega (arith, length-replicate {A = ℕ} size 0, padded_size_lem class fi, low))
      ∙ omega (arith, small)

  pub length_of_name :
      (fi : FileInfo)
      → Small class fi
      → u32 (dir_entry c class of aapl fi) (length_at class) ≡ length (string_to_utf16le fi.name)
  unfolding filled
  length_of_name fi small =
      let n = length (string_to_utf16le fi.name) in
      u32-Same (length_at class + 4) (filled fi) _ (length_at class)
        (Same-dir_entry (length_at class + 4) fi (length_at_lem class)) (omega arith)
      ∙ length_field fi n (started fi) (omega (arith, padded_size_lem class fi, length-started fi))
      ∙ omega (arith, padded_size_lem class fi, small)

  pub name_of_entry :
      (fi : FileInfo)
      → Small class fi
      → slice
          (dir_entry c class of aapl fi)
          (dir_info_layout class)
          (u32 (dir_entry c class of aapl fi) (length_at class))
        ≡ string_to_utf16le fi.name
  unfolding filled
  name_of_entry fi small =
      let n = length (string_to_utf16le fi.name) in
      let fits = padded_size_lem class fi in
      ap (slice (dir_entry c class of aapl fi) (dir_info_layout class)) (length_of_name fi small)
      ∙ ap (λ e. slice e (dir_info_layout class) n) (dir_entry_lem fi)
      ∙ slice-copy_at (filled fi) (dir_info_layout class) (string_to_utf16le fi.name)
          (omega (arith, fits, length-filled fi))
