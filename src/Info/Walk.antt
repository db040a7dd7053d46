-- ===== src/Info/Walk.antt =====
-- The entries of a QUERY_DIRECTORY response of internal/smb/info.go, as a client reads them.
use portable_smb_server.Base.{
  ℕ, zero, suc, ◌+◌, ◌-◌, length-append, ◌≤◌, ◌<◌, Bool, true, ◌&&◌, List, [], ◌∷◌, ◌++◌, map, ltb,
  ◌==◌, if◌then◌else◌, if_lem, length, take, drop, ◌≡◌, refl, sym, ◌∙◌, ap, ap₂, arith, All,
  length-take, drop-append, append_assoc,
}
use portable_smb_server.Wire.{Bytes, u32, put32, slice}
use portable_smb_server.Wire.Fields.{u32-put32, length-put32}
use portable_smb_server.Wire.Frame.{
  u32-append, slice-append, drop-put32, u32-put32_after, put32-append_right,
}
use portable_smb_server.Crypto.{Primitives}
use portable_smb_server.Fsx.{FileInfo}
use portable_smb_server.Conn.{OpenFile}
use portable_smb_server.Info.Entries.{
  dir_info_layout, padded_size, dir_entry, dir_info_loop, build_dir_info_buffer,
}
use portable_smb_server.Info.Chain.{length-dir_entry}
use portable_smb_server.Info.Fields.{
  Small, name_bytes, length_at, name_at, name_at_lem, length_at_lem, length_at_low, layout_low,
  padded_size_lem, next_of_entry, length_of_name, name_of_entry,
}

-- A client's walk along NextEntryOffset, which a 0 ends: the bytes of each entry's name.
unfoldable pub read_names : ℕ → ℕ → Bytes → List Bytes
read_names class zero b = []
read_names class (suc fuel) b =
    let rest = read_names class fuel (drop (u32 b 0) b) in
    let name = slice b (name_at class) (u32 b (length_at class)) in
    if u32 b 0 == 0 then name ∷ [] else name ∷ rest

name_lem :
    (class : ℕ) (b : Bytes)
    → slice b (name_at class) (u32 b (length_at class))
      ≡ slice b (dir_info_layout class) (u32 b (length_at class))
name_lem class b = ap (λ l. slice b l (u32 b (length_at class))) (name_at_lem class)

read_end :
    (class fuel : ℕ) (b name : Bytes)
    → u32 b 0 ≡ 0
    → slice b (dir_info_layout class) (u32 b (length_at class)) ≡ name
    → read_names class (suc fuel) b ≡ name ∷ []
unfolding read_names
read_end class fuel b name e h =
    if_lem (λ l. l ≡ name ∷ []) (u32 b 0 == 0) (λ _. ap (λ n. n ∷ []) (name_lem class b ∙ h))
      (λ more. absurd (ground (arith, e, more)))

read_next :
    (class fuel : ℕ) (b name : Bytes) (next : ℕ)
    → u32 b 0 ≡ next
    → 0 < next
    → slice b (dir_info_layout class) (u32 b (length_at class)) ≡ name
    → read_names class (suc fuel) b ≡ name ∷ read_names class fuel (drop next b)
unfolding read_names
read_next class fuel b name next e some_next h =
    if_lem (λ l. l ≡ name ∷ read_names class fuel (drop next b)) (u32 b 0 == 0)
      (λ none. absurd (ground (arith, e, some_next, none)))
      (λ _. ap₂ (λ n m. n ∷ read_names class fuel (drop m b)) (name_lem class b ∙ h) e)

pub All-take : {A : Type 0} (P : A → Type 0) (n : ℕ) (xs : List A) → All P xs → All P (take n xs)
All-take P zero xs h = tt
All-take P (suc n) [] h = tt
All-take P (suc n) (x ∷ xs) (hx, h) = (hx, All-take P n xs h)

module _ {W H : Type 0} (c : Primitives) (class : ℕ) (of : OpenFile W H) (aapl : Bool) where
  -- the chain as a client gets it, whose last entry has no next
  unfoldable pub closed : List FileInfo → Bytes
  closed [] = []
  closed (fi ∷ []) = put32 (dir_entry c class of aapl fi) 0 0
  closed (fi ∷ next ∷ fis) = dir_entry c class of aapl fi ++ closed (next ∷ fis)

  read_last :
      (fuel : ℕ) (fi : FileInfo)
      → Small class fi
      → read_names class (suc fuel) (put32 (dir_entry c class of aapl fi) 0 0) ≡ name_bytes fi ∷ []
  read_last fuel fi small =
      let e = dir_entry c class of aapl fi in
      let long : 12 ≤ length e =
        omega (
          arith,
          length-dir_entry c class of aapl fi,
          padded_size_lem class fi,
          layout_low class,
        ) in
      let field : u32 (put32 e 0 0) (length_at class) ≡ u32 e (length_at class) =
        u32-put32_after e 0 0 (length_at class) (omega (arith, length_at_low class)) in
      read_end class fuel (put32 e 0 0) (name_bytes fi) (u32-put32 e 0 0 (omega (arith, long))) (
        ap (slice (put32 e 0 0) (dir_info_layout class)) field
        ∙ ap (take (u32 e (length_at class)))
            (drop-put32 (dir_info_layout class) 0 0 e (omega (arith, layout_low class)))
        ∙ name_of_entry c class of aapl fi small)

  read_step :
      (fuel : ℕ) (fi : FileInfo) (rest : Bytes)
      → Small class fi
      → read_names class (suc fuel) (dir_entry c class of aapl fi ++ rest)
        ≡ name_bytes fi ∷ read_names class fuel rest
  read_step fuel fi rest small =
      let e = dir_entry c class of aapl fi in
      let size : length e ≡ padded_size class fi = length-dir_entry c class of aapl fi in
      let fits = padded_size_lem class fi in
      let field : u32 (e ++ rest) (length_at class) ≡ u32 e (length_at class) =
        u32-append e rest (length_at class) (omega (arith, size, fits, length_at_lem class)) in
      read_next class fuel (e ++ rest) (name_bytes fi) (length e)
        (u32-append e rest 0 (omega (arith, size, fits, layout_low class))
          ∙ next_of_entry c class of aapl fi small
          ∙ sym size)
        (omega (arith, size, fits, layout_low class))
        (ap (slice (e ++ rest) (dir_info_layout class)) field
          ∙ slice-append (dir_info_layout class) (u32 e (length_at class)) e rest
              (omega (arith, length_of_name c class of aapl fi small, size, fits))
          ∙ name_of_entry c class of aapl fi small)
      ∙ ap (λ b. name_bytes fi ∷ read_names class fuel b) (drop-append e rest)

  read_closed :
      (fi : FileInfo) (fis : List FileInfo) (more : ℕ)
      → All (Small class) (fi ∷ fis)
      → read_names class (length (fi ∷ fis) + more) (closed (fi ∷ fis)) ≡ map name_bytes (fi ∷ fis)
  unfolding closed
  read_closed fi [] more (h, hs) =
      let fuel : 1 + more ≡ suc more = omega arith in
      ap (λ n. read_names class n (closed (fi ∷ []))) fuel ∙ read_last more fi h
  read_closed fi (next ∷ fis) more (h, hs) =
      let fuel : length (fi ∷ next ∷ fis) + more ≡ suc (length (next ∷ fis) + more) = omega arith in
      ap (λ n. read_names class n (closed (fi ∷ next ∷ fis))) fuel
      ∙ read_step (length (next ∷ fis) + more) fi (closed (next ∷ fis)) h
      ∙ ap (λ l. name_bytes fi ∷ l) (read_closed next fis more hs)

  -- What the loop leaves once an entry is there: the chain, closed at its last entry.
  record Chain (front : Bytes) (f : FileInfo) (fis : List FileInfo) (count : ℕ)
      (out : Bytes × ℕ × ℕ) : Type 0 where
    added : ℕ
    counted : out.2 ≡ count + added
    within : added ≤ length fis
    chain : put32 out.0 out.1 0 ≡ front ++ closed (f ∷ take added fis)

  dir_info_loop-Chain :
      (fis : List FileInfo) (max_len : ℕ) (front : Bytes) (f : FileInfo) (count : ℕ)
      → Chain front f fis count (
          dir_info_loop c class of aapl fis max_len
            (front ++ dir_entry c class of aapl f)
            (length front)
            count)
  unfolding dir_info_loop closed
  dir_info_loop-Chain [] max_len front f count = record {
    added = 0;
    counted = omega arith;
    within = omega arith;
    chain = put32-append_right front (dir_entry c class of aapl f) 0;
  }
  dir_info_loop-Chain (fi ∷ fis) max_len front f count =
      let e = dir_entry c class of aapl f in
      if_lem (Chain front f (fi ∷ fis) count)
        (ltb 0 count && ltb max_len (length (front ++ e) + padded_size class fi))
        (λ _. record {
          added = 0;
          counted = omega arith;
          within = omega arith;
          chain = put32-append_right front e 0;
        })
        (λ _.
          let rest = dir_info_loop-Chain fis max_len (front ++ e) fi (count + 1) in
          record {
            added = suc rest.added;
            counted = omega (arith, rest.counted);
            within = omega (arith, rest.within);
            chain = rest.chain ∙ append_assoc front e (closed (fi ∷ take rest.added fis));
          })

  record Built (fis : List FileInfo) (out : Bytes × ℕ) : Type 0 where
    within : out.1 ≤ length fis
    chain : out.0 ≡ closed (take out.1 fis)

  Built-some :
      (fi : FileInfo) (fis : List FileInfo) (max_len : ℕ)
      → Built (fi ∷ fis) (build_dir_info_buffer c class of aapl (fi ∷ fis) max_len)
  unfolding build_dir_info_buffer dir_info_loop
  Built-some fi fis max_len =
      let out = dir_info_loop c class of aapl fis max_len (dir_entry c class of aapl fi) 0 1 in
      let k = dir_info_loop-Chain fis max_len [] fi 1 in
      let count : out.2 ≡ suc k.added = omega (arith, k.counted) in
      let some_entry : ltb 0 out.2 ≡ true = ground (arith, count) in
      record {
        within = omega (arith, count, k.within);
        chain =
            ap (λ b. if b then put32 out.0 out.1 0 else out.0) some_entry
            ∙ k.chain
            ∙ ap (λ n. closed (take n (fi ∷ fis))) (sym count);
      }

  -- the buffer is the closed chain of the entries that are counted
  pub build_dir_info_buffer-closed :
      (fis : List FileInfo) (max_len : ℕ)
      → (build_dir_info_buffer c class of aapl fis max_len).0
        ≡ closed (take (build_dir_info_buffer c class of aapl fis max_len).1 fis)
  unfolding build_dir_info_buffer dir_info_loop closed
  build_dir_info_buffer-closed [] max_len = refl
  build_dir_info_buffer-closed (fi ∷ fis) max_len = (Built-some fi fis max_len).chain

  pub length-closed : (fis : List FileInfo) → length fis ≤ length (closed fis)
  unfolding closed
  length-closed [] = omega arith
  length-closed (fi ∷ []) = omega (
    arith,
    length-put32 (dir_entry c class of aapl fi) 0 0,
    length-dir_entry c class of aapl fi,
    padded_size_lem class fi,
    layout_low class,
  )
  length-closed (fi ∷ next ∷ fis) = omega (
    arith,
    length-append (dir_entry c class of aapl fi) (closed (next ∷ fis)),
    length-closed (next ∷ fis),
    length-dir_entry c class of aapl fi,
    padded_size_lem class fi,
    layout_low class,
  )

  -- as many steps as the buffer has bytes are enough for the walk
  pub read_names-closed :
      (fi : FileInfo) (fis : List FileInfo)
      → All (Small class) (fi ∷ fis)
      → read_names class (length (closed (fi ∷ fis))) (closed (fi ∷ fis))
        ≡ map name_bytes (fi ∷ fis)
  read_names-closed fi fis h =
      let spare = length (closed (fi ∷ fis)) - length (fi ∷ fis) in
      let fuel : length (closed (fi ∷ fis)) ≡ length (fi ∷ fis) + spare =
        omega (arith, length-closed (fi ∷ fis)) in
      ap (λ n. read_names class n (closed (fi ∷ fis))) fuel ∙ read_closed fi fis spare h

  -- A client that follows NextEntryOffset through a QUERY_DIRECTORY response, in any information
  -- class, reads the names of the files that the response carries, as they are and in their order,
  -- and the offset of the last tells it to stop, however many steps it would take. There is a
  -- file to list, and every entry is below 4 GiB.
  pub read_names-build_dir_info_buffer :
      (fi : FileInfo) (fis : List FileInfo) (max_len more : ℕ)
      → All (Small class) (fi ∷ fis)
      → let (buffer, count) = build_dir_info_buffer c class of aapl (fi ∷ fis) max_len in
        read_names class (count + more) buffer ≡ map name_bytes (take count (fi ∷ fis))
  unfolding build_dir_info_buffer dir_info_loop
  read_names-build_dir_info_buffer fi fis max_len more h =
      let out = dir_info_loop c class of aapl fis max_len (dir_entry c class of aapl fi) 0 1 in
      let k = dir_info_loop-Chain fis max_len [] fi 1 in
      let count : out.2 ≡ suc k.added = omega (arith, k.counted) in
      let some_entry : ltb 0 out.2 ≡ true = ground (arith, count) in
      let taken : out.2 + more ≡ length (fi ∷ take k.added fis) + more =
        omega (arith, count, k.within, length-take k.added fis) in
      ap (λ b. read_names class (out.2 + more) (if b then put32 out.0 out.1 0 else out.0))
        some_entry
      ∙ ap₂ (read_names class) taken k.chain
      ∙ read_closed fi (take k.added fis) more (h.0, All-take (Small class) k.added fis h.1)
      ∙ ap (λ n. map name_bytes (take n (fi ∷ fis))) (sym count)
