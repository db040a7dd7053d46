-- ===== src/Dispatch/Segments.antt =====
-- How `dispatch` of internal/smb/server.go cuts a message into commands.
use portable_smb_server.Base.{
  ℕ, zero, suc, ◌+◌, ◌≤◌, ◌<◌, Bool, true, false, ◌||◌, List, [], ◌∷◌, ◌++◌, ltb, if◌then◌else◌,
  length, drop, ◌≡◌, refl, sym, ◌∙◌, ap, if_lem, Option_lem, Option-cases, ◌⊎◌, inl, inr, arith,
  length-take, length-drop, take-append-drop, drop-drop, append-nil, append_assoc, All, subst,
}
use portable_smb_server.Wire.{Bytes, slice, smb2_header_size}
use portable_smb_server.Packet.{Header, parse_header}
use portable_smb_server.Dispatch.Message.{Part, segment, parts_loop, parts}

-- the bytes of the commands, one behind the other
abbrev pub joined : List Part → Bytes
joined [] = []
joined (p ∷ ps) = p.bytes ++ joined ps

-- long enough for a header, so that the body behind it is a slice
abbrev pub HoldsHeader : Part → Type 0
HoldsHeader p = smb2_header_size ≤ length p.bytes

-- The commands lie one behind the other from an offset on.
pub record Cut (msg : Bytes) (offset : ℕ) (ps : List Part) : Type 0 where
  pub left : Bytes
  pub covers : joined ps ++ left ≡ drop offset msg
  pub headers : All HoldsHeader ps

no_parts : (msg : Bytes) (offset : ℕ) → Cut msg offset []
no_parts msg offset = record { left = drop offset msg; covers = refl; headers = tt }

-- a last command, which takes the rest of the message
last_part :
    (msg : Bytes) (offset : ℕ) (h : Header)
    → offset + smb2_header_size ≤ length msg
    → Cut msg offset (record { header = h; bytes = drop offset msg } ∷ [])
last_part msg offset h f = record {
  left = [];
  covers = append-nil _ ∙ append-nil (drop offset msg);
  headers = (omega (arith, length-drop offset msg, f), tt);
}

next_part :
    (msg : Bytes) (offset next : ℕ) (h : Header) (ps : List Part)
    → smb2_header_size ≤ next
    → offset + next ≤ length msg
    → Cut msg (offset + next) ps
    → Cut msg offset (record { header = h; bytes = slice msg offset next } ∷ ps)
next_part msg offset next h ps f g c = record {
  left = c.left;
  covers =
      append_assoc (slice msg offset next) (joined ps) c.left
      ∙ ap (λ z. slice msg offset next ++ z) (c.covers ∙ sym (drop-drop next offset msg))
      ∙ take-append-drop next (drop offset msg);
  headers =
      (omega (arith, length-take next (drop offset msg), length-drop offset msg, f, g), c.headers);
}

parts_loop_end :
    (fuel : ℕ) (msg : Bytes) (offset : ℕ)
    → length msg < offset + smb2_header_size
    → parts_loop fuel msg offset ≡ []
unfolding parts_loop
parts_loop_end zero msg offset h = refl
parts_loop_end (suc fuel) msg offset h = ground (arith, h)

-- the cases of a command that is there: it is the last one, by its own word or because the next
-- would stand outside the message, or the next one follows it
cut_part :
    (msg : Bytes) (offset : ℕ) (h : Header)
    → offset + smb2_header_size ≤ length msg
    → (rest : List Part) → Cut msg (offset + h.next_command) rest
    → (length msg < offset + h.next_command + smb2_header_size → rest ≡ [])
    → (b d : Bool) → (b ≡ false → smb2_header_size ≤ h.next_command)
    → (d ≡ false → offset + h.next_command ≤ length msg)
    → (d ≡ true → length msg < offset + h.next_command + smb2_header_size)
    → Cut msg offset (
        record {
          header = h;
          bytes = if b || d then drop offset msg else slice msg offset h.next_command;
        }
        ∷ (if b then [] else rest))
cut_part msg offset h room rest c over true d p q r = last_part msg offset h room
cut_part msg offset h room rest c over false true p q r =
    subst (λ z. Cut msg offset (record { header = h; bytes = drop offset msg } ∷ z))
      (sym (over (r refl))) (last_part msg offset h room)
cut_part msg offset h room rest c over false false p q r =
    next_part msg offset h.next_command h rest (p refl) (q refl) c

parts_loop-Cut : (fuel : ℕ) (msg : Bytes) (offset : ℕ) → Cut msg offset (parts_loop fuel msg offset)
unfolding parts_loop segment
parts_loop-Cut zero msg offset = no_parts msg offset
parts_loop-Cut (suc fuel) msg offset =
    if_lem (Cut msg offset) (ltb (length msg) (offset + smb2_header_size))
      (λ _. no_parts msg offset)
      (λ f.
        Option_lem (Cut msg offset) (parse_header (drop offset msg)) (no_parts msg offset) (λ h _.
          let room : offset + smb2_header_size ≤ length msg = ground (arith, f) in
          let rest = parts_loop fuel msg (offset + h.next_command) in
          cut_part msg offset h room (parts_loop fuel msg (offset + h.next_command))
            (parts_loop-Cut fuel msg (offset + h.next_command))
            (parts_loop_end fuel msg (offset + h.next_command))
            (ltb h.next_command smb2_header_size) (ltb (length msg) (offset + h.next_command))
            (λ e. ground (arith, e)) (λ e. ground (arith, e)) (λ e. ground (arith, e))))

-- The commands of a message lie one behind the other from its start: no byte belongs to two of
-- them, so what is written into the body of one is not read by another. Each is long enough for
-- its header.
pub parts_cut : (msg : Bytes) → Cut msg 0 (parts msg)
unfolding parts
parts_cut msg = parts_loop-Cut (length msg + 1) msg 0

parts_loop_more :
    (fuel k : ℕ) (msg : Bytes) (offset : ℕ)
    → length msg < offset + fuel
    → parts_loop (fuel + k) msg offset ≡ parts_loop fuel msg offset
unfolding parts_loop
parts_loop_more zero k msg offset h = parts_loop_end (0 + k) msg offset (omega (arith, h))
parts_loop_more (suc fuel) k msg offset h =
    ap (λ n. parts_loop n msg offset) (suc_out fuel k)
    ∙ elim (Option-cases (parse_header (drop offset msg))) [
      | inl e ↦ ground (arith, e)
      | inr (hd, e) ↦ elim (split hd.next_command) [
        | inl small ↦ ground (arith, e, small)
        | inr large ↦
            let ih =
              parts_loop_more fuel k msg (offset + hd.next_command) (omega (arith, h, large)) in
            ground (arith, e, ih)
      ]
    ]
  where
    suc_out : (a b : ℕ) → suc a + b ≡ suc (a + b)
    suc_out a b = omega arith

    split : (n : ℕ) → (n < smb2_header_size) ⊎ (smb2_header_size ≤ n)
    split n = omega arith

-- The loop over the commands ends by itself: with more fuel than a step for each byte, it finds
-- the same commands.
pub parts_enough : (k : ℕ) (msg : Bytes) → parts_loop (length msg + 1 + k) msg 0 ≡ parts msg
unfolding parts
parts_enough k msg = parts_loop_more (length msg + 1) k msg 0 (omega arith)
