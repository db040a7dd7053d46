-- ===== src/Dispatch/Compound.antt =====
-- The compound response that `assembleResponse` of internal/smb/server.go makes, as a client takes it
-- apart by its NextCommand fields.
use portable_smb_server.Base.{
  map, refl, if_lem, ℕ, zero, suc, ◌-◌, ◌%◌, ◌^◌, ◌≤◌, ◌<◌, true, Option, none, some, List, [], ◌∷◌,
  ◌++◌, ◌==◌, if◌then◌else◌, length, take, drop, ◌≡◌, sym, ◌∙◌, ap, ap₂, arith, length-append,
  length-replicate, take-append, drop-append, append-nil, All,
}
use portable_smb_server.Wire.{Bytes, u32, zeros, smb2_header_size}
use portable_smb_server.Wire.Fields.{u32-put32, length-put32}
use portable_smb_server.Wire.Frame.{u32-append}
use portable_smb_server.Crypto.{Primitives, Sizes, sign_message, verify_message}
use portable_smb_server.Crypto.Signature.{
  verify_message-sign_message, sign_message_body, next_command-sign_message,
}
use portable_smb_server.Conn.{Env, State}
use portable_smb_server.Aapl.{round_up8}
use portable_smb_server.Dispatch.Carried.{
  AllCarry, Carries, Carries-refl, link-Carries, sign_message-Carries,
}
use portable_smb_server.Dispatch.Message.{link, linked, concat, assemble_response}

-- A client's walk: a NextCommand of 0 ends it. The fuel is a step for each byte.
pub split_response : ℕ → Bytes → List Bytes
split_response zero b = []
split_response (suc fuel) b =
    let next = u32 b 20 in
    let rest = split_response fuel (drop next b) in if next == 0 then b ∷ [] else take next b ∷ rest

-- A PDU as `buildResponse` makes it: with a header that names no next command, and below 2^31 bytes.
pub record Single (pdu : Bytes) : Type 0 where
  pub headed : smb2_header_size ≤ length pdu
  pub no_next : u32 pdu 20 ≡ 0
  pub small : length pdu < 2 ^ 31

abbrev size_of : Bytes → ℕ
size_of pdu = round_up8 (length pdu)

length-link : (pdu : Bytes) → length (link pdu) ≡ size_of pdu
unfolding link
length-link pdu =
    let pad = size_of pdu - length pdu in
    length-put32 (pdu ++ zeros pad) 20 (size_of pdu)
    ∙ omega (arith, length-append pdu (zeros pad), length-replicate {A = ℕ} pad 0)

next-link : (pdu : Bytes) → Single pdu → u32 (link pdu) 20 ≡ size_of pdu
unfolding link
next-link pdu h =
    let pad = size_of pdu - length pdu in
    omega (
      arith,
      u32-put32 (pdu ++ zeros pad) 20 (size_of pdu)
          (omega (arith, h.headed, length-append pdu (zeros pad))),
      h.small,
    )

-- Pieces of which each but the last names the next, and the last none.
Chained : List Bytes → Type 0
Chained [] = Unit {0}
Chained (x ∷ []) = (u32 x 20 ≡ 0) × (smb2_header_size ≤ length x)
Chained (x ∷ y ∷ ys) = (u32 x 20 ≡ length x) × (smb2_header_size ≤ length x) × Chained (y ∷ ys)

split_step :
    (fuel : ℕ) (x rest : Bytes)
    → u32 x 20 ≡ length x
    → smb2_header_size ≤ length x
    → split_response (suc fuel) (x ++ rest) ≡ x ∷ split_response fuel rest
unfolding split_response
split_step fuel x rest e h =
    let next : u32 (x ++ rest) 20 ≡ length x = u32-append x rest 20 (omega (arith, h)) ∙ e in
    if_lem (λ l. l ≡ x ∷ split_response fuel rest) (u32 (x ++ rest) 20 == 0)
      (λ z. absurd (ground (arith, next, h, z)))
      (λ _.
        ap₂ (λ y z. y ∷ split_response fuel z)
          (ap (λ n. take n (x ++ rest)) next ∙ take-append x rest)
          (ap (λ n. drop n (x ++ rest)) next ∙ drop-append x rest))

split_last : (x : Bytes) → u32 x 20 ≡ 0 → split_response 1 (x ++ []) ≡ x ∷ []
unfolding split_response
split_last x e =
    let none_next : u32 (x ++ []) 20 ≡ 0 = ap (λ b. u32 b 20) (append-nil x) ∙ e in
    if_lem (λ l. l ≡ x ∷ []) (u32 (x ++ []) 20 == 0) (λ _. ap (λ y. y ∷ []) (append-nil x))
      (λ z. absurd (ground (arith, none_next, z)))

split_response-Chained :
    (xs : List Bytes) → Chained xs → split_response (length xs) (concat xs) ≡ xs
unfolding Chained split_response
split_response-Chained [] h = refl
split_response-Chained (x ∷ []) (e, h) = split_last x e
split_response-Chained (x ∷ y ∷ ys) (e, h, rest) =
    split_step (length (y ∷ ys)) x (concat (y ∷ ys)) e h
    ∙ ap (λ z. x ∷ z) (split_response-Chained (y ∷ ys) rest)

linked-Chained :
    (pdu : Bytes) (pdus : List Bytes) → All Single (pdu ∷ pdus) → Chained (linked (pdu ∷ pdus))
unfolding linked Chained
linked-Chained pdu [] (h, hs) = (h.no_next, h.headed)
linked-Chained pdu (next ∷ []) (h, hs) = (
  next-link pdu h ∙ sym (length-link pdu),
  omega (arith, length-link pdu, h.headed),
  linked-Chained next [] hs,
)
linked-Chained pdu (next ∷ third ∷ pdus) (h, hs) = (
  next-link pdu h ∙ sym (length-link pdu),
  omega (arith, length-link pdu, h.headed),
  linked-Chained next (third ∷ pdus) hs,
)

-- every piece but the last ends at a multiple of 8
abbrev pub Aligned : List Bytes → Type 0
Aligned [] = Unit {0}
Aligned (x ∷ []) = Unit {0}
Aligned (x ∷ y ∷ ys) = (length x % 8 ≡ 0) × Aligned (y ∷ ys)

linked-Aligned : (pdus : List Bytes) → Aligned (linked pdus)
unfolding linked
linked-Aligned [] = tt
linked-Aligned (pdu ∷ []) = tt
linked-Aligned (pdu ∷ next ∷ []) = (aligned pdu, tt)
  where
    aligned : (p : Bytes) → length (link p) % 8 ≡ 0
    aligned p = omega (arith, length-link p)
linked-Aligned (pdu ∷ next ∷ third ∷ pdus) = (aligned pdu, linked-Aligned (next ∷ third ∷ pdus))
  where
    aligned : (p : Bytes) → length (link p) % 8 ≡ 0
    aligned p = omega (arith, length-link p)

-- What is done to a piece before it is sent leaves its length and its NextCommand.
record Keeps (seal : Bytes → Bytes) : Type 0 where
  same_length : (b : Bytes) → smb2_header_size ≤ length b → length (seal b) ≡ length b
  same_next : (b : Bytes) → u32 (seal b) 20 ≡ u32 b 20

module _ (seal : Bytes → Bytes) (k : Keeps seal) where
  map-Chained : (xs : List Bytes) → Chained xs → Chained (map seal xs)
  unfolding Chained
  map-Chained [] h = tt
  map-Chained (x ∷ []) (e, h) = (k.same_next x ∙ e, omega (arith, k.same_length x h, h))
  map-Chained (x ∷ y ∷ ys) (e, h, rest) = (
    k.same_next x ∙ e ∙ sym (k.same_length x h),
    omega (arith, k.same_length x h, h),
    map-Chained (y ∷ ys) rest,
  )

  map-Aligned : (xs : List Bytes) → Chained xs → Aligned xs → Aligned (map seal xs)
  unfolding Chained
  map-Aligned [] h a = tt
  map-Aligned (x ∷ []) h a = tt
  map-Aligned (x ∷ y ∷ ys) (e, h, rest) (a, b) =
      (omega (arith, a, k.same_length x h), map-Aligned (y ∷ ys) rest b)

-- the signature, where the session has a key
abbrev pub seal : Primitives → ℕ → Option Bytes → Bytes → Bytes
seal c dialect none b = b
seal c dialect (some key) b = sign_message c key dialect b

abbrev pub Verifies : Primitives → ℕ → Option Bytes → Bytes → Type 0
Verifies c dialect none b = Unit {0}
Verifies c dialect (some key) b = verify_message c key dialect b ≡ true

module _ (c : Primitives) (sizes : Sizes c) (dialect : ℕ) where
  seal-Keeps : (key : Option Bytes) → Keeps (seal c dialect key)
  seal-Keeps none = record { same_length = λ b h. refl; same_next = λ b. refl }
  seal-Keeps (some key) = record {
    same_length = λ b h. (sign_message_body c sizes key dialect b h).0;
    same_next = next_command-sign_message c key dialect;
  }

  seal-Verifies :
      (key : Option Bytes) (xs : List Bytes)
      → Chained xs
      → All (Verifies c dialect key) (map (seal c dialect key) xs)
  unfolding Chained
  seal-Verifies key [] h = tt
  seal-Verifies none (x ∷ []) h = (tt, tt)
  seal-Verifies none (x ∷ y ∷ ys) (e, h, rest) = (tt, seal-Verifies none (y ∷ ys) rest)
  seal-Verifies (some key) (x ∷ []) (e, h) =
      (verify_message-sign_message c sizes key dialect x h, tt)
  seal-Verifies (some key) (x ∷ y ∷ ys) (e, h, rest) =
      (verify_message-sign_message c sizes key dialect x h, seal-Verifies (some key) (y ∷ ys) rest)

  seal-Carries :
      (key : Option Bytes) (pdu piece : Bytes)
      → smb2_header_size ≤ length piece
      → Carries pdu piece
      → Carries pdu (seal c dialect key piece)
  seal-Carries none pdu piece long h = h
  seal-Carries (some key) pdu piece long h =
      sign_message-Carries c sizes key dialect pdu piece long h

  linked-AllCarry :
      (key : Option Bytes) (pdus : List Bytes)
      → All Single pdus
      → AllCarry pdus (map (seal c dialect key) (linked pdus))
  unfolding linked
  linked-AllCarry key [] h = tt
  linked-AllCarry key (pdu ∷ []) (h, hs) =
      (seal-Carries key pdu pdu h.headed (Carries-refl pdu), tt)
  linked-AllCarry key (pdu ∷ next ∷ pdus) (h, hs) = (
    seal-Carries key pdu (link pdu) (omega (arith, length-link pdu, h.headed))
        (link-Carries pdu h.headed),
    linked-AllCarry key (next ∷ pdus) hs,
  )

  map-seal : (xs : List Bytes) → map (seal c dialect none) xs ≡ xs
  map-seal [] = refl
  map-seal (x ∷ xs) = ap (λ l. x ∷ l) (map-seal xs)

  assembled :
      (key : Option Bytes) (xs : List Bytes)
      → (elim key as (λ _. Option Bytes) [
        | none ↦ some (concat xs)
        | some k ↦ some (concat (map (sign_message c k dialect) xs))
      ])
        ≡ some (concat (map (seal c dialect key) xs))
  assembled none xs = ap (λ l. some (concat l)) (sym (map-seal xs))
  assembled (some k) xs = refl

length-map-linked :
    (f : Bytes → Bytes) (pdus : List Bytes) → length (map f (linked pdus)) ≡ length pdus
unfolding linked
length-map-linked f [] = refl
length-map-linked f (pdu ∷ []) = refl
length-map-linked f (pdu ∷ next ∷ pdus) = ap suc (length-map-linked f (next ∷ pdus))

-- What a client gets that takes a response apart: the linked PDUs, sealed, in the order of the commands,
-- each with what its PDU holds, each but the last ending at a multiple of 8.
pub record Received {W H : Type 0} (env : Env W H) (s : State W H) (pdus : List Bytes)
    : Type 0 where
  pub message : Bytes
  pub sent : assemble_response env s pdus ≡ some message
  pub pieces :
      split_response (length pdus) message
      ≡ map (seal env.prims s.conn.dialect s.conn.sign_key) (linked pdus)
  pub aligned : Aligned (map (seal env.prims s.conn.dialect s.conn.sign_key) (linked pdus))
  pub carried : AllCarry pdus (map (seal env.prims s.conn.dialect s.conn.sign_key) (linked pdus))
  pub verified :
      All
        (Verifies env.prims s.conn.dialect s.conn.sign_key)
        (map (seal env.prims s.conn.dialect s.conn.sign_key) (linked pdus))

-- A client that follows the NextCommand fields of a compound response finds the PDU of each command,
-- linked to the next, in their order: none is lost, and each piece has the bytes of its PDU, before
-- the flags, between NextCommand and the signature, and from the end of the header on, with any
-- padding behind them. Every PDU but the first begins at a multiple of 8. Where the session has a signing key, each PDU is signed by
-- itself, and its signature verifies. The PDUs are as they are built: with a header that names no next
-- command, and below 2^31 bytes.
pub assemble_response-Received :
    {W H : Type 0} (env : Env W H) (s : State W H) (pdu : Bytes) (pdus : List Bytes)
    → Sizes env.prims
    → All Single (pdu ∷ pdus)
    → Received env s (pdu ∷ pdus)
unfolding assemble_response
assemble_response-Received env s pdu pdus sizes h =
    let key = s.conn.sign_key in
    let f = seal env.prims s.conn.dialect key in
    let xs = linked (pdu ∷ pdus) in
    let chained : Chained xs = linked-Chained pdu pdus h in
    let keeps = seal-Keeps env.prims sizes s.conn.dialect key in
    record {
      message = concat (map f xs);
      sent = assembled env.prims sizes s.conn.dialect key xs;
      pieces =
          ap (λ n. split_response n (concat (map f xs))) (sym (length-map-linked f (pdu ∷ pdus)))
          ∙ split_response-Chained (map f xs) (map-Chained f keeps xs chained);
      aligned = map-Aligned f keeps xs chained (linked-Aligned (pdu ∷ pdus));
      carried = linked-AllCarry env.prims sizes s.conn.dialect key (pdu ∷ pdus) h;
      verified = seal-Verifies env.prims sizes s.conn.dialect key xs chained;
    }
