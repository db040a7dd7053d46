-- ===== src/Packet/Utf16.antt =====
-- Names on the wire: `utf16leToString` and `stringToUTF16le` of internal/smb/packet.go. A Go
-- string is the list of its runes; `unicode/utf16` is modelled as Go documents it.
use portable_smb_server.Base.{
  ℕ, ◌+◌, ◌-◌, ◌*◌, ◌/◌, ◌%◌, ◌≤◌, ◌<◌, ◌≡◌, refl, ap, ap₂, ◌∙◌, ◌⊎◌, Bool, ◌&&◌, ◌||◌, List, [],
  ◌∷◌, ◌++◌, arith, ltb, leb, if◌then◌else◌, All,
}
use portable_smb_server.Wire.{Bytes, le16}

abbrev pub Str : Type 0
Str = List ℕ

-- utf16.Encode of one rune; a rune that has no encoding becomes U+FFFD
abbrev encode_rune : ℕ → List ℕ
encode_rune r =
    if ltb r 0xd800 || (leb 0xe000 r && ltb r 0x10000)
    then r ∷ []
    else if leb 0x10000 r && leb r 0x10ffff
    then (0xd800 + (r - 0x10000) / 1024 % 1024) ∷ (0xdc00 + (r - 0x10000) % 1024) ∷ []
    else 0xfffd ∷ []

abbrev encode : Str → List ℕ
encode [] = []
encode (r ∷ s) = encode_rune r ++ encode s

abbrev is_high : ℕ → Bool
is_high u = leb 0xd800 u && ltb u 0xdc00

abbrev is_low : ℕ → Bool
is_low u = leb 0xdc00 u && ltb u 0xe000

-- a unit on its own: itself, or U+FFFD for half of a pair
abbrev lone : ℕ → ℕ
lone u = if is_high u || is_low u then 0xfffd else u

-- utf16.Decode
decode : List ℕ → Str
decode [] = []
decode (u ∷ []) = lone u ∷ []
decode (u ∷ v ∷ us) =
    let pair = ((u - 0xd800) * 1024 + (v - 0xdc00) + 0x10000) ∷ decode us in
    let single = lone u ∷ decode (v ∷ us) in if is_high u && is_low v then pair else single

abbrev units : Bytes → List ℕ
units [] = []
units (lo ∷ []) = []
units (lo ∷ hi ∷ b) = (lo + 256 * hi) ∷ units b

abbrev unit_bytes : List ℕ → Bytes
unit_bytes [] = []
unit_bytes (u ∷ us) = le16 u ++ unit_bytes us

unfoldable pub utf16le_to_string : Bytes → Str
unfolding decode
utf16le_to_string b = decode (units b)

unfoldable pub string_to_utf16le : Str → Bytes
string_to_utf16le s = unit_bytes (encode s)

-- A rune that Unicode has: no half of a surrogate pair.
abbrev pub IsRune : ℕ → Type 0
IsRune r = (r < 0xd800) ⊎ ((0xe000 ≤ r) × (r ≤ 0x10ffff))

abbrev IsUnit : ℕ → Type 0
IsUnit u = u < 65536

encode_rune-IsUnit : (r : ℕ) → All IsUnit (encode_rune r)
encode_rune-IsUnit r = ground arith

units-unit_bytes : (us : List ℕ) → All IsUnit us → units (unit_bytes us) ≡ us
units-unit_bytes [] h = refl
units-unit_bytes (u ∷ us) (hu, hus) = ap₂ ◌∷◌ (omega arith) (units-unit_bytes us hus)

All-append {ℓ} :
    {A : Type 0} (P : A → Type ℓ) (xs ys : List A) → All P xs → All P ys → All P (xs ++ ys)
All-append P [] ys h k = k
All-append P (x ∷ xs) ys (hx, hxs) k = (hx, All-append P xs ys hxs k)

encode-IsUnit : (s : Str) → All IsUnit (encode s)
encode-IsUnit [] = tt
encode-IsUnit (r ∷ s) =
    All-append IsUnit (encode_rune r) (encode s) (encode_rune-IsUnit r) (encode-IsUnit s)

decode_cons :
    (u : ℕ) (us : List ℕ)
    → u < 65536
    → (u < 0xd800) ⊎ (0xe000 ≤ u)
    → decode (u ∷ us) ≡ u ∷ decode us
unfolding decode
decode_cons u [] h k = ground arith
decode_cons u (v ∷ us) h k = ground arith

decode-encode_rune : (r : ℕ) (us : List ℕ) → IsRune r → decode (encode_rune r ++ us) ≡ r ∷ decode us
unfolding decode
decode-encode_rune r us h = ground (arith, decode_cons r us)

decode-encode : (s : Str) → All IsRune s → decode (encode s) ≡ s
unfolding decode
decode-encode [] h = refl
decode-encode (r ∷ s) (hr, hs) =
    decode-encode_rune r (encode s) hr ∙ ap (λ t. r ∷ t) (decode-encode s hs)

-- A name of Unicode runes that goes out on the wire comes back as the same name, whatever planes
-- its runes are in.
pub utf16le_to_string-string_to_utf16le :
    (s : Str) → All IsRune s → utf16le_to_string (string_to_utf16le s) ≡ s
unfolding utf16le_to_string string_to_utf16le
utf16le_to_string-string_to_utf16le s h =
    ap decode (units-unit_bytes (encode s) (encode-IsUnit s)) ∙ decode-encode s h
