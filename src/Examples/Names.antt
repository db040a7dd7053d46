-- ===== src/Examples/Names.antt =====
-- The theorems on names, paths and patterns, at concrete names.
use portable_smb_server.Base.{true, ◌≡◌, ◌↔◌, refl, List, [], ◌∷◌, All, arith}
use portable_smb_server.Packet.Utf16.{
  Str, utf16le_to_string, string_to_utf16le, utf16le_to_string-string_to_utf16le,
}
use portable_smb_server.Path.{join, split, clean_elements, clean_rooted, name_to_path}
use portable_smb_server.Path.Confined.{IsElement, name_to_path_confined}
use portable_smb_server.Pattern.{wildcard_loop, wildcard_match, advance, only_stars, enough, start}
use portable_smb_server.Pattern.Matches.{Matches}
use portable_smb_server.Pattern.Wildcard.{Decides, wildcard_loop-Decides, wildcard_match_iff}

-- "a\..\..\b"
abbrev climbing : Str
climbing = b'a' ∷ 92 ∷ 46 ∷ 46 ∷ 92 ∷ 46 ∷ 46 ∷ 92 ∷ b'b' ∷ []

climbing_test : name_to_path climbing ≡ b'b' ∷ []
unfolding name_to_path clean_rooted join clean_elements split
climbing_test = refl

name_to_path_confined_example :
    (ws : List Str) × (name_to_path climbing ≡ join ws) × All IsElement ws
name_to_path_confined_example = name_to_path_confined climbing

-- a letter of the basic plane and a rune behind it
abbrev two_planes : Str
two_planes = 0x20ac ∷ 0x1f600 ∷ []

utf16le_to_string-string_to_utf16le_example :
    utf16le_to_string (string_to_utf16le two_planes) ≡ two_planes
utf16le_to_string-string_to_utf16le_example =
    utf16le_to_string-string_to_utf16le two_planes (ground arith)

-- "*.t" and "a.t"
abbrev pattern : Str
pattern = b'*' ∷ b'.' ∷ b't' ∷ []

abbrev name : Str
name = b'a' ∷ b'.' ∷ b't' ∷ []

wildcard_test : wildcard_match pattern name ≡ true
unfolding wildcard_match wildcard_loop advance only_stars
wildcard_test = refl

wildcard_loop-Decides_example :
    Decides (Matches pattern name) name (wildcard_loop (enough pattern name) pattern name start)
wildcard_loop-Decides_example = wildcard_loop-Decides pattern name

wildcard_match_iff_example : (wildcard_match pattern name ≡ true) ↔ Matches pattern name
wildcard_match_iff_example = wildcard_match_iff pattern name (ground arith)
