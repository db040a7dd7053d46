-- ===== src/Examples/CommandLine.antt =====
-- The command line of main.go, with three folders of which two have one base name.
use portable_smb_server.Base.{ℕ, List, ◌≡◌, refl, some, [], ◌∷◌}
use portable_smb_server.Path.{slash, backslash, share_from_path}
use portable_smb_server.CommandLine.{
  Paths, ShareArg, folder, share, made, fatal, named_twice, parse_flags, flatten_name, flatten_host,
  base_name, assign_share_names, set_flag, assign_loop, assigned, has_duplicate, is_taken,
}
use portable_smb_server.CommandLine.Names.{Settled, assign_share_names-Settled}
use portable_smb_server.CommandLine.Reach.{share_from_path-flatten_name}
use portable_smb_server.Examples.Backend.{ascii}

-- paths that are absolute, and whose base is their last letter
abbrev unix : Paths
unix = record { abs = some; base = last; separator = slash; host_of = some }
  where
    last : List ℕ → List ℕ
    last [] = []
    last (c ∷ []) = c ∷ []
    last (c ∷ d ∷ s) = last (d ∷ s)

abbrev at_a : ShareArg
at_a = record { folder = slash ∷ b'A' ∷ slash ∷ b'd' ∷ []; vfs = []; name = [] }

abbrev at_b : ShareArg
at_b = record { folder = slash ∷ b'b' ∷ slash ∷ b'd' ∷ []; vfs = []; name = [] }

parsed :
    parse_flags [] (folder (b'x' ∷ []) ∷ share (b'y' ∷ []) ∷ share (b'z' ∷ []) ∷ [])
    ≡ fatal named_twice
unfolding parse_flags set_flag
parsed = refl

settled :
    assign_share_names ascii unix (at_a ∷ at_b ∷ [])
    ≡ made (record at_a { name = b'A' ∷ b'_' ∷ b'd' ∷ [] } ∷ record at_b { name = b'd' ∷ [] } ∷ [])
unfolding assign_share_names assign_loop assigned base_name flatten_name has_duplicate is_taken
settled = refl

assign_share_names-Settled_example :
    Settled ascii unix (at_a ∷ at_b ∷ []) (assign_share_names ascii unix (at_a ∷ at_b ∷ []))
assign_share_names-Settled_example = assign_share_names-Settled ascii unix (at_a ∷ at_b ∷ [])

share_from_path-flatten_name_example :
    (share_from_path (b's' ∷ backslash ∷ flatten_name ascii unix at_a.folder)
      ≡ flatten_name ascii unix at_a.folder)
    × (share_from_path (b's' ∷ backslash ∷ flatten_host ascii unix at_b.folder)
        ≡ flatten_host ascii unix at_b.folder)
share_from_path-flatten_name_example =
    share_from_path-flatten_name ascii unix (b's' ∷ []) at_a.folder at_b.folder
