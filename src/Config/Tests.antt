-- ===== src/Config/Tests.antt =====
-- A file with two settings, and the theorem at it.
use pty_mcp.Base.{◌≡◌, refl, inl, inr, [], ◌∷◌, ◌++◌, map, arith}
use pty_mcp.Text.{Lacks, codes, cut_prefix}
use pty_mcp.Text.Space.{trim_space}
use pty_mcp.Config.{Settings, cut_at, is_comment, malformed, read_lines}
use pty_mcp.Config.Roundtrip.{line_of, IsPlain, ArePlain, kept, read_lines-line_of}

abbrev settings : Settings
settings = (codes "a", codes "x") ∷ (codes "b", codes "y") ∷ []

a-IsPlain : IsPlain (codes "a", codes "x")
unfolding trim_space Lacks is_comment cut_prefix
a-IsPlain = record {
  trimmed = refl;
  trimmed_key = refl;
  trimmed_value = refl;
  no_equals = ((λ e. absurd (omega arith)), tt);
  no_comment = refl;
}

b-IsPlain : IsPlain (codes "b", codes "y")
unfolding trim_space Lacks is_comment cut_prefix
b-IsPlain = record {
  trimmed = refl;
  trimmed_key = refl;
  trimmed_value = refl;
  no_equals = ((λ e. absurd (omega arith)), tt);
  no_comment = refl;
}

read_lines-line_of_example :
    (read_lines 1 [] (map line_of settings) ≡ inr (kept settings []))
    × (read_lines 1 [] (map line_of settings ++ codes "oops" ∷ [])
        ≡ inl (malformed 3 (trim_space (codes "oops"))))
unfolding trim_space is_comment cut_prefix cut_at ArePlain
read_lines-line_of_example =
    read_lines-line_of settings (codes "oops") [] (a-IsPlain, (b-IsPlain, tt)) refl refl
