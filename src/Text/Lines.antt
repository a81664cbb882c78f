-- ===== src/Text/Lines.antt =====
-- `raw.splitlines()` of bytes: a line ends at "\n", "\r" or "\r\n".
use flop_contributions.Prelude.{ℕ, Bool, false, ◌&&◌, ◌||◌, List, [], ◌∷◌, ◌==◌, if◌then◌else◌}
use flop_contributions.Text.{Bytes}

abbrev pub push : ℕ → List Bytes → List Bytes
push c [] = (c ∷ []) ∷ []
push c (l ∷ ls) = (c ∷ l) ∷ ls

-- `after_cr`: the byte in front was "\r".
unfoldable pub split_from : Bool → Bytes → List Bytes
split_from after_cr [] = []
split_from after_cr (c ∷ s) =
    let rest = split_from (c == 13) s in
    if c == 10 && after_cr then rest else if c == 10 || c == 13 then [] ∷ rest else push c rest

unfoldable pub splitlines : Bytes → List Bytes
unfolding split_from
splitlines = split_from false
