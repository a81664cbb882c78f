-- ===== src/Text/Pure.antt =====
-- `PurePosixPath(name)`, as far as the scripts ask it whether a name is safe.
use flop_contributions.Prelude.{ℕ, Bool, not, ◌&&◌, ◌||◌, List, [], ◌∷◌, ◌++◌, ◌==◌, if◌then◌else◌}
use flop_contributions.Text.{Str, codes, eq_str, mem_str, starts_with}

abbrev push : ℕ → List Str → List Str
push c [] = (c ∷ []) ∷ []
push c (part ∷ parts) = (c ∷ part) ∷ parts

-- The pieces between the slashes; there is always one.
unfoldable pub split_slash : Str → List Str
split_slash [] = [] ∷ []
split_slash (c ∷ s) = let rest = split_slash s in if c == b'/' then [] ∷ rest else push c rest

-- Empty pieces and single dots are no parts.
unfoldable pub real_parts : List Str → List Str
unfolding eq_str
real_parts [] = []
real_parts (part ∷ parts) =
    let rest = real_parts parts in
    if eq_str part [] || eq_str part (codes ".") then rest else part ∷ rest

unfoldable pub join_slash : List Str → Str
join_slash [] = []
join_slash (part ∷ []) = part
join_slash (part ∷ q ∷ parts) = part ++ codes "/" ++ join_slash (q ∷ parts)

-- `str(pure)` of a relative path
unfoldable pub printed : List Str → Str
unfolding join_slash
printed [] = codes "."
printed (part ∷ parts) = join_slash (part ∷ parts)

-- `not (pure.is_absolute() or ".." in pure.parts or str(pure) != name)`
unfoldable pub is_safe_path : Str → Bool
unfolding starts_with split_slash real_parts printed mem_str eq_str
is_safe_path name =
    not (starts_with (codes "/") name)
    && not (mem_str (codes "..") (real_parts (split_slash name)))
    && eq_str (printed (real_parts (split_slash name))) name
