-- ===== src/CloseCall/Rooms.antt =====
-- `ROOM_TYPES` and `classify_rooms`: the five kinds of referee rooms.
use mathlib.Core.List.{reverse}
use flop_contributions.Prelude.{
  Bool, ◌&&◌, Option, none, some, List, [], ◌∷◌, ◌++◌, all, if◌then◌else◌,
}
use flop_contributions.Outcome.{Outcome, ok, ◌>>=◌, ◌>>◌, guard, or_raise}
use flop_contributions.Text.{Str, codes, mem_str, starts_with}
use flop_contributions.Table.{put}

-- The kinds, with the types of the messages of a room.
unfoldable pub room_types : List (Str × List Str)
room_types =
    (codes "price", codes "seed" ∷ codes "price" ∷ codes "final" ∷ [])
    ∷ (codes "flow", codes "flow" ∷ [])
    ∷ (codes "state", codes "state" ∷ [])
    ∷ (codes "positions", codes "positions" ∷ [])
    ∷ (codes "pnl", codes "pnl" ∷ [])
    ∷ []

abbrev pub firsts {ℓ} : {A : Type ℓ} → List (Str × A) → List Str
firsts [] = []
firsts ((k, a) ∷ d) = k ∷ firsts d

abbrev pub seconds : List (Str × Str) → List Str
seconds [] = []
seconds ((k, v) ∷ d) = v ∷ seconds d

-- `s.endswith(suffix)`
unfoldable pub ends_with : Str → Str → Bool
unfolding starts_with
ends_with suffix s = starts_with (reverse suffix) (reverse s)

-- The kinds whose suffix the name has.
unfoldable pub matches : Str → List Str → List Str
unfolding ends_with
matches room [] = []
matches room (kind ∷ kinds) =
    let rest = matches room kinds in
    if ends_with (codes "-" ++ kind) room then kind ∷ rest else rest

abbrev pub only : List Str → Option Str
only (kind ∷ []) = some kind
only _ = none

unfoldable pub classify_from : List (Str × Str) → List Str → Outcome (List (Str × Str))
unfolding matches room_types put
classify_from classified [] = ok classified
classify_from classified (room ∷ rooms) = do
  kind ← or_raise (only (matches room (firsts room_types))) "cannot classify referee room"
  classify_from (put kind room classified) rooms

-- `set(a) == set(b)`
unfoldable pub same_set : List Str → List Str → Bool
unfolding mem_str
same_set a b = all (λ s. mem_str s b) a && all (λ s. mem_str s a) b

unfoldable pub classify_rooms : List Str → Outcome (List (Str × Str))
unfolding classify_from same_set room_types
classify_rooms rooms = do
  classified ← classify_from [] rooms
  guard (same_set (firsts classified) (firsts room_types)) "referee room roles are incomplete"
  ok classified
