-- ===== src/CloseCall/Classified.antt =====
-- What `classify_rooms` and the whole of the Close Call verifier return.
use mathlib.Core.Path.{subst}
use flop_contributions.Prelude.{
  ◌≡◌, refl, sym, true, some, List, [], ◌∷◌, ◌++◌, All, Bool-cases, inl, inr,
}
use flop_contributions.Outcome.{ok, or_raise, >>=-eq-ok, guard-eq-ok, some-or_raise, ok-injective}
use flop_contributions.Text.{Str, codes, eq_str}
use flop_contributions.Text.Laws.{eq_str→≡}
use flop_contributions.Text.Membership.{In}
use flop_contributions.Platform.{Platform, File}
use flop_contributions.Table.{put}
use flop_contributions.CloseCall.Envelope.{is_hash}
use flop_contributions.CloseCall.Rooms.{
  room_types, firsts, ends_with, matches, only, classify_from, same_set, classify_rooms,
}
use flop_contributions.CloseCall.Evidence.{Evidence}
use flop_contributions.CloseCall.Package.{
  Package, distinct_names, verify_package, verify_close_call,
}
use flop_contributions.CloseCall.Complete.{IsComplete, verify_exports-IsComplete}
use flop_contributions.CloseCall.Verified.{IsPackage, verify_package-IsPackage}

-- A role is a room of the contest and the kind whose suffix its name has.
abbrev pub IsRole : List Str → Str × Str → Type 0
IsRole names (kind, room) = In room names × (ends_with (codes "-" ++ kind) room ≡ true)

matches-All :
    (room : Str) (kinds : List Str)
    → All (λ k. ends_with (codes "-" ++ k) room ≡ true) (matches room kinds)
unfolding matches
matches-All room [] = tt
matches-All room (kind ∷ kinds) = elim (Bool-cases (ends_with (codes "-" ++ kind) room)) [
  | inl e ↦ rw e (e, matches-All room kinds)
  | inr e ↦ rw e (matches-All room kinds)
]

only-All : (P : Str → Type 0) (ms : List Str) (kind : Str) → only ms ≡ some kind → All P ms → P kind
only-All P [] kind h all = cc
only-All P (k ∷ []) kind h all = subst P (cc h) all.0
only-All P (k ∷ j ∷ ms) kind h all = cc

put-All :
    (P : Str × Str → Type 0) (k a : Str) (d : List (Str × Str))
    → P (k, a)
    → All P d
    → All P (put k a d)
unfolding put
put-All P k a [] here all = (here, tt)
put-All P k a ((j, b) ∷ d) here (one, more) = elim (Bool-cases (eq_str j k)) [
  | inl e ↦ rw e (subst (λ i. P (i, a)) (sym (eq_str→≡ j k e)) here, more)
  | inr e ↦ rw e (one, put-All P k a d here more)
]

classify_from-All :
    (names rooms : List Str) (classified roles : List (Str × Str))
    → ((room : Str) → In room rooms → In room names)
    → All (IsRole names) classified
    → classify_from classified rooms ≡ ok roles
    → All (IsRole names) roles
unfolding classify_from
classify_from-All names [] classified roles inside all h =
    subst (All (IsRole names)) (ok-injective h) all
classify_from-All names (room ∷ rooms) classified roles inside all h =
    let (kind, a, h₁) = >>=-eq-ok (or_raise (only (matches room (firsts room_types))) _) _ h in
    let ended : ends_with (codes "-" ++ kind) room ≡ true =
      only-All (λ k. ends_with (codes "-" ++ k) room ≡ true) (matches room (firsts room_types)) kind
        (some-or_raise _ _ a) (matches-All room (firsts room_types)) in
    classify_from-All names rooms (put kind room classified) roles (λ r m. inside r (inr m))
      (put-All (IsRole names) kind room classified (inside room (inl refl), ended) all) h₁

-- Where the rooms are classified, each kind has a room of the list whose name ends with it.
pub classify_rooms-All :
    (names : List Str) (roles : List (Str × Str))
    → classify_rooms names ≡ ok roles
    → All (IsRole names) roles × (same_set (firsts roles) (firsts room_types) ≡ true)
unfolding classify_rooms
classify_rooms-All names roles h =
    let (classified, a, h₁) = >>=-eq-ok (classify_from [] names) _ h in
    let (complete, h₂) = guard-eq-ok (same_set (firsts classified) (firsts room_types)) _ _ h₁ in
    subst
      (λ (rs : List (Str × Str)).
        All (IsRole names) rs × (same_set (firsts rs) (firsts room_types) ≡ true))
      (ok-injective h₂) (classify_from-All names names [] classified (λ r m. m) tt a, complete)

-- The contest behind a report.
pub record IsContest (p : Platform) (folder : Package) (expected_hash contest_id : Str)
    (exports : List (Str × File)) (evidence : Evidence) : Type 0 where
  pub names : List Str
  pub roles : List (Str × Str)
  pub packaged : IsPackage p folder expected_hash contest_id names
  pub classified : All (IsRole names) roles
  pub all_kinds : same_set (firsts roles) (firsts room_types) ≡ true
  pub complete :
      IsComplete p exports
        (record { expected_hash = expected_hash; contest_id = contest_id; roles = roles })
        evidence

-- The report of the Close Call verifier is returned only where the manifest of the package has the
-- reviewed digest and every file that it lists has its size and digest, where each kind of room has a room
-- among those that the contest config names for the referee, with a name that ends with the kind, and
-- where the evidence is that of the complete exports of those rooms, for this manifest and contest.
pub verify_close_call-IsContest :
    (p : Platform) (folder : Package) (expected_hash contest_id : Str) (exports : List (Str × File))
    (evidence : Evidence)
    → verify_close_call p folder expected_hash contest_id exports ≡ ok evidence
    → IsContest p folder expected_hash contest_id exports evidence
unfolding verify_close_call
verify_close_call-IsContest p folder expected_hash contest_id exports evidence h =
    let (a, h₁) = guard-eq-ok (is_hash expected_hash) _ _ h in
    let (b, h₂) = guard-eq-ok folder.is_real _ _ h₁ in
    let (names, packaged, h₃) = >>=-eq-ok (verify_package p folder expected_hash contest_id) _ h₂ in
    let (c, h₄) = guard-eq-ok (distinct_names (firsts exports)) _ _ h₃ in
    let (roles, classified, h₅) = >>=-eq-ok (classify_rooms names) _ h₄ in
    let (all, kinds) = classify_rooms-All names roles classified in
    record {
      names = names;
      roles = roles;
      packaged = verify_package-IsPackage p folder expected_hash contest_id names packaged;
      classified = all;
      all_kinds = kinds;
      complete =
          verify_exports-IsComplete p exports
            (record { expected_hash = expected_hash; contest_id = contest_id; roles = roles })
            evidence h₅;
    }
