-- ===== src/CloseCall/Launch.antt =====
-- The launch seed without which `verify_exports` returns nothing.
use mathlib.Core.Path.{subst}
use flop_contributions.Prelude.{
  ℕ, ◌≡◌, ◌⊎◌, ap, ◌∙◌, inl, inr, true, Option, none, some, List, [], ◌∷◌,
}
use flop_contributions.Outcome.{ok, err, key_error, >>=-eq-ok, guard-eq-ok, ok-injective}
use flop_contributions.Text.{Str, codes}
use flop_contributions.Text.Lines.{splitlines}
use flop_contributions.Platform.{Platform, File}
use flop_contributions.Table.{find}
use flop_contributions.CloseCall.Envelope.{read_regular}
use flop_contributions.CloseCall.Rooms.{firsts, seconds, ends_with, same_set}
use flop_contributions.CloseCall.Exports.{
  Progress, Reviewed, Room, read_messages, read_room, read_rooms,
}
use flop_contributions.CloseCall.Evidence.{Evidence, nothing_read, verify_exports}
use flop_contributions.CloseCall.Lines.{HasSeed, read_messages-HasSeed}
use flop_contributions.CloseCall.Complete.{read_regular-eq-ok}

module _ (p : Platform) (reviewed : Reviewed) (paths : List (Str × File)) where
  -- The export of the room holds the launch seed.
  abbrev pub RoomSeed : Str → Str → Type 0
  RoomSeed kind room =
      (file : File) × (find room paths ≡ some file)
      × HasSeed p reviewed kind room (splitlines file.content)

  abbrev pub AnySeed : List (Str × Str) → Type 0
  AnySeed [] = ⊥
  AnySeed ((kind, room) ∷ roles) = RoomSeed kind room ⊎ AnySeed roles

  read_room-RoomSeed :
      (kind room : Str) (s : Progress) (one : Progress × ℕ)
      → read_room p reviewed paths kind room s ≡ ok one
      → one.0.seeded ≡ true
      → (s.seeded ≡ true) ⊎ RoomSeed kind room
  unfolding read_room
  read_room-RoomSeed kind room s one h e =
      let (file, found, h₁) =
        >>=-eq-ok (elim (find room paths) [ none ↦ err key_error | some file ↦ ok file ]) _ h in
      let (raw, opened, h₂) = >>=-eq-ok (read_regular file) _ h₁ in
      let (ended, h₃) = guard-eq-ok (ends_with (codes "\n") raw) _ _ h₂ in
      let (last, ran, h₄) =
        >>=-eq-ok
          (read_messages p reviewed kind room (splitlines raw)
            (record s { previous_seq = 0; room_sweeps = [] }))
          _ h₃ in
      let same = (read_regular-eq-ok file raw opened).2 in
      let seeded : last.seeded ≡ true =
        ap (λ (o : Progress × ℕ). o.0.seeded) (ok-injective h₄) ∙ e in
      elim (read_messages-HasSeed p reviewed kind room (splitlines raw)
        (record s { previous_seq = 0; room_sweeps = [] }) last ran seeded) [
          | inl old ↦ inl old
          | inr new ↦ inr (
            file,
            looked (find room paths) file found,
            subst (λ b. HasSeed p reviewed kind room (splitlines b)) same new,
          )
        ]
    where
      looked :
          (o : Option File) (f : File)
          → elim o [ none ↦ err key_error | some file ↦ ok file ] ≡ ok f
          → o ≡ some f
      looked none f e = cc
      looked (some g) f e = ap some (ok-injective e)

  pub read_rooms-AnySeed :
      (roles : List (Str × Str)) (s : Progress) (result : Progress × List Room)
      → read_rooms p reviewed paths roles s ≡ ok result
      → result.0.seeded ≡ true
      → (s.seeded ≡ true) ⊎ AnySeed roles
  unfolding read_rooms
  read_rooms-AnySeed [] s result h e =
      inl (ap (λ (o : Progress × List Room). o.0.seeded) (ok-injective h) ∙ e)
  read_rooms-AnySeed ((kind, room) ∷ roles) s result h e =
      let (one, ran, h₁) = >>=-eq-ok (read_room p reviewed paths kind room s) _ h in
      let (more, rest, h₂) = >>=-eq-ok (read_rooms p reviewed paths roles one.0) _ h₁ in
      let seeded : more.0.seeded ≡ true =
        ap (λ (o : Progress × List Room). o.0.seeded) (ok-injective h₂) ∙ e in
      elim (read_rooms-AnySeed roles one.0 more rest seeded) [
        | inr later ↦ inr (inr later)
        | inl now ↦ elim (read_room-RoomSeed kind room s one ran now) [
          | inl old ↦ inl old
          | inr new ↦ inr (inl new)
        ]
      ]

-- Evidence is returned only where one of the exports holds the launch seed: a signed record of the price
-- room, with the number 1, which names the contest, the digest of the manifest and the rooms of the
-- contest.
pub verify_exports-AnySeed :
    (p : Platform) (paths : List (Str × File)) (reviewed : Reviewed) (evidence : Evidence)
    → verify_exports p paths reviewed ≡ ok evidence
    → AnySeed p reviewed paths reviewed.roles
unfolding verify_exports
verify_exports-AnySeed p paths reviewed evidence h =
    let (supplied, h₁) = guard-eq-ok (same_set (firsts paths) (seconds reviewed.roles)) _ _ h in
    let (result, ran, h₂) =
      >>=-eq-ok (read_rooms p reviewed paths reviewed.roles nothing_read) _ h₁ in
    let (seeded, h₃) = guard-eq-ok result.0.seeded _ _ h₂ in
    elim (read_rooms-AnySeed p reviewed paths reviewed.roles nothing_read result ran seeded) [
      | inl never ↦ cc
      | inr new ↦ new
    ]
