-- ===== src/CloseCall/Complete.antt =====
-- What the evidence of `verify_exports` vouches for.
use mathlib.Core.Path.{subst}
use flop_contributions.Prelude.{
  ℕ, ◌≤◌, ◌≡◌, refl, sym, ap, ◌∙◌, Bool, true, Option, none, some, List, [], ◌∷◌, All, arith,
  length, ◌||◌, ◌&&◌, ◌==◌, false, if◌then◌else◌,
}
use flop_contributions.Outcome.{
  ok, err, key_error, attribute_error, or_raise, >>=-eq-ok, guard-eq-ok, some-or_raise,
  ok-injective,
}
use flop_contributions.Text.{Str, Bytes, codes, starts_with}
use flop_contributions.Text.Lines.{push, splitlines, split_from}
use flop_contributions.Json.{Value, str}
use flop_contributions.Platform.{Platform, File, redacted_hash}
use flop_contributions.Table.{find}
use flop_contributions.CloseCall.Envelope.{max_file_bytes, read_regular, text_of}
use flop_contributions.CloseCall.Rooms.{firsts, seconds, ends_with, same_set}
use flop_contributions.CloseCall.Exports.{
  Progress, Reviewed, Room, read_messages, read_room, read_rooms,
}
use flop_contributions.CloseCall.Evidence.{
  latest_of, agree_from, counts_of, Evidence, nothing_read, verify_exports,
}
use flop_contributions.CloseCall.Loop.{Rows}
use flop_contributions.CloseCall.Lines.{read_messages-referee, read_messages-Rows, first_referee}
use flop_contributions.CloseCall.Agree.{agree_from-All}

-- The export of the room: a regular file whose lines are the records from 1 on, of one referee, that
-- commit to the files `hashes`.
pub record IsExport (p : Platform) (reviewed : Reviewed) (paths : List (Str × File))
    (kind room : Str) (referee : Value) (hashes : List Str) (lines : ℕ) : Type 0 where
  pub file : File
  pub supplied : find room paths ≡ some file
  pub regular : file.regular ≡ true
  pub within : length file.content ≤ max_file_bytes
  pub terminated : ends_with (codes "\n") file.content ≡ true
  pub rows : Rows p reviewed kind room referee 1 0 (splitlines file.content) hashes
  pub counted : lines ≡ length (splitlines file.content)

pub read_regular-eq-ok :
    (file : File) (raw : Bytes)
    → read_regular file ≡ ok raw
    → (file.regular ≡ true) × (length file.content ≤ max_file_bytes) × (raw ≡ file.content)
unfolding read_regular
read_regular-eq-ok file raw h = ground arith

abbrev IsCons : List Bytes → Type 0
IsCons ls = (line : Bytes) × (lines : List Bytes) × (ls ≡ line ∷ lines)

push-IsCons : (c : ℕ) (ls : List Bytes) → IsCons (push c ls)
push-IsCons c [] = (c ∷ [], [], refl)
push-IsCons c (l ∷ ls) = (c ∷ l, ls, refl)

-- A terminated text has a line.
splitlines-IsCons : (raw : Bytes) → ends_with (codes "\n") raw ≡ true → IsCons (splitlines raw)
unfolding ends_with starts_with splitlines split_from
splitlines-IsCons [] h = cc
splitlines-IsCons (c ∷ s) h = chosen (c == 10) (c == 10 || c == 13) (split_from (c == 13) s)
  where
    chosen :
        (a b : Bool) (rest : List Bytes)
        → IsCons (if a && false then rest else if b then [] ∷ rest else push c rest)
    chosen true true rest = ([], rest, refl)
    chosen true false rest = push-IsCons c rest
    chosen false true rest = ([], rest, refl)
    chosen false false rest = push-IsCons c rest

module _ (p : Platform) (reviewed : Reviewed) (paths : List (Str × File)) where
  read_room-IsExport :
      (kind room : Str) (s : Progress) (one : Progress × ℕ)
      → read_room p reviewed paths kind room s ≡ ok one
      → ((r : Value) → s.referee ≡ some r → one.0.referee ≡ some r)
        × (r : Value) × (one.0.referee ≡ some r)
        × IsExport p reviewed paths kind room r one.0.room_sweeps one.1
  unfolding read_room
  read_room-IsExport kind room s one h =
      let (file, found, h₁) =
        >>=-eq-ok (elim (find room paths) [ none ↦ err key_error | some file ↦ ok file ]) _ h in
      let (raw, opened, h₂) = >>=-eq-ok (read_regular file) _ h₁ in
      let (ended, h₃) = guard-eq-ok (ends_with (codes "\n") raw) _ _ h₂ in
      let (last, ran, h₄) =
        >>=-eq-ok
          (read_messages p reviewed kind room (splitlines raw)
            (record s { previous_seq = 0; room_sweeps = [] }))
          _ h₃ in
      let (regular, within, same) = read_regular-eq-ok file raw opened in
      let (line, lines, cut) = splitlines-IsCons raw ended in
      let (r, e) =
        first_referee p reviewed kind room lines line
          (record s { previous_seq = 0; room_sweeps = [] }) last
          (ap
              (λ ls.
                read_messages p reviewed kind room ls
                  (record s { previous_seq = 0; room_sweeps = [] }))
              (sym cut)
            ∙ ran) in
      let (hs, rows, grown) =
        read_messages-Rows p reviewed kind room (splitlines raw)
          (record s { previous_seq = 0; room_sweeps = [] }) last r ran e in
      subst
        (λ (o : Progress × ℕ).
          ((r : Value) → s.referee ≡ some r → o.0.referee ≡ some r)
          × (r : Value) × (o.0.referee ≡ some r)
          × IsExport p reviewed paths kind room r o.0.room_sweeps o.1)
        (ok-injective h₄)
        (
          λ r e.
              read_messages-referee p reviewed kind room (splitlines raw)
                (record s { previous_seq = 0; room_sweeps = [] }) last r ran e,
          r,
          e,
          record {
            file = file;
            supplied = looked (find room paths) file found;
            regular = regular;
            within = within;
            terminated = subst (λ b. ends_with (codes "\n") b ≡ true) same ended;
            rows =
                subst (λ b. Rows p reviewed kind room r 1 0 (splitlines b) last.room_sweeps) same
                  (subst (Rows p reviewed kind room r 1 0 (splitlines raw)) (sym grown) rows);
            counted = ap (λ b. length (splitlines b)) same;
          },
        )
    where
      looked :
          (o : Option File) (f : File)
          → elim o [ none ↦ err key_error | some file ↦ ok file ] ≡ ok f
          → o ≡ some f
      looked none f e = cc
      looked (some g) f e = ap some (ok-injective e)

  -- The rooms of the roles, in their order.
  abbrev pub AllExports : Value → List (Str × Str) → List Room → Type 0
  AllExports r [] [] = Unit
  AllExports r [] (q ∷ qs) = ⊥
  AllExports r (role ∷ roles) [] = ⊥
  AllExports r ((kind, room) ∷ roles) ((name, hashes, lines) ∷ rooms) =
      (name ≡ room) × IsExport p reviewed paths kind room r hashes lines × AllExports r roles rooms

  read_rooms-AllExports :
      (roles : List (Str × Str)) (s : Progress) (result : Progress × List Room)
      → read_rooms p reviewed paths roles s ≡ ok result
      → ((r : Value) → s.referee ≡ some r → result.0.referee ≡ some r)
        × ((r : Value) → result.0.referee ≡ some r → AllExports r roles result.1)
  unfolding read_rooms
  read_rooms-AllExports [] s result h =
      subst
        (λ (o : Progress × List Room).
          ((r : Value) → s.referee ≡ some r → o.0.referee ≡ some r)
          × ((r : Value) → o.0.referee ≡ some r → AllExports r [] o.1))
        (ok-injective h) (λ r e. e, λ r e. tt)
  read_rooms-AllExports ((kind, room) ∷ roles) s result h =
      let (one, ran, h₁) = >>=-eq-ok (read_room p reviewed paths kind room s) _ h in
      let (more, rest, h₂) = >>=-eq-ok (read_rooms p reviewed paths roles one.0) _ h₁ in
      let (keeps, q, told, exported) = read_room-IsExport kind room s one ran in
      let (keeps_rest, exports_rest) = read_rooms-AllExports roles one.0 more rest in
      subst
        (λ (o : Progress × List Room).
          ((r : Value) → s.referee ≡ some r → o.0.referee ≡ some r)
          × ((r : Value) → o.0.referee ≡ some r → AllExports r ((kind, room) ∷ roles) o.1))
        (ok-injective h₂)
        (
          λ r e. keeps_rest r (keeps r e),
          λ r e.
              let same : q ≡ r = cc (sym (keeps_rest q told) ∙ e) in
              (
                refl,
                subst (λ x. IsExport p reviewed paths kind room x one.0.room_sweeps one.1) same
                    exported,
                exports_rest r e,
              ),
        )

-- The rooms of the contest, as `verify_exports` reads them.
pub record IsComplete (p : Platform) (paths : List (Str × File)) (reviewed : Reviewed)
    (evidence : Evidence) : Type 0 where
  pub referee : Str
  pub hashes : List Str
  pub rooms : List Room
  pub named : redacted_hash p referee ≡ ok evidence.referee_did_sha256
  pub supplied : same_set (firsts paths) (seconds reviewed.roles) ≡ true
  pub exports : AllExports p reviewed paths (str referee) reviewed.roles rooms
  pub agreed : All (λ (room : Room). room.1 ≡ hashes) rooms
  pub latest : length hashes ≡ evidence.latest_sweep
  pub counts : evidence.record_counts ≡ counts_of rooms

text_of-some : (v : Value) (s : Str) → text_of v ≡ some s → v ≡ str s
text_of-some (str t) s h = ap str (cc h)
text_of-some _ s h = cc

-- Evidence is returned only where exactly the rooms of the contest were supplied, and the export of
-- each is a regular file within the limit, whose lines are records numbered from 1 without gap, all
-- signed by one referee for the room, of the types of its kind; every record of the type seed is the first
-- of the price room and names the contest, the manifest and the rooms, and every record of the type final
-- is the last of the price room; all other records are sweeps, numbered from 1 without gap, and every
-- room commits to the same files, one for each sweep up to the reported one.
pub verify_exports-IsComplete :
    (p : Platform) (paths : List (Str × File)) (reviewed : Reviewed) (evidence : Evidence)
    → verify_exports p paths reviewed ≡ ok evidence
    → IsComplete p paths reviewed evidence
unfolding verify_exports
verify_exports-IsComplete p paths reviewed evidence h =
    let (supplied, h₁) = guard-eq-ok (same_set (firsts paths) (seconds reviewed.roles)) _ _ h in
    let (result, ran, h₂) =
      >>=-eq-ok (read_rooms p reviewed paths reviewed.roles nothing_read) _ h₁ in
    let (seeded, h₃) = guard-eq-ok result.0.seeded _ _ h₂ in
    let (referee, a, h₄) = >>=-eq-ok (or_raise result.0.referee _) _ h₃ in
    let (latest, b, h₅) = >>=-eq-ok (or_raise (latest_of result.1) _) _ h₄ in
    let (u, agreed, h₆) = >>=-eq-ok (agree_from latest 0 result.1) _ h₅ in
    let (did, c, h₇) =
      >>=-eq-ok (elim (text_of referee) [ none ↦ err attribute_error | some did ↦ ok did ]) _ h₆ in
    let (hash, hashed, h₈) = >>=-eq-ok (redacted_hash p did) _ h₇ in
    let (hashes, long, same) =
      agree_from-All result.1 latest (some-or_raise (latest_of result.1) _ b) agreed in
    let text : referee ≡ str did = text_of-some referee did (told (text_of referee) did c) in
    subst (IsComplete p paths reviewed) (ok-injective h₈) (record {
      referee = did;
      hashes = hashes;
      rooms = result.1;
      named = hashed;
      supplied = supplied;
      exports =
          (read_rooms-AllExports p reviewed paths reviewed.roles nothing_read result ran).1
            (str did) (some-or_raise result.0.referee _ a ∙ ap some text);
      agreed = same;
      latest = long;
      counts = refl;
    })
  where
    told :
        (o : Option Str) (s : Str)
        → elim o [ none ↦ err attribute_error | some did ↦ ok did ] ≡ ok s
        → o ≡ some s
    told none s e = cc
    told (some t) s e = ap some (ok-injective e)
