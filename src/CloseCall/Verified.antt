-- ===== src/CloseCall/Verified.antt =====
-- What the report of `verify_close_call` vouches for.
use mathlib.Core.Path.{subst}
use flop_contributions.Prelude.{
  suc, ◌≡◌, refl, sym, ap, ◌∙◌, pos, true, some, List, [], ◌∷◌, arith, length, All, ◌==◌, ==_iff,
}
use flop_contributions.Outcome.{ok, or_raise, >>=-eq-ok, guard-eq-ok, some-or_raise, ok-injective}
use flop_contributions.Text.{Str, codes, eq_str, is_room}
use flop_contributions.Text.Laws.{eq_str→≡}
use flop_contributions.Text.Membership.{Distinct}
use flop_contributions.Json.{
  Value, Items, elements, arr, field, str, obj, Fields, has_key, is_str, is_int,
}
use flop_contributions.Platform.{Platform}
use flop_contributions.Tclk.Transcript.{value_at}
use flop_contributions.CloseCall.Envelope.{list_of, load_json, read_regular}
use flop_contributions.CloseCall.Rooms.{room_types, firsts}
use flop_contributions.CloseCall.Package.{
  Package, some_files, is_listed, check_manifest, check_artifacts, room_name, room_names,
  distinct_names, referee_list, check_contest, verify_package,
}
use flop_contributions.CloseCall.Bound.{
  IsArtifact, AllArtifacts, check_artifacts-AllArtifacts, listed-IsArtifact,
  distinct_names-Distinct, read_regular-eq-ok,
}

-- The values are the texts.
abbrev pub AreTexts : List Value → List Str → Type 0
AreTexts [] [] = Unit
AreTexts [] (s ∷ ss) = ⊥
AreTexts (v ∷ vs) [] = ⊥
AreTexts (v ∷ vs) (s ∷ ss) = (v ≡ str s) × AreTexts vs ss

-- The contest config names the rooms `names`, as the list `referee` of its dict `rooms`.
abbrev pub NamesRooms : Fields → List Str → Type 0
NamesRooms contest names =
    (rooms : Fields) × (value_at "rooms" contest ≡ obj rooms)
    × ((listed : Items) × (value_at "referee" rooms ≡ arr listed)
        × AreTexts (elements listed) names)

-- The manifest has the reviewed digest, the files of the package are those that its dict `files` lists,
-- the contest config is one of them, and it names the referee's five rooms.
pub record IsPackage (p : Platform) (folder : Package) (expected_hash contest_id : Str)
    (names : List Str) : Type 0 where
  pub manifest : Fields
  pub files : Fields
  pub contest : Fields
  pub metadata : Value
  pub reviewed : p.sha256 (folder.file (codes "manifest.json")).content ≡ expected_hash
  pub parsed : load_json p (folder.file (codes "manifest.json")).content ≡ ok (obj manifest)
  pub lists : value_at "files" manifest ≡ obj files
  pub artifacts : AllArtifacts p folder files
  pub config_listed : value_at "contest.json" files ≡ metadata
  pub config : IsArtifact p folder (codes "contest.json") metadata
  pub read : load_json p (folder.file (codes "contest.json")).content ≡ ok (obj contest)
  pub contest_named : is_str (value_at "contest_id" contest) contest_id ≡ true
  pub named : NamesRooms contest names
  pub five : length names ≡ 5
  pub rooms : All (λ s. is_room s ≡ true) names
  pub distinct : Distinct names

room_name-is_room : (v : Value) (s : Str) → room_name v ≡ some s → (v ≡ str s) × (is_room s ≡ true)
room_name-is_room (str t) s h = ground arith
room_name-is_room _ s h = cc

abbrev AreRooms : List Value → List Str → Type 0
AreRooms vs names =
    All (λ s. is_room s ≡ true) names × (length names ≡ length vs) × AreTexts vs names

room_names-AreRooms :
    (vs : List Value) (names : List Str) → room_names vs ≡ ok names → AreRooms vs names
unfolding room_names
room_names-AreRooms [] names h = subst (AreRooms []) (ok-injective h) (tt, refl, tt)
room_names-AreRooms (v ∷ vs) names h =
    let (name, a, h₁) = >>=-eq-ok (or_raise (room_name v) _) _ h in
    let (more, b, h₂) = >>=-eq-ok (room_names vs) _ h₁ in
    let (valid, long, texts) = room_names-AreRooms vs more b in
    let (same, one) = room_name-is_room v name (some-or_raise _ _ a) in
    subst (AreRooms (v ∷ vs)) (ok-injective h₂) ((one, valid), ap suc long, (same, texts))

list_of-some :
    (v : Value) (vs : List Value)
    → list_of v ≡ some vs
    → (listed : Items) × (v ≡ arr listed) × (elements listed ≡ vs)
list_of-some (arr xs) vs h = (xs, refl, cc h)
list_of-some _ vs h = cc

referee_list-some :
    (v : Value) (vs : List Value)
    → referee_list v ≡ some vs
    → (rooms : Fields) × (v ≡ obj rooms) × (list_of (value_at "referee" rooms) ≡ some vs)
unfolding referee_list
referee_list-some (obj rooms) vs h = (rooms, refl, h)
referee_list-some _ vs h = cc

-- The config behind the names of the rooms.
abbrev IsContest : Value → Str → List Str → Type 0
IsContest v contest_id names =
    (contest : Fields) × (v ≡ obj contest)
    × (is_str (value_at "contest_id" contest) contest_id ≡ true)
    × NamesRooms contest names
    × (length names ≡ 5)
    × All (λ s. is_room s ≡ true) names
    × Distinct names

check_contest-IsContest :
    (v : Value) (contest_id : Str) (names : List Str)
    → check_contest v contest_id ≡ ok names
    → IsContest v contest_id names
unfolding check_contest room_types
check_contest-IsContest (obj contest) contest_id names h =
    let (named, h₁) = guard-eq-ok (is_str (value_at "contest_id" contest) contest_id) _ _ h in
    let (rooms, a, h₂) = >>=-eq-ok (or_raise (referee_list (value_at "rooms" contest)) _) _ h₁ in
    let (five, h₃) = guard-eq-ok (length rooms == length (firsts room_types)) _ _ h₂ in
    let (found, b, h₄) = >>=-eq-ok (room_names rooms) _ h₃ in
    let (distinct, h₅) = guard-eq-ok (distinct_names found) _ _ h₄ in
    let (valid, long, texts) = room_names-AreRooms rooms found b in
    let (dict, is_dict, inner) =
      referee_list-some (value_at "rooms" contest) rooms (some-or_raise _ _ a) in
    let (listed, is_listed, items) = list_of-some (value_at "referee" dict) rooms inner in
    subst (IsContest (obj contest) contest_id) (ok-injective h₅) (
      contest,
      refl,
      named,
      (dict, is_dict, (listed, is_listed, subst (λ vs. AreTexts vs found) (sym items) texts)),
      long ∙ (==_iff (length rooms) 5).0 five,
      valid,
      distinct_names-Distinct found distinct,
    )
check_contest-IsContest _ contest_id names h = cc

some_files-some : (v : Value) (files : Fields) → some_files v ≡ some files → v ≡ obj files
some_files-some (obj (field name metadata rest)) files h = cc h
some_files-some _ files h = cc

-- The files that a manifest lists, of which the contest config is one.
abbrev IsManifest : Value → Fields → Type 0
IsManifest v files =
    (manifest : Fields) × (v ≡ obj manifest)
    × (value_at "files" manifest ≡ obj files)
    × (has_key "contest.json" files ≡ true)

check_manifest-IsManifest :
    (v : Value) (files : Fields) → check_manifest v ≡ ok files → IsManifest v files
unfolding check_manifest
check_manifest-IsManifest (obj manifest) files h =
    let (a, h₁) = guard-eq-ok (is_int (value_at "schema_version" manifest) (pos 1)) _ _ h in
    let (b, h₂) =
      guard-eq-ok (is_str (value_at "package" manifest) (codes "technocore-close-call")) _ _ h₁ in
    let (found, c, h₃) = >>=-eq-ok (or_raise (some_files (value_at "files" manifest)) _) _ h₂ in
    let (d, h₄) = guard-eq-ok (is_listed (value_at "entrypoint" manifest) found) _ _ h₃ in
    let (e, h₅) = guard-eq-ok (has_key "contest.json" found) _ _ h₄ in
    subst (IsManifest (obj manifest)) (ok-injective h₅)
      (manifest, refl, some_files-some (value_at "files" manifest) found (some-or_raise _ _ c), e)
check_manifest-IsManifest _ files h = cc

-- `verify_package` returns rooms only of a package whose manifest has the expected digest, all of whose
-- listed files lie inside of it under safe names and have the listed sizes and digests; the contest
-- config is one of them and names the contest and the returned rooms, five distinct valid names.
pub verify_package-IsPackage :
    (p : Platform) (folder : Package) (expected_hash contest_id : Str) (names : List Str)
    → verify_package p folder expected_hash contest_id ≡ ok names
    → IsPackage p folder expected_hash contest_id names
unfolding verify_package
verify_package-IsPackage p folder expected_hash contest_id names h =
    let (raw, opened, h₁) = >>=-eq-ok (read_regular (folder.file (codes "manifest.json"))) _ h in
    let (digest, h₂) = guard-eq-ok (eq_str (p.sha256 raw) expected_hash) _ _ h₁ in
    let (manifest, a, h₃) = >>=-eq-ok (load_json p raw) _ h₂ in
    let (files, listed, h₄) = >>=-eq-ok (check_manifest manifest) _ h₃ in
    let (u, checked, h₅) = >>=-eq-ok (check_artifacts p folder files) _ h₄ in
    let (contest_raw, seen, h₆) =
      >>=-eq-ok (read_regular (folder.file (codes "contest.json"))) _ h₅ in
    let (contest, loaded, h₇) = >>=-eq-ok (load_json p contest_raw) _ h₆ in
    let (fields, shaped, contest_named, named, five, rooms, distinct) =
      check_contest-IsContest contest contest_id names h₇ in
    let same = (read_regular-eq-ok (folder.file (codes "manifest.json")) raw opened).1 in
    let again = (read_regular-eq-ok (folder.file (codes "contest.json")) contest_raw seen).1 in
    let artifacts = check_artifacts-AllArtifacts p folder files checked in
    let (top, is_top, lists, has_config) = check_manifest-IsManifest manifest files listed in
    let (metadata, at_config, config) =
      listed-IsArtifact p folder "contest.json" files artifacts has_config in
    record {
      manifest = top;
      parsed = ap (load_json p) (sym same) ∙ a ∙ ap ok is_top;
      lists = lists;
      config_listed = at_config;
      named = named;
      files = files;
      contest = fields;
      metadata = metadata;
      reviewed = ap p.sha256 (sym same) ∙ eq_str→≡ (p.sha256 raw) expected_hash digest;
      artifacts = artifacts;
      config = config;
      read = ap (load_json p) (sym again) ∙ loaded ∙ ap ok shaped;
      contest_named = contest_named;
      five = five;
      rooms = rooms;
      distinct = distinct;
    }
