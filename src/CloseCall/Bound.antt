-- ===== src/CloseCall/Bound.antt =====
-- What an accepted package is: its files are those of the reviewed manifest.
use mathlib.Core.Path.{subst}
use flop_contributions.Prelude.{
  ℕ, ◌≡◌, refl, sym, ap, ◌∙◌, pos, Bool, true, false, ◌&&◌, some, List, [], ◌∷◌, String, arith,
  length, ◌==◌, ==_iff, Bool-cases, inl, inr, str_eq, eq_iff,
}
use flop_contributions.Outcome.{ok, guard, or_raise, >>=-eq-ok, guard-eq-ok, some-or_raise}
use flop_contributions.Text.{Str, Bytes, codes, eq_str, mem_str}
use flop_contributions.Text.Laws.{eq_str→≡}
use flop_contributions.Text.Pure.{is_safe_path}
use flop_contributions.Text.Membership.{Distinct, mem_str_iff}
use flop_contributions.Json.{
  Value, int, str, obj, Fields, end, field, keys, get, mem_key, has_key, is_str,
}
use flop_contributions.Platform.{Platform, File}
use flop_contributions.Tclk.Transcript.{value_at}
use flop_contributions.CloseCall.Envelope.{hash_of, read_regular}
use flop_contributions.CloseCall.Package.{
  Package, artifact_size, check_artifact, check_artifacts, distinct_names,
}

-- The file `name` of the package has the size and the digest of its entry, and lies inside of it.
pub record IsArtifact (p : Platform) (folder : Package) (name : Str) (metadata : Value)
    : Type 0 where
  pub fields : Fields
  pub is_object : metadata ≡ obj fields
  pub safe : is_safe_path name ≡ true
  pub inside : folder.stays_inside name ≡ true
  pub regular : (folder.file name).regular ≡ true
  pub sized : value_at "bytes" fields ≡ int (pos (length (folder.file name).content))
  pub hashed : value_at "sha256" fields ≡ str (p.sha256 (folder.file name).content)

abbrev pub AllArtifacts : Platform → Package → Fields → Type 0
AllArtifacts p folder end = Unit
AllArtifacts p folder (field name metadata files) =
    IsArtifact p folder (codes name) metadata × AllArtifacts p folder files

artifact_size-some : (v : Value) (n : ℕ) → artifact_size v ≡ some n → v ≡ int (pos n)
artifact_size-some (int (pos m)) n h = ground arith
artifact_size-some _ n h = cc

hash_of-some : (v : Value) (s : Str) → hash_of v ≡ some s → v ≡ str s
hash_of-some (str t) s h = ground arith
hash_of-some _ s h = cc

pub read_regular-eq-ok :
    (file : File) (raw : Bytes)
    → read_regular file ≡ ok raw
    → (file.regular ≡ true) × (raw ≡ file.content)
unfolding read_regular
read_regular-eq-ok file raw h = ground arith

matched : (a b : Bool) (message : String) → guard (a && b) message ≡ ok tt → (a ≡ true) × (b ≡ true)
matched true true message h = (refl, refl)
matched true false message h = cc
matched false b message h = cc

check_artifact-IsArtifact :
    (p : Platform) (folder : Package) (name : Str) (metadata : Value)
    → check_artifact p folder name metadata ≡ ok tt
    → IsArtifact p folder name metadata
unfolding check_artifact
check_artifact-IsArtifact p folder name (obj metadata) h =
    let (safe, h₁) = guard-eq-ok (is_safe_path name) _ _ h in
    let (a, h₂) = guard-eq-ok (is_str (value_at "url" metadata) name) _ _ h₁ in
    let (size, b, h₃) = >>=-eq-ok (or_raise (artifact_size (value_at "bytes" metadata)) _) _ h₂ in
    let (hash, c, h₄) = >>=-eq-ok (or_raise (hash_of (value_at "sha256" metadata)) _) _ h₃ in
    let (inside, h₅) = guard-eq-ok (folder.stays_inside name) _ _ h₄ in
    let (raw, opened, h₆) = >>=-eq-ok (read_regular (folder.file name)) _ h₅ in
    let (regular, same) = read_regular-eq-ok (folder.file name) raw opened in
    let (long, digest) = matched (length raw == size) (eq_str (p.sha256 raw) hash) _ h₆ in
    record {
      fields = metadata;
      is_object = refl;
      safe = safe;
      inside = inside;
      regular = regular;
      sized =
          artifact_size-some (value_at "bytes" metadata) size (some-or_raise _ _ b)
          ∙ ap (λ n. int (pos n)) (sym ((==_iff (length raw) size).0 long) ∙ ap length same);
      hashed =
          hash_of-some (value_at "sha256" metadata) hash (some-or_raise _ _ c)
          ∙ ap str (sym (eq_str→≡ (p.sha256 raw) hash digest) ∙ ap p.sha256 same);
    }
check_artifact-IsArtifact p folder name _ h = cc

pub check_artifacts-AllArtifacts :
    (p : Platform) (folder : Package) (files : Fields)
    → check_artifacts p folder files ≡ ok tt
    → AllArtifacts p folder files
unfolding check_artifacts
check_artifacts-AllArtifacts p folder end h = tt
check_artifacts-AllArtifacts p folder (field name metadata files) h =
    let (u, one, h₁) = >>=-eq-ok (check_artifact p folder (codes name) metadata) _ h in
    (
      check_artifact-IsArtifact p folder (codes name) metadata one,
      check_artifacts-AllArtifacts p folder files h₁,
    )

-- A name that the manifest lists is that of a checked file.
pub listed-IsArtifact :
    (p : Platform) (folder : Package) (name : String) (files : Fields)
    → AllArtifacts p folder files
    → has_key name files ≡ true
    → (metadata : Value) × (value_at name files ≡ metadata)
      × IsArtifact p folder (codes name) metadata
unfolding has_key mem_key keys value_at get
listed-IsArtifact p folder name end all h = cc
listed-IsArtifact p folder name (field j metadata files) (one, more) h =
    elim (Bool-cases (str_eq j name)) [
      | inl e ↦ (
        metadata,
        rw (e, value_at) refl,
        subst (λ k. IsArtifact p folder (codes k) metadata) ((eq_iff j name).0 e) one,
      )
      | inr e ↦
          let (found, at_name, checked) = listed-IsArtifact p folder name files more (rw e at h) in
          (found, rw (e, value_at) at_name, checked)
    ]

pub distinct_names-Distinct : (names : List Str) → distinct_names names ≡ true → Distinct names
unfolding distinct_names
distinct_names-Distinct [] h = tt
distinct_names-Distinct (s ∷ ss) h = elim (Bool-cases (mem_str s ss)) [
  | inl e ↦ cc (rw e at h)
  | inr e ↦ (λ member. cc ((mem_str_iff s ss).1 member, e), distinct_names-Distinct ss (rw e at h))
]
