-- ===== src/Archive/Committed.antt =====
-- The signed flow records that `verify_commitments` accepts.
use mathlib.Core.Path.{subst}
use flop_contributions.Prelude.{
  ℕ, suc, ◌≡◌, refl, sym, ap, ◌∙◌, ℤ, pos, negsuc, Bool, true, false, List, [], ◌∷◌, arith, eq_ℤ,
  ==_iff,
}
use flop_contributions.Outcome.{ok, guard, >>=-eq-ok, guard-eq-ok, ok-injective}
use flop_contributions.Text.{Str, Bytes, codes}
use flop_contributions.Json.{Value, int, bool, obj, Fields, is_str, is_int}
use flop_contributions.Platform.{Platform, File}
use flop_contributions.Tclk.Transcript.{value_at}
use flop_contributions.CloseCall.Envelope.{Sealed, verify_envelope}
use flop_contributions.Archive.Index.{read, load, Entry}
use flop_contributions.Archive.Listed.{IsListed, AllListed}
use flop_contributions.Archive.Commitments.{
  Directory, flow_name, formatted, check_flow, verify_commitment, commit_all, verify_commitments,
}

pub read-eq-ok :
    (file : File) (raw : Bytes) → read file ≡ ok raw → (file.regular ≡ true) × (raw ≡ file.content)
unfolding read
read-eq-ok file raw h = ground arith

-- The file of the sweep `n` in the directory holds a flow record that the referee room's signature
-- verifies, which commits to the file `hash` for that sweep.
pub record IsCommitted (p : Platform) (directory : Directory) (n : ℕ) (hash : Str) : Type 0 where
  pub fields : Fields
  pub flow : Sealed
  pub regular : (directory.file (flow_name (pos n))).regular ≡ true
  pub loaded : load p (directory.file (flow_name (pos n))).content ≡ ok (obj fields)
  pub verified : verify_envelope p (codes "d-close1-flow") fields ≡ ok flow
  pub kind : is_str (value_at "t" flow.message) (codes "flow") ≡ true
  pub numbered : is_int (value_at "n" flow.message) (pos n) ≡ true
  pub commits : is_str (value_at "file" flow.message) hash ≡ true

abbrev pub AllCommitted : Platform → Directory → ℕ → List Entry → Type 0
AllCommitted p directory n [] = Unit
AllCommitted p directory n (e ∷ es) =
    IsListed n e × IsCommitted p directory n e.file × AllCommitted p directory (suc n) es

eq_ℤ_pos : (m : ℤ) (n : ℕ) → eq_ℤ m (pos n) ≡ true → m ≡ pos n
eq_ℤ_pos (pos m) n h = ap pos ((==_iff m n).0 h)
eq_ℤ_pos (negsuc m) n h = cc

formatted-is_int :
    (v : Value) (m : ℤ) (n : ℕ) → formatted v ≡ ok m → is_int v (pos n) ≡ true → m ≡ pos n
unfolding is_int
formatted-is_int (int k) m n h e = sym (ok-injective h) ∙ eq_ℤ_pos k n e
formatted-is_int (bool true) m n h e = sym (ok-injective h) ∙ eq_ℤ_pos (pos 1) n e
formatted-is_int (bool false) m n h e = sym (ok-injective h) ∙ eq_ℤ_pos (pos 0) n e
formatted-is_int _ m n h e = cc

module _ (p : Platform) (directory : Directory) where
  check_flow-IsCommitted :
      (n : ℕ) (hash : Str) (v : Value)
      → (directory.file (flow_name (pos n))).regular ≡ true
      → load p (directory.file (flow_name (pos n))).content ≡ ok v
      → check_flow p (pos n) hash v ≡ ok tt
      → IsCommitted p directory n hash
  unfolding check_flow
  check_flow-IsCommitted n hash (obj fields) regular loaded h =
      let (flow, verified, h₁) = >>=-eq-ok (verify_envelope p (codes "d-close1-flow") fields) _ h in
      let (kind, h₂) = guard-eq-ok (is_str (value_at "t" flow.message) (codes "flow")) _ _ h₁ in
      let (numbered, h₃) = guard-eq-ok (is_int (value_at "n" flow.message) (pos n)) _ _ h₂ in
      record {
        fields = fields;
        flow = flow;
        regular = regular;
        loaded = loaded;
        verified = verified;
        kind = kind;
        numbered = numbered;
        commits = commits (is_str (value_at "file" flow.message) hash) h₃;
      }
    where
      commits :
          (b : Bool) → guard b "archive commitment differs from signed sweep" ≡ ok tt → b ≡ true
      commits true h = refl
      commits false h = cc
  check_flow-IsCommitted n hash _ regular loaded h = cc

  verify_commitment-IsCommitted :
      (n : ℕ) (e : Entry)
      → IsListed n e
      → verify_commitment p directory e ≡ ok tt
      → IsCommitted p directory n e.file
  unfolding verify_commitment
  verify_commitment-IsCommitted n e listed h =
      let (m, named, h₁) = >>=-eq-ok (formatted e.n) _ h in
      let (raw, opened, h₂) = >>=-eq-ok (read (directory.file (flow_name m))) _ h₁ in
      let (v, loaded, h₃) = >>=-eq-ok (load p raw) _ h₂ in
      let same : m ≡ pos n = formatted-is_int e.n m n named listed.0 in
      let (regular, content) = read-eq-ok (directory.file (flow_name m)) raw opened in
      check_flow-IsCommitted n e.file v
        (subst (λ k. (directory.file (flow_name k)).regular ≡ true) same regular)
        (subst (λ k. load p (directory.file (flow_name k)).content ≡ ok v) same
          (ap (load p) (sym content) ∙ loaded))
        (subst (λ k. check_flow p k e.file v ≡ ok tt) same h₃)

  pub commit_all-AllCommitted :
      (n : ℕ) (es : List Entry)
      → AllListed n es
      → commit_all p directory es ≡ ok tt
      → AllCommitted p directory n es
  unfolding commit_all
  commit_all-AllCommitted n [] listed h = tt
  commit_all-AllCommitted n (e ∷ es) (one, more) h =
      let (u, a, h₁) = >>=-eq-ok (verify_commitment p directory e) _ h in
      (one, verify_commitment-IsCommitted n e one a, commit_all-AllCommitted (suc n) es more h₁)

pub verify_commitments-AllCommitted :
    (p : Platform) (directory : Directory) (entries : List Entry)
    → AllListed 1 entries
    → verify_commitments p entries directory ≡ ok tt
    → AllCommitted p directory 1 entries
unfolding verify_commitments
verify_commitments-AllCommitted p directory entries listed h =
    let (exists, h₁) = guard-eq-ok directory.is_real _ _ h in
    commit_all-AllCommitted p directory 1 entries listed h₁
