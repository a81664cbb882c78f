-- ===== src/CloseCall/Loop.antt =====
-- The loop over the lines of a room: what the records are that it accepts.
use mathlib.Core.Path.{subst}
use flop_contributions.Prelude.{
  ℕ, suc, ◌+◌, ◌≡◌, ◌≢◌, ◌⊎◌, refl, ap, ◌∙◌, inl, inr, pos, Bool, true, false, not, ◌&&◌, some,
  List, [], ◌∷◌, ◌++◌, arith, length, ◌==◌, ==_iff, Bool-cases,
}
use flop_contributions.Outcome.{ok, or_raise, >>=-eq-ok, guard-eq-ok, some-or_raise, ok-injective}
use flop_contributions.Text.{Str, Bytes, codes, mem_str, eq_str}
use flop_contributions.Text.Laws.{eq_str→≡, eq_str_iff}
use flop_contributions.Json.{Value, int, str, obj, Fields, is_str}
use flop_contributions.Platform.{Platform}
use flop_contributions.Table.{find}
use flop_contributions.Tclk.Transcript.{value_at}
use flop_contributions.CloseCall.Envelope.{Sealed, is_hash, hash_of, load_json, verify_envelope}
use flop_contributions.CloseCall.Rooms.{room_types, seconds}
use flop_contributions.CloseCall.Exports.{
  Progress, Reviewed, is_list, is_exactly, enter_seed, enter_final, enter_sweep, enter_message,
  none_left,
}

-- A line of the room with a signed record of the referee, numbered `seq`.
pub record IsSignedLine (p : Platform) (room : Str) (referee : Value) (seq : ℕ) (line : Bytes)
    (sealed : Sealed) : Type 0 where
  pub fields : Fields
  pub loaded : load_json p line ≡ ok (obj fields)
  pub verified : verify_envelope p room fields ≡ ok sealed
  pub sender : sealed.sender ≡ referee
  pub numbered : sealed.seq ≡ seq

-- The launch seed, the first record of the price room, which binds the contest and the package.
abbrev pub IsSeed : Reviewed → Str → ℕ → Fields → Type 0
IsSeed reviewed kind seq message =
    (kind ≡ codes "price")
    × (seq ≡ 1)
    × (is_str (value_at "season" message) reviewed.contest_id ≡ true)
    × (is_str (value_at "package" message) reviewed.expected_hash ≡ true)
    × (is_list (value_at "rooms" message) (seconds reviewed.roles) ≡ true)
    × (value_at "t" message ≡ str (codes "seed"))

-- The final record, the last of the price room.
abbrev pub IsFinal : Str → List Bytes → Fields → Type 0
IsFinal kind lines message =
    (kind ≡ codes "price") × (lines ≡ []) × (value_at "t" message ≡ str (codes "final"))

-- The type belongs to the rooms of the kind.
abbrev pub IsAllowed : Str → Str → Type 0
IsAllowed kind t =
    (types : List Str) × (find kind room_types ≡ some types) × (mem_str t types ≡ true)

-- A message of the kind's own type, which commits to the file `hash` for the sweep `n`.
abbrev pub IsSweep : Str → ℕ → Str → Fields → Type 0
IsSweep kind n hash message =
    (value_at "n" message ≡ int (pos n))
    × (value_at "file" message ≡ str hash)
    × (is_hash hash ≡ true)
    × ((t : Str) × (value_at "t" message ≡ str t)
        × (t ≢ codes "seed")
        × (t ≢ codes "final")
        × IsAllowed kind t)

-- Records numbered from `seq` on behind `count` sweeps, and the files to which they commit.
pub data Rows (p : Platform) (reviewed : Reviewed) (kind room : Str) (referee : Value)
    : ℕ → ℕ → List Bytes → List Str → Type 0 where
  done : {seq count : ℕ} → Rows p reviewed kind room referee seq count [] []
  seed :
      {seq count : ℕ} {lines : List Bytes} {hashes : List Str} (line : Bytes) (sealed : Sealed)
      → IsSignedLine p room referee seq line sealed
      → IsSeed reviewed kind seq sealed.message
      → Rows p reviewed kind room referee (suc seq) count lines hashes
      → Rows p reviewed kind room referee seq count (line ∷ lines) hashes
  final :
      {seq count : ℕ} {lines : List Bytes} {hashes : List Str} (line : Bytes) (sealed : Sealed)
      → IsSignedLine p room referee seq line sealed
      → IsFinal kind lines sealed.message
      → Rows p reviewed kind room referee (suc seq) count lines hashes
      → Rows p reviewed kind room referee seq count (line ∷ lines) hashes
  sweep :
      {seq count : ℕ} {lines : List Bytes} {hashes : List Str} (line : Bytes) (sealed : Sealed)
      (hash : Str)
      → IsSignedLine p room referee seq line sealed
      → IsSweep kind (suc count) hash sealed.message
      → Rows p reviewed kind room referee (suc seq) (suc count) lines hashes
      → Rows p reviewed kind room referee seq count (line ∷ lines) (hash ∷ hashes)

-- What a message is, and what it adds to the sweeps of the room.
abbrev pub Entered : Reviewed → Str → List Bytes → ℕ → Fields → Progress → Progress → Type 0
Entered reviewed kind lines seq message s next =
    (IsSeed reviewed kind seq message × (next.room_sweeps ≡ s.room_sweeps))
    ⊎ ((IsFinal kind lines message × (next.room_sweeps ≡ s.room_sweeps) × (next.seeded ≡ s.seeded))
        ⊎ ((hash : Str) × IsSweep kind (suc (length s.room_sweeps)) hash message
            × (next.room_sweeps ≡ s.room_sweeps ++ hash ∷ [])
            × (next.seeded ≡ s.seeded)))

-- The rest of the variables is kept.
abbrev pub Keeps : Progress → Progress → Type 0
Keeps s next = (next.referee ≡ s.referee) × (next.previous_seq ≡ s.previous_seq)

three : (a b c : Bool) → (a && b && c) ≡ true → (a ≡ true) × (c ≡ true)
three true true true h = (refl, refl)
three true true false h = cc
three true false c h = cc
three false b c h = cc

both : (a b : Bool) → (a && b) ≡ true → (a ≡ true) × (b ≡ true)
both true b h = (refl, h)
both false b h = cc

none_left-nil : (lines : List Bytes) → none_left lines ≡ true → lines ≡ []
none_left-nil [] h = refl
none_left-nil (line ∷ lines) h = cc

is_exactly-eq : (n : ℕ) (v : Value) → is_exactly n v ≡ true → v ≡ int (pos n)
is_exactly-eq n (int (pos m)) h = ap (λ k. int (pos k)) ((==_iff m n).0 h)
is_exactly-eq n _ h = cc

hash_of-some : (v : Value) (s : Str) → hash_of v ≡ some s → (v ≡ str s) × (is_hash s ≡ true)
hash_of-some (str t) s h = ground arith
hash_of-some _ s h = cc

module _ (reviewed : Reviewed) (kind : Str) (lines : List Bytes) (seq : ℕ) (message : Fields)
    (s next : Progress) where
  enter_seed-Entered :
      value_at "t" message ≡ str (codes "seed")
      → enter_seed reviewed kind seq message s ≡ ok next
      → Keeps s next × Entered reviewed kind lines seq message s next
  unfolding enter_seed
  enter_seed-Entered typed h =
      let (a, h₁) = guard-eq-ok (eq_str kind (codes "price") && not s.seeded && seq == 1) _ _ h in
      let (b, h₂) =
        guard-eq-ok
          (is_str (value_at "season" message) reviewed.contest_id
            && is_str (value_at "package" message) reviewed.expected_hash)
          _ _ h₁ in
      let (c, h₃) =
        guard-eq-ok (is_list (value_at "rooms" message) (seconds reviewed.roles)) _ _ h₂ in
      let (price, one) = three (eq_str kind (codes "price")) (not s.seeded) (seq == 1) a in
      let (season, bound) =
        both (is_str (value_at "season" message) reviewed.contest_id)
          (is_str (value_at "package" message) reviewed.expected_hash) b in
      subst (λ (o : Progress). Keeps s o × Entered reviewed kind lines seq message s o)
        (ok-injective h₃)
        (
          (refl, refl),
          inl ((eq_str→≡ _ _ price, (==_iff seq 1).0 one, season, bound, c, typed), refl),
        )

  enter_final-Entered :
      value_at "t" message ≡ str (codes "final")
      → enter_final kind (none_left lines) s ≡ ok next
      → Keeps s next × Entered reviewed kind lines seq message s next
  unfolding enter_final
  enter_final-Entered typed h =
      let (a, h₁) =
        guard-eq-ok (eq_str kind (codes "price") && not s.final_seen && none_left lines) _ _ h in
      let (price, last) =
        three (eq_str kind (codes "price")) (not s.final_seen) (none_left lines) a in
      subst (λ (o : Progress). Keeps s o × Entered reviewed kind lines seq message s o)
        (ok-injective h₁)
        (
          (refl, refl),
          inr (inl ((eq_str→≡ _ _ price, none_left-nil lines last, typed), refl, refl)),
        )

  enter_sweep-Entered :
      (t : Str)
      → value_at "t" message ≡ str t
      → t ≢ codes "seed"
      → t ≢ codes "final"
      → IsAllowed kind t
      → enter_sweep message s ≡ ok next
      → Keeps s next × Entered reviewed kind lines seq message s next
  unfolding enter_sweep
  enter_sweep-Entered t typed no_seed no_final allowed h =
      let (a, h₁) =
        guard-eq-ok (is_exactly (length s.room_sweeps + 1) (value_at "n" message)) _ _ h in
      let (hash, b, h₂) = >>=-eq-ok (or_raise (hash_of (value_at "file" message)) _) _ h₁ in
      let (file, hashed) = hash_of-some (value_at "file" message) hash (some-or_raise _ _ b) in
      subst (λ (o : Progress). Keeps s o × Entered reviewed kind lines seq message s o)
        (ok-injective h₂)
        (
          (refl, refl),
          inr (
              inr (
                hash,
                (
                  is_exactly-eq (length s.room_sweeps + 1) (value_at "n" message) a
                      ∙ ap (λ k. int (pos k)) (omega arith),
                  file,
                  hashed,
                  (t, typed, no_seed, no_final, allowed),
                ),
                refl,
                refl,
              )),
        )

  pub enter_message-Entered :
      (t : Str)
      → value_at "t" message ≡ str t
      → IsAllowed kind t
      → enter_message reviewed kind (none_left lines) seq t message s ≡ ok next
      → Keeps s next × Entered reviewed kind lines seq message s next
  unfolding enter_message
  enter_message-Entered t typed allowed h = elim (Bool-cases (eq_str t (codes "seed"))) [
    | inl e ↦ enter_seed-Entered (typed ∙ ap str (eq_str→≡ t _ e)) (rw e at h)
    | inr e ↦ elim (Bool-cases (eq_str t (codes "final"))) [
      | inl f ↦ enter_final-Entered (typed ∙ ap str (eq_str→≡ t _ f)) (rw (e, f) at h)
      | inr f ↦
          enter_sweep-Entered t typed (λ same. cc ((eq_str_iff t _).1 same, e))
            (λ same. cc ((eq_str_iff t _).1 same, f)) allowed (rw (e, f) at h)
    ]
  ]
