-- ===== src/Json/Laws.antt =====
-- `reject_duplicates` as the hook of `json.loads`: it changes no value, and it accepts exactly the
-- values in which no object has a key twice.
use flop_contributions.Prelude.{
  ◌≡◌, refl, ap, sym, ◌∙◌, ◌↔◌, ◌⊎◌, inl, inr, String, true, arith, eq_iff, Bool-cases,
}
use mathlib.Core.Path.{subst}
use flop_contributions.Outcome.{ok-injective, ok, >>=-eq-ok}
use flop_contributions.Json.{
  Value, null, bool, int, real, str, arr, obj, Items, nil, cons, Fields, end, field, has_key,
  append_field, reject_from, reject_duplicates, hook, hook_items, hook_fields,
}

abbrev pub InKeys : String → Fields → Type 0
InKeys k end = ⊥
InKeys k (field j v fs) = (j ≡ k) ⊎ InKeys k fs

-- No key stands twice in the object.
abbrev pub UniqueKeys : Fields → Type 0
UniqueKeys end = Unit
UniqueKeys (field k v fs) = ¬ InKeys k fs × UniqueKeys fs

-- No key of the second object stands in the first.
abbrev Apart : Fields → Fields → Type 0
Apart r end = Unit
Apart r (field k v fs) = ¬ InKeys k r × Apart r fs

-- The pairs of the first object, then those of the second.
abbrev join : Fields → Fields → Fields
join end ps = ps
join (field k v r) ps = field k v (join r ps)

has_key_iff : (k : String) (fs : Fields) → (has_key k fs ≡ true) ↔ InKeys k fs
unfolding has_key
has_key_iff k end = (λ h. cc, λ h. absurd h)
has_key_iff k (field j v fs) = (
  λ h. ground (arith, eq_iff j k, (has_key_iff k fs).0),
  λ h. ground (arith, eq_iff j k, (has_key_iff k fs).1),
)

in-append_field :
    (j k : String) (v : Value) (r : Fields) → InKeys j (append_field r k v) ↔ (InKeys j r ⊎ (k ≡ j))
unfolding append_field
in-append_field j k v end = ground arith
in-append_field j k v (field i w r) = ground (arith, in-append_field j k v r)

join-append_field :
    (k : String) (v : Value) (r ps : Fields) → join (append_field r k v) ps ≡ join r (field k v ps)
unfolding append_field
join-append_field k v end ps = refl
join-append_field k v (field i w r) ps = ap (λ t. field i w t) (join-append_field k v r ps)

Apart-append_field :
    (k : String) (v : Value) (r ps : Fields)
    → Apart (append_field r k v) ps ↔ (Apart r ps × ¬ InKeys k ps)
Apart-append_field k v r end = (λ h. (tt, λ i. i), λ h. tt)
Apart-append_field k v r (field j w ps) = (
  λ h.
      let (a, n) = (Apart-append_field k v r ps).0 h.1 in
      (
        (λ i. h.0 ((in-append_field j k v r).1 (inl i)), a),
        elim [ inl e ↦ h.0 ((in-append_field j k v r).1 (inr (sym e))) | inr i ↦ n i ],
      ),
  λ h. (
    λ i. elim ((in-append_field j k v r).0 i) [ inl a ↦ h.0.0 a | inr e ↦ h.1 (inl (sym e)) ],
    (Apart-append_field k v r ps).1 (h.0.1, λ i. h.1 (inr i)),
  ),
)

join-end : (r : Fields) → join r end ≡ r
join-end end = refl
join-end (field k v r) = ap (λ t. field k v t) (join-end r)

reject_from-returns :
    (r ps out : Fields) → reject_from r ps ≡ ok out → Apart r ps × UniqueKeys ps × (out ≡ join r ps)
unfolding reject_from
reject_from-returns r end out h = (tt, tt, sym (ok-injective h) ∙ sym (join-end r))
reject_from-returns r (field k v ps) out h = elim (Bool-cases (has_key k r)) [
  | inl e ↦ cc (rw e at h)
  | inr e ↦
      let (a, u, same) = reject_from-returns (append_field r k v) ps out (rw e at h) in
      let (apart, fresh) = (Apart-append_field k v r ps).0 a in
      ((λ i. cc (e, (has_key_iff k r).1 i), apart), (fresh, u), same ∙ join-append_field k v r ps)
]

reject_from-accepts :
    (r ps : Fields) → Apart r ps → UniqueKeys ps → reject_from r ps ≡ ok (join r ps)
unfolding reject_from
reject_from-accepts r end a u = rw join-end
reject_from-accepts r (field k v ps) a u = elim (Bool-cases (has_key k r)) [
  | inl e ↦ absurd (a.0 ((has_key_iff k r).0 e))
  | inr e ↦ rw e (
      reject_from-accepts (append_field r k v) ps ((Apart-append_field k v r ps).1 (a.1, u.0)) u.1
      ∙ ap ok (join-append_field k v r ps))
]

Apart-end : (ps : Fields) → Apart end ps
Apart-end end = tt
Apart-end (field k v ps) = (λ i. i, Apart-end ps)

-- `reject_duplicates` returns its pairs, in their order, exactly when no key stands twice.
pub reject_duplicates_iff :
    (ps out : Fields) → (reject_duplicates ps ≡ ok out) ↔ (UniqueKeys ps × (out ≡ ps))
unfolding reject_duplicates
reject_duplicates_iff ps out = (
  λ h. let (a, u, e) = reject_from-returns end ps out h in (u, e),
  λ h. reject_from-accepts end ps (Apart-end ps) h.0 ∙ ap ok (sym h.1),
)

-- No object anywhere in the value has a key twice.
mutual
  pub AllUnique : Value → Type 0
  AllUnique (obj fs) = UniqueKeys fs × AllUniqueFields fs
  AllUnique (arr xs) = AllUniqueItems xs
  AllUnique _ = Unit

  pub AllUniqueFields : Fields → Type 0
  AllUniqueFields end = Unit
  AllUniqueFields (field k v fs) = AllUnique v × AllUniqueFields fs

  pub AllUniqueItems : Items → Type 0
  AllUniqueItems nil = Unit
  AllUniqueItems (cons v xs) = AllUnique v × AllUniqueItems xs

mutual
  unfolding hook AllUnique

  hook-returns : (v w : Value) → hook v ≡ ok w → AllUnique v × (w ≡ v)
  hook-returns null w h = (tt, cc)
  hook-returns (bool b) w h = (tt, cc)
  hook-returns (int n) w h = (tt, cc)
  hook-returns (real r) w h = (tt, cc)
  hook-returns (str s) w h = (tt, cc)
  hook-returns (arr xs) w h =
      let (ys, one, h₁) = >>=-eq-ok (hook_items xs) _ h in
      let (u, e) = hook_items-returns xs ys one in (u, cc)
  hook-returns (obj fs) w h =
      let (gs, one, h₁) = >>=-eq-ok (hook_fields fs) _ h in
      let (hs, two, h₂) = >>=-eq-ok (reject_duplicates gs) _ h₁ in
      let (u, e) = hook_fields-returns fs gs one in
      let (k, same) = (reject_duplicates_iff gs hs).0 two in ((subst UniqueKeys e k, u), cc)

  hook_items-returns : (xs ys : Items) → hook_items xs ≡ ok ys → AllUniqueItems xs × (ys ≡ xs)
  hook_items-returns nil ys h = (tt, cc)
  hook_items-returns (cons v xs) ys h =
      let (w, one, h₁) = >>=-eq-ok (hook v) _ h in
      let (zs, two, h₂) = >>=-eq-ok (hook_items xs) _ h₁ in
      let (u, e) = hook-returns v w one in
      let (us, es) = hook_items-returns xs zs two in ((u, us), cc)

  hook_fields-returns : (fs gs : Fields) → hook_fields fs ≡ ok gs → AllUniqueFields fs × (gs ≡ fs)
  hook_fields-returns end gs h = (tt, cc)
  hook_fields-returns (field k v fs) gs h =
      let (w, one, h₁) = >>=-eq-ok (hook v) _ h in
      let (hs, two, h₂) = >>=-eq-ok (hook_fields fs) _ h₁ in
      let (u, e) = hook-returns v w one in
      let (us, es) = hook_fields-returns fs hs two in ((u, us), cc)

mutual
  unfolding hook AllUnique

  hook-accepts : (v : Value) → AllUnique v → hook v ≡ ok v
  hook-accepts null u = refl
  hook-accepts (bool b) u = refl
  hook-accepts (int n) u = refl
  hook-accepts (real r) u = refl
  hook-accepts (str s) u = refl
  hook-accepts (arr xs) u = rw (hook_items-accepts xs u)
  hook-accepts (obj fs) u =
      rw (hook_fields-accepts fs u.1) (rw ((reject_duplicates_iff fs fs).1 (u.0, refl)))

  hook_items-accepts : (xs : Items) → AllUniqueItems xs → hook_items xs ≡ ok xs
  hook_items-accepts nil u = refl
  hook_items-accepts (cons v xs) u = rw (hook-accepts v u.0, hook_items-accepts xs u.1)

  hook_fields-accepts : (fs : Fields) → AllUniqueFields fs → hook_fields fs ≡ ok fs
  hook_fields-accepts end u = refl
  hook_fields-accepts (field k v fs) u = rw (hook-accepts v u.0, hook_fields-accepts fs u.1)

-- Loading a parsed text with `reject_duplicates` as the hook returns the value unchanged, exactly
-- when no object anywhere in it has a key twice.
pub hook_iff : (v w : Value) → (hook v ≡ ok w) ↔ (AllUnique v × (w ≡ v))
hook_iff v w = (hook-returns v w, λ h. hook-accepts v h.0 ∙ ap ok (sym h.1))
