-- ===== src/Api/Server/Entries.antt =====
-- The entries of a map with string keys, as lists.
use mathlib.Core.List.Memᴰ.{cases_cons}
use gratis.Text.{str_eq_iff, str_eq, str_keys, Str}
use gratis.Base.{
  refl, All-map_pred, sym, subst, inr, inl, some, ◌≢◌, Bool-cases, ◌≡◌, ◌↔◌, All, List, lookup,
  delete, ◌∷◌, [],
}
use mathlib.Core.List.{Memᴰ, map}

module _ {V : Type 0} where
  abbrev pub keys_of : List (Str × V) → List Str
  keys_of m = map (λ e. e.0) m

  -- No key stands twice in the map.
  abbrev pub Distinct : List (Str × V) → Type 0
  Distinct [] = Unit {0}
  Distinct ((k, v) ∷ m) = All (λ e. e.0 ≢ k) m × Distinct m

  module _ (P : Str × V → Type 0) where
    pub delete-All :
        (k : Str) (m : List (Str × V)) → All P m → All (λ e. P e × (e.0 ≢ k)) (delete str_keys k m)
    unfolding delete
    delete-All k [] h = tt
    delete-All k ((j, v) ∷ m) h = elim (Bool-cases (str_eq j k)) [
      | inl e ↦ rw e (delete-All k m h.1)
      | inr e ↦ rw e ((h.0, λ same. cc (e, (str_eq_iff j k).1 same)), delete-All k m h.1)
    ]

    pub lookup-All :
        (k : Str) (v : V) (m : List (Str × V)) → All P m → lookup str_keys k m ≡ some v → P (k, v)
    unfolding lookup
    lookup-All k v [] h e = cc e
    lookup-All k v ((j, w) ∷ m) h e = elim (Bool-cases (str_eq j k)) [
      | inl t ↦
          let same : (j, w) ≡ (k, v) =
            let jk = (str_eq_iff j k).0 t in let wv : w ≡ v = cc (t, e) in cc (jk, wv) in
          subst P same (h.0)
      | inr t ↦ lookup-All k v m h.1 (cc (t, e))
    ]

  pub delete-Distinct : (k : Str) (m : List (Str × V)) → Distinct m → Distinct (delete str_keys k m)
  unfolding delete
  delete-Distinct k [] h = tt
  delete-Distinct k ((j, v) ∷ m) h = elim (Bool-cases (str_eq j k)) [
    | inl e ↦ rw e (delete-Distinct k m h.1)
    | inr e ↦ rw e (
      All-map_pred _ _ (λ x p. p.0) _ (delete-All (λ e. e.0 ≢ j) k m h.0),
      delete-Distinct k m h.1,
    )
  ]

  pub keys_of-lookup :
      (k : Str) (m : List (Str × V))
      → Memᴰ k (keys_of m) ↔ ((v : V) × (lookup str_keys k m ≡ some v))
  unfolding lookup
  keys_of-lookup k [] = ((λ h. elim h [ ]), λ (v, e). cc e)
  keys_of-lookup k ((j, w) ∷ m) = elim (Bool-cases (str_eq j k)) [
    | inl e ↦ (λ h. (w, rw e refl), λ h. Memᴰ.head (sym ((str_eq_iff j k).0 e)))
    | inr e ↦ (
      λ h. elim (cases_cons h) [
        | inl same ↦ absurd (cc (e, (str_eq_iff j k).1 (sym same)))
        | inr there ↦ let (v, p) = (keys_of-lookup k m).0 there in (v, rw e p)
      ],
      λ (v, p). Memᴰ.tail ((keys_of-lookup k m).1 (v, cc (e, p))),
    )
  ]
