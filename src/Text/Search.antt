-- ===== src/Text/Search.antt =====
-- `strings.HasPrefix`, `strings.HasSuffix` and `strings.Contains`.
use gratis.Base.{
  ◌≡◌, refl, Bool, true, false, ◌&&◌, ◌||◌, [], ◌∷◌, ◌++◌, arith, ◌==◌, append_assoc, Bool-cases,
  inl, inr,
}
use gratis.Text.Bytes.{Str, str_eq, str_eq_iff, str_eq_refl}

unfoldable pub has_prefix : Str → Str → Bool
has_prefix s [] = true
has_prefix [] (b ∷ p) = false
has_prefix (a ∷ s) (b ∷ p) = a == b && has_prefix s p

unfoldable pub has_suffix : Str → Str → Bool
unfolding str_eq
has_suffix [] p = str_eq [] p
has_suffix (a ∷ s) p = str_eq (a ∷ s) p || has_suffix s p

unfoldable pub contains : Str → Str → Bool
unfolding has_prefix
contains [] p = has_prefix [] p
contains (a ∷ s) p = has_prefix (a ∷ s) p || contains s p

has_prefix-append : (p s : Str) → has_prefix (p ++ s) p ≡ true
unfolding has_prefix
has_prefix-append [] s = refl
has_prefix-append (a ∷ p) s = ground (arith, has_prefix-append p s)

contains_of_prefix : (s p : Str) → has_prefix s p ≡ true → contains s p ≡ true
unfolding contains
contains_of_prefix [] p h = h
contains_of_prefix (a ∷ s) p h = ground arith

pub contains-append : (l p r : Str) → contains (l ++ (p ++ r)) p ≡ true
unfolding contains
contains-append [] p r = contains_of_prefix (p ++ r) p (has_prefix-append p r)
contains-append (a ∷ l) p r = ground (arith, contains-append l p r)

pub has_suffix-append : (l p : Str) → has_suffix (l ++ p) p ≡ true
unfolding has_suffix
has_suffix-append [] [] = refl
has_suffix-append [] (b ∷ p) = ground (arith, str_eq_refl (b ∷ p))
has_suffix-append (a ∷ l) p = ground (arith, has_suffix-append l p)

-- What a suffix is.
pub has_suffix-eq-append : (s p : Str) → has_suffix s p ≡ true → (l : Str) × (s ≡ l ++ p)
unfolding has_suffix
has_suffix-eq-append [] p h = ([], (str_eq_iff [] p).0 h)
has_suffix-eq-append (a ∷ s) p h = elim (Bool-cases (str_eq (a ∷ s) p)) [
  | inl e ↦ ([], (str_eq_iff (a ∷ s) p).0 e)
  | inr e ↦
      let rest : has_suffix s p ≡ true = ground arith in
      let (l, q) = has_suffix-eq-append s p rest in (a ∷ l, ground arith)
]

pub has_suffix-last : (s t p : Str) → has_suffix t p ≡ true → has_suffix (s ++ t) p ≡ true
has_suffix-last s t p h =
    let (l, q) = has_suffix-eq-append t p h in rw (q, ← append_assoc) (has_suffix-append (s ++ l) p)
