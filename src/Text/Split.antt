-- ===== src/Text/Split.antt =====
-- `strings.Split`, `strings.Join` and `strings.SplitN(_, _, 2)`, at a separator of one byte.
use gratis.Base.{
  ℕ, ◌≡◌, ◌≢◌, refl, ap, Option, none, some, List, [], ◌∷◌, ◌++◌, arith, ◌==◌, if◌then◌else◌, All,
  Bool-cases, Option-cases, inl, inr, ◌∙◌,
}
use gratis.Text.Bytes.{Str}

-- The byte does not occur in the text.
abbrev pub Free : ℕ → Str → Type 0
Free c s = All (λ x. x ≢ c) s

-- A byte more at the head of the first piece.
abbrev push : ℕ → List Str → List Str
push b [] = (b ∷ []) ∷ []
push b (p ∷ ps) = (b ∷ p) ∷ ps

-- strings.Split(s, c): at least one piece.
unfoldable pub split : ℕ → Str → List Str
split c [] = [] ∷ []
split c (b ∷ s) = let rest = split c s in if b == c then [] ∷ rest else push b rest

-- strings.Join(pieces, sep)
unfoldable pub join : Str → List Str → Str
join sep [] = []
join sep (p ∷ []) = p
join sep (p ∷ q ∷ ps) = p ++ (sep ++ join sep (q ∷ ps))

abbrev before : ℕ → Option (Str × Str) → Option (Str × Str)
before b none = none
before b (some (l, r)) = some (b ∷ l, r)

-- strings.SplitN(s, c, 2): the parts around the first `c`, or `none` for the one-element result
unfoldable pub cut : ℕ → Str → Option (Str × Str)
cut c [] = none
cut c (b ∷ s) = let rest = cut c s in if b == c then some ([], s) else before b rest

pub cut-append : (c : ℕ) (l r : Str) → Free c l → cut c (l ++ c ∷ r) ≡ some (l, r)
unfolding cut
cut-append c [] r h = ground arith
cut-append c (b ∷ l) r h = ground (arith, cut-append c l r h.1)

pub cut_sound : (c : ℕ) (s l r : Str) → cut c s ≡ some (l, r) → (s ≡ l ++ c ∷ r) × Free c l
unfolding cut
cut_sound c [] l r h = ground arith
cut_sound c (b ∷ s) l r h = elim (Option-cases (cut c s)) [
  | inl e ↦ ground arith
  | inr (p, e) ↦ ground (arith, cut_sound c s p.0 p.1 e)
]

pub cut-none : (c : ℕ) (s : Str) → cut c s ≡ none → Free c s
unfolding cut
cut-none c [] h = tt
cut-none c (b ∷ s) h = ground (arith, cut-none c s)

pub cut-Free : (c : ℕ) (s : Str) → Free c s → cut c s ≡ none
unfolding cut
cut-Free c [] h = refl
cut-Free c (b ∷ s) h = ground (arith, cut-Free c s h.1)

split-ne-nil : (c : ℕ) (s : Str) → split c s ≢ []
unfolding split
split-ne-nil c [] h = cc
split-ne-nil c (b ∷ s) h = ground (arith, split-ne-nil c s)

join-push : (c b : ℕ) (ps : List Str) → ps ≢ [] → join (c ∷ []) (push b ps) ≡ b ∷ join (c ∷ []) ps
unfolding join
join-push c b [] h = absurd (h refl)
join-push c b (p ∷ []) h = refl
join-push c b (p ∷ q ∷ ps) h = refl

join-nil_cons : (c : ℕ) (ps : List Str) → ps ≢ [] → join (c ∷ []) ([] ∷ ps) ≡ c ∷ join (c ∷ []) ps
unfolding join
join-nil_cons c [] h = absurd (h refl)
join-nil_cons c (p ∷ ps) h = refl

-- Joining the pieces by the separator gives the text back.
pub join-split : (c : ℕ) (s : Str) → join (c ∷ []) (split c s) ≡ s
unfolding split
join-split c [] = unfold join in refl
join-split c (b ∷ s) = ground (
  arith,
  join-split c s,
  split-ne-nil c s,
  join-push c b (split c s),
  join-nil_cons c (split c s),
)

push-Free : (c b : ℕ) (ps : List Str) → b ≢ c → All (Free c) ps → All (Free c) (push b ps)
push-Free c b [] h k = ((h, tt), tt)
push-Free c b (p ∷ ps) h k = ((h, k.0), k.1)

-- No piece holds the separator.
pub split-Free : (c : ℕ) (s : Str) → All (Free c) (split c s)
unfolding split
split-Free c [] = (tt, tt)
split-Free c (b ∷ s) = elim (Bool-cases (b == c)) [
  | inl e ↦ rw e (tt, split-Free c s)
  | inr e ↦ rw e (push-Free c b (split c s) (ground arith) (split-Free c s))
]

pub split-append : (c : ℕ) (p s : Str) → Free c p → split c (p ++ c ∷ s) ≡ p ∷ split c s
unfolding split
split-append c [] s h = ground arith
split-append c (b ∷ p) s h = rw (split-append c p s h.1, split) (ground arith)

pub split_of_Free : (c : ℕ) (p : Str) → Free c p → split c p ≡ p ∷ []
unfolding split
split_of_Free c [] h = refl
split_of_Free c (b ∷ p) h = ground (arith, split_of_Free c p h.1)

-- Splitting what was joined gives the pieces back.
pub split-join :
    (c : ℕ) (p : Str) (ps : List Str)
    → All (Free c) (p ∷ ps)
    → split c (join (c ∷ []) (p ∷ ps)) ≡ p ∷ ps
unfolding join
split-join c p [] h = split_of_Free c p h.0
split-join c p (q ∷ ps) h =
    split-append c p (join (c ∷ []) (q ∷ ps)) h.0 ∙ ap (λ r. p ∷ r) (split-join c q ps h.1)
