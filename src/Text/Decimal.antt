-- ===== src/Text/Decimal.antt =====
-- Decimal numerals: `%d`, and the value of `strconv.ParseUint(s, 10, 64)` with its error ignored.
use gratis.Base.{
  All, ◌≢◌, ℕ, zero, suc, ◌+◌, ◌-◌, ◌*◌, ◌/◌, ◌%◌, ◌^◌, ◌≤◌, ◌<◌, ◌≡◌, refl, Bool, not, ◌&&◌, [],
  ◌∷◌, arith, ltb, leb, if◌then◌else◌, Bool-cases, inl, inr,
}
use gratis.Text.Bytes.{Str, bytes}

unfoldable pub is_digit : ℕ → Bool
is_digit b = leb b'0' b && leb b b'9'

abbrev pub digit_value : ℕ → ℕ
digit_value b = b - 48

-- The digits of a number before those of `acc`; a number below the fuel has enough.
decimal_from : ℕ → ℕ → Str → Str
decimal_from zero n acc = acc
decimal_from (suc f) n acc =
    let rest = decimal_from f (n / 10) ((48 + n % 10) ∷ acc) in
    if ltb n 10 then (48 + n) ∷ acc else rest

unfoldable pub decimal : ℕ → Str
unfolding decimal_from
decimal n = decimal_from (suc n) n []

abbrev max_uint64 : ℕ
max_uint64 = 2 ^ 64 - 1

-- The loop of ParseUint: a byte that is no digit gives 0, a number out of range gives the largest.
parse_from : ℕ → Str → ℕ
unfolding is_digit
parse_from n [] = n
parse_from n (b ∷ s) =
    let rest = parse_from (n * 10 + digit_value b) s in
    if not (is_digit b)
    then 0
    else if leb (max_uint64 / 10 + 1) n
    then max_uint64
    else if ltb max_uint64 (n * 10 + digit_value b)
    then max_uint64
    else rest

unfoldable pub parse_uint : Str → ℕ
unfolding parse_from
parse_uint [] = 0
parse_uint (b ∷ s) = parse_from 0 (b ∷ s)

-- The value lies in range, whatever the text.
parse_from-le : (n : ℕ) (s : Str) → n ≤ max_uint64 → parse_from n s ≤ max_uint64
unfolding parse_from
parse_from-le n [] h = h
parse_from-le n (b ∷ s) h = ground (arith, parse_from-le (n * 10 + digit_value b) s)

pub parse_uint-lt : (s : Str) → parse_uint s < 2 ^ 64
unfolding parse_uint
parse_uint-lt [] = omega arith
parse_uint-lt (b ∷ s) = omega (arith, parse_from-le 0 (b ∷ s) (omega arith))

-- Reading on after the digits of `n`.
digit_step :
    (m d : ℕ) (s : Str)
    → d < 10
    → m * 10 + d ≤ max_uint64
    → parse_from m ((48 + d) ∷ s) ≡ parse_from (m * 10 + d) s
unfolding parse_from
digit_step m d s h k = ground arith

parse_from-decimal_from :
    (f n : ℕ) (acc : Str)
    → n < f
    → n ≤ max_uint64
    → parse_from 0 (decimal_from f n acc) ≡ parse_from n acc
unfolding decimal_from
parse_from-decimal_from zero n acc h k = absurd (omega arith)
parse_from-decimal_from (suc f) n acc h k = elim (Bool-cases (ltb n 10)) [
  | inl small ↦ rw small (ground (arith, digit_step 0 n acc))
  | inr large ↦ rw large (
      ground (
        arith,
        parse_from-decimal_from f (n / 10) ((48 + n % 10) ∷ acc) (ground arith) (omega arith),
        digit_step (n / 10) (n % 10) acc (omega arith) (omega arith),
      ))
]

parse_uint-eq-parse_from : (s : Str) → parse_uint s ≡ parse_from 0 s
unfolding parse_uint
parse_uint-eq-parse_from [] = refl
parse_uint-eq-parse_from (b ∷ s) = refl

-- A printed number is read back.
pub parse_uint-decimal : (n : ℕ) → n < 2 ^ 64 → parse_uint (decimal n) ≡ n
unfolding decimal
parse_uint-decimal n h =
    rw (parse_uint-eq-parse_from, parse_from-decimal_from (suc n) n [] (omega arith) (omega arith))
      (unfold parse_from in refl)

-- A numeral has a digit, and nothing else.
abbrev pub IsDigits : Str → Type 0
IsDigits s = (s ≢ []) × All (λ b. (48 ≤ b) × (b ≤ 57)) s

decimal_from-IsDigits : (f n : ℕ) (acc : Str) → IsDigits acc → IsDigits (decimal_from f n acc)
unfolding decimal_from
decimal_from-IsDigits zero n acc h = h
decimal_from-IsDigits (suc f) n acc h = elim (Bool-cases (ltb n 10)) [
  | inl small ↦ rw small ((λ e. cc e), ((ground arith, ground arith), h.1))
  | inr large ↦ rw large (
      decimal_from-IsDigits f (n / 10) ((48 + n % 10) ∷ acc)
        ((λ e. cc e), ((omega arith, omega arith), h.1)))
]

pub decimal-IsDigits : (n : ℕ) → IsDigits (decimal n)
unfolding decimal decimal_from
decimal-IsDigits n = elim (Bool-cases (ltb n 10)) [
  | inl small ↦ rw small ((λ e. cc e), ((ground arith, ground arith), tt))
  | inr large ↦ rw large (
      decimal_from-IsDigits n (n / 10) ((48 + n % 10) ∷ [])
        ((λ e. cc e), ((omega arith, omega arith), tt)))
]

decimal_tests :
    (decimal 1050 ≡ bytes "1050")
    × (decimal 0 ≡ bytes "0")
    × (parse_uint (bytes "1050") ≡ 1050)
    × (parse_uint (bytes "10x") ≡ 0)
unfolding decimal parse_uint bytes
decimal_tests = (refl, refl, refl, refl)
