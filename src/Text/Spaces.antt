-- ===== src/Text/Spaces.antt =====
-- `strings.TrimRight`, `strings.TrimSpace`, `strings.Fields` and `strings.ToUpper`. Spaces are
-- the ASCII ones: the texts that are trimmed or split come from procfs, openssl and doveadm.
pub mod Fields
use gratis.Base.{
  ℕ, ◌-◌, ◌≡◌, refl, Bool, ◌&&◌, ◌||◌, List, [], ◌∷◌, ◌++◌, map, ltb, leb, ◌==◌, if◌then◌else◌, all,
}
use gratis.Text.Bytes.{Str, bytes}

unfoldable pub is_space : ℕ → Bool
is_space b = b == 32 || (leb 9 b && leb b 13)

-- Drops the longest end whose bytes all pass the test: strings.TrimRight(s, "/") at `λ b. b == 47`.
unfoldable pub trim_end : (ℕ → Bool) → Str → Str
trim_end p [] = []
trim_end p (b ∷ s) = elim (trim_end p s) [ [] ↦ if p b then [] else b ∷ [] | d ∷ r ↦ b ∷ d ∷ r ]

trim_start : (ℕ → Bool) → Str → Str
trim_start p [] = []
trim_start p (b ∷ s) = if p b then trim_start p s else b ∷ s

unfoldable pub trim_space : Str → Str
unfolding trim_start trim_end is_space
trim_space s = trim_end is_space (trim_start is_space s)

-- A finished field, if it has a byte.
abbrev pub emit : Str → List Str → List Str
emit [] rest = rest
emit (b ∷ w) rest = (b ∷ w) ∷ rest

pub fields_from : Str → Str → List Str
unfolding is_space
fields_from word [] = emit word []
fields_from word (b ∷ s) =
    let closed = emit word (fields_from [] s) in
    let longer = fields_from (word ++ b ∷ []) s in if is_space b then closed else longer

unfoldable pub fields : Str → List Str
unfolding fields_from
fields s = fields_from [] s

upper_byte : ℕ → ℕ
upper_byte b = if leb b'a' b && leb b b'z' then b - 32 else b

-- As in Go, ASCII is mapped byte by byte; `wide` stands for the Unicode case tables.
unfoldable pub to_upper : (Str → Str) → Str → Str
unfolding upper_byte
to_upper wide s = if all (λ b. ltb b 128) s then map upper_byte s else wide s

spaces_tests :
    (fields (bytes " cpu  12\t3\n") ≡ bytes "cpu" ∷ bytes "12" ∷ bytes "3" ∷ [])
    × (trim_space (bytes "\t a b \n") ≡ bytes "a b")
    × (to_upper (λ s. s) (bytes "mx") ≡ bytes "MX")
    × (trim_end (λ b. b == 47) (bytes "http://h//") ≡ bytes "http://h")
unfolding fields trim_space to_upper trim_end bytes
spaces_tests = (refl, refl, refl, refl)
