-- ===== src/Text/Format.antt =====
-- `fmt.Sprintf` at the verbs %s, %d, %v and %w, whose argument is given as its text, and %q. Bytes
-- from 128 on are quoted as they are: %q escapes only those of unprintable runes.
use gratis.Base.{ℕ, ◌+◌, ◌/◌, ◌%◌, ◌≡◌, refl, ◌||◌, List, [], ◌∷◌, ◌++◌, if◌then◌else◌, ltb, ◌==◌}
use gratis.Text.Bytes.{Str, bytes}

hex_digit : ℕ → ℕ
hex_digit d = if ltb d 10 then 48 + d else 87 + d

quote_byte : ℕ → Str
unfolding hex_digit
quote_byte b =
    if b == 34 || b == 92
    then 92 ∷ b ∷ []
    else if b == 10
    then 92 ∷ b'n' ∷ []
    else if b == 13
    then 92 ∷ b'r' ∷ []
    else if b == 9
    then 92 ∷ b't' ∷ []
    else if b == 7
    then 92 ∷ b'a' ∷ []
    else if b == 8
    then 92 ∷ b'b' ∷ []
    else if b == 12
    then 92 ∷ b'f' ∷ []
    else if b == 11
    then 92 ∷ b'v' ∷ []
    else if ltb b 32 || b == 127
    then 92 ∷ b'x' ∷ hex_digit (b / 16) ∷ hex_digit (b % 16) ∷ []
    else b ∷ []

quote_bytes : Str → Str
unfolding quote_byte
quote_bytes [] = 34 ∷ []
quote_bytes (b ∷ s) = quote_byte b ++ quote_bytes s

-- %q
unfoldable pub quote : Str → Str
unfolding quote_bytes
quote s = 34 ∷ quote_bytes s

-- The text of a format with its arguments; a verb with no argument left is kept.
unfoldable pub format : Str → List Str → Str
unfolding quote
format [] args = []
format (b ∷ f) [] = b ∷ format f []
format (b ∷ []) (a ∷ args) = b ∷ []
format (b ∷ v ∷ f) (a ∷ args) =
    let verb = (if v == b'q' then quote a else a) ++ format f args in
    let plain = b ∷ format (v ∷ f) (a ∷ args) in if b == b'%' then verb else plain

format_tests :
    format (bytes "user %q: %d") (bytes "a\"b" ∷ bytes "7" ∷ []) ≡ bytes "user \"a\\\"b\": 7"
unfolding format bytes
format_tests = refl
