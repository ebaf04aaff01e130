-- ===== src/Text/Spaces/Fields.antt =====
-- `strings.Fields` of words with a space between them.
use gratis.Base.{
  ◌≡◌, ◌≢◌, refl, sym, ap, ◌∙◌, false, List, [], ◌∷◌, ◌++◌, All, append_assoc, append-nil,
}
use gratis.Text.Bytes.{Str}
use gratis.Text.Split.{join}
use gratis.Text.Spaces.{is_space, emit, fields_from, fields}

-- A word without a space.
abbrev pub NoSpace : Str → Type 0
NoSpace = All (λ b. is_space b ≡ false)

fields_from-word :
    (word w s : Str)
    → NoSpace w
    → fields_from word (w ++ 32 ∷ s) ≡ emit (word ++ w) (fields_from [] s)
unfolding fields_from is_space
fields_from-word word [] s h = ap (λ x. emit x (fields_from [] s)) (sym (append-nil word))
fields_from-word word (b ∷ w) s h = rw h.0 (
    fields_from-word (word ++ b ∷ []) w s h.1
    ∙ ap (λ x. emit x (fields_from [] s)) (append_assoc word (b ∷ []) w))

fields_from-last : (word w : Str) → NoSpace w → fields_from word w ≡ emit (word ++ w) []
unfolding fields_from is_space
fields_from-last word [] h = ap (λ x. emit x []) (sym (append-nil word))
fields_from-last word (b ∷ w) h =
    rw h.0
      (fields_from-last (word ++ b ∷ []) w h.1 ∙ ap (λ x. emit x []) (append_assoc word (b ∷ []) w))

emit_word : (w : Str) (rest : List Str) → w ≢ [] → emit w rest ≡ w ∷ rest
emit_word [] rest h = absurd (h refl)
emit_word (b ∷ w) rest h = refl

-- The first word, and a space at the front.
pub fields-word : (w s : Str) → w ≢ [] → NoSpace w → fields (w ++ 32 ∷ s) ≡ w ∷ fields s
unfolding fields
fields-word w s n h = fields_from-word [] w s h ∙ emit_word w (fields s) n

pub fields-space : (s : Str) → fields (32 ∷ s) ≡ fields s
unfolding fields fields_from is_space
fields-space s = refl

-- The words of a text with one space between two of them.
pub fields-join :
    (w : Str) (words : List Str)
    → All (λ x. (x ≢ []) × NoSpace x) (w ∷ words)
    → fields (join (32 ∷ []) (w ∷ words)) ≡ w ∷ words
unfolding fields join
fields-join w [] h = fields_from-last [] w h.0.1 ∙ emit_word w [] h.0.0
fields-join w (x ∷ words) h =
    fields-word w (join (32 ∷ []) (x ∷ words)) h.0.0 h.0.1
    ∙ ap (λ l. w ∷ l) (fields-join x words h.1)
