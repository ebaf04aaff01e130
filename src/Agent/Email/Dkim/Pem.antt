-- ===== src/Agent/Email/Dkim/Pem.antt =====
-- The value that SetupDKIM of dkim.go returns for the DNS.
use gratis.Agent.Email.Dkim.Steps.{setup_dkim-value, with_pair}
use gratis.Host.{ok, read_file, Trace, Env}
use gratis.Agent.Email.Dkim.Tables.{split-text_of, text_of}
use gratis.Text.{str_eq_iff, has_prefix, str_eq, trim_space, bytes, join, Free, Str}
use gratis.Agent.Email.Dkim.{setup_dkim, public_key, pem_line, strip_lines, strip_pem}
use gratis.Base.{
  append_assoc, All-map_pred, ◌∙◌, append-nil, All-append, ap, arith, refl, inr, sym, inl, false,
  ◌++◌, Bool-cases, All, ◌≡◌, List, ◌∷◌, [],
}

-- A line of the base64 text of a key: no newline, no space at its ends, and not a line of dashes.
pub record IsKeyLine (line : Str) : Type 0 where
  pub one_line : Free 10 line
  pub trimmed : trim_space line ≡ line
  pub not_dashed : has_prefix line (bytes "-----") ≡ false

-- A public key as openssl writes it.
abbrev pub pem_text : List Str → Str
pem_text lines =
    text_of (bytes "-----BEGIN PUBLIC KEY-----" ∷ (lines ++ bytes "-----END PUBLIC KEY-----" ∷ []))

pem_line-IsKeyLine : (line : Str) → IsKeyLine line → pem_line line ≡ line
unfolding pem_line
pem_line-IsKeyLine line k = elim (Bool-cases (str_eq line [])) [
  | inl e ↦ rw (pem_line, k.trimmed, e) (sym ((str_eq_iff line []).0 e))
  | inr e ↦ rw (pem_line, k.trimmed, e, k.not_dashed) refl
]

join-cons : (p : Str) (ps : List Str) → join [] (p ∷ ps) ≡ p ++ join [] ps
unfolding join
join-cons p [] = sym (append-nil p)
join-cons p (q ∷ ps) = refl

strip_lines-append :
    (lines : List Str) (more : List Str)
    → All IsKeyLine lines
    → strip_lines (lines ++ more) ≡ join [] lines ++ strip_lines more
unfolding strip_lines join
strip_lines-append [] more h = refl
strip_lines-append (p ∷ lines) more h =
    ap (λ l. l ++ strip_lines (lines ++ more)) (pem_line-IsKeyLine p h.0)
    ∙ ap (λ l. p ++ l) (strip_lines-append lines more h.1)
    ∙ sym (
        ap (λ l. l ++ strip_lines more) (join-cons p lines)
        ∙ append_assoc p (join [] lines) (strip_lines more))

header-Free : Free 10 (bytes "-----BEGIN PUBLIC KEY-----")
unfolding bytes
header-Free = omega arith

footer-Free : Free 10 (bytes "-----END PUBLIC KEY-----")
unfolding bytes
footer-Free = omega arith

dashes_stripped :
    (lines : List Str)
    → strip_lines (bytes "-----BEGIN PUBLIC KEY-----" ∷ lines) ≡ strip_lines lines
unfolding strip_lines pem_line trim_space str_eq has_prefix bytes
dashes_stripped lines = refl

ends_stripped : strip_lines (bytes "-----END PUBLIC KEY-----" ∷ [] ∷ []) ≡ []
unfolding strip_lines pem_line trim_space str_eq has_prefix bytes
ends_stripped = refl

-- The lines between those of dashes are joined.
pub strip_pem-pem_text :
    (lines : List Str) → All IsKeyLine lines → strip_pem (pem_text lines) ≡ join [] lines
unfolding strip_pem strip_lines
strip_pem-pem_text lines h =
    let header = bytes "-----BEGIN PUBLIC KEY-----" in
    let footer = bytes "-----END PUBLIC KEY-----" in
    let free : All (Free 10) (lines ++ footer ∷ []) =
      All-append (Free 10) lines (footer ∷ []) (All-map_pred _ _ (λ x k. k.one_line) lines h)
        (footer-Free, tt) in
    ap strip_lines (split-text_of (header ∷ (lines ++ footer ∷ [])) (header-Free, free))
    ∙ ap (λ l. strip_lines (header ∷ l)) (append_assoc lines (footer ∷ []) ([] ∷ []))
    ∙ dashes_stripped (lines ++ footer ∷ [] ∷ [])
    ∙ strip_lines-append lines (footer ∷ [] ∷ []) h
    ∙ ap (λ l. join [] lines ++ l) ends_stripped
    ∙ append-nil (join [] lines)

-- Where the file of the public key reads as openssl writes it, SetupDKIM that succeeds returns the TXT
-- record of the key: "v=DKIM1; k=rsa; p=" and the base64 text in one piece.
pub setup_dkim-returns :
    (env : Env) (domain : Str) (t : Trace) (v : Str) (lines : List Str)
    → All IsKeyLine lines
    → (env (with_pair domain t) (read_file (public_key domain))).text ≡ pem_text lines
    → (setup_dkim env domain t).0 ≡ ok v
    → v ≡ bytes "v=DKIM1; k=rsa; p=" ++ join [] lines
setup_dkim-returns env domain t v lines h read success =
    setup_dkim-value env domain t v success
    ∙ ap (λ s. bytes "v=DKIM1; k=rsa; p=" ++ strip_pem s) read
    ∙ ap (λ s. bytes "v=DKIM1; k=rsa; p=" ++ s) (strip_pem-pem_text lines h)
