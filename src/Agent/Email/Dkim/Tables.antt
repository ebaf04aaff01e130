-- ===== src/Agent/Email/Dkim/Tables.antt =====
-- What dkim.go does to the lines of OpenDKIM's tables.
use gratis.Agent.Email.Dkim.{signing_entry, marker, key_entry, dkim_selector, kept_lines, kept_text}
use gratis.Text.{contains-append, split-join, bytes, split, Free, join, contains, Str}
use gratis.Base.{
  ◌≢◌, append_assoc, sym, append-nil, ◌∙◌, All-append, ap, inr, false, arith, inl, refl, true,
  Bool-cases, ◌≡◌, ◌++◌, All, List, ◌∷◌, [],
}

kept_lines-append :
    (m : Str) (xs ys : List Str) → kept_lines m (xs ++ ys) ≡ kept_lines m xs ++ kept_lines m ys
unfolding kept_lines
kept_lines-append m [] ys = refl
kept_lines-append m (x ∷ xs) ys = ground (arith, kept_lines-append m xs ys)

-- The line does not contain the text.
abbrev pub Lacks : Str → Str → Type 0
Lacks m line = contains line m ≡ false

kept_lines-Lacks : (m : Str) (xs : List Str) → All (Lacks m) xs → kept_lines m xs ≡ xs
unfolding kept_lines
kept_lines-Lacks m [] h = refl
kept_lines-Lacks m (x ∷ xs) h = rw (h.0, kept_lines-Lacks m xs h.1)

-- Exactly the lines that lack the text are kept, in their order.
pub kept_lines-All : (m : Str) (xs : List Str) → All (Lacks m) (kept_lines m xs)
unfolding kept_lines
kept_lines-All m [] = tt
kept_lines-All m (x ∷ xs) = elim (Bool-cases (contains x m)) [
  | inl e ↦ rw e (kept_lines-All m xs)
  | inr e ↦ rw e (e, kept_lines-All m xs)
]

-- A text whose lines are `lines`, each ended by a newline.
abbrev pub text_of : List Str → Str
text_of lines = join (10 ∷ []) (lines ++ [] ∷ [])

pub split-text_of :
    (lines : List Str) → All (Free 10) lines → split 10 (text_of lines) ≡ lines ++ [] ∷ []
split-text_of [] h = split-join 10 [] [] (tt, tt)
split-text_of (p ∷ lines) h =
    split-join 10 p (lines ++ [] ∷ []) (h.0, All-append (Free 10) lines ([] ∷ []) h.1 (tt, tt))

-- Removing behind appending: a line that contains the marker is appended to a file whose lines all
-- lack it, and the removal gives the file back.
pub kept_text-append :
    (m line : Str) (lines : List Str)
    → All (Free 10) lines
    → All (Lacks m) lines
    → Free 10 line
    → contains line m ≡ true
    → Lacks m []
    → kept_text m (text_of (lines ++ line ∷ [])) ≡ text_of lines
unfolding kept_text
kept_text-append m line lines h k free there nil = ap (join (10 ∷ [])) (
    ap (kept_lines m)
      (split-text_of (lines ++ line ∷ []) (All-append (Free 10) lines (line ∷ []) h (free, tt)))
    ∙ kept_lines-append m (lines ++ line ∷ []) ([] ∷ [])
    ∙ ap (λ l. l ++ kept_lines m ([] ∷ []))
        (kept_lines-append m lines (line ∷ [])
          ∙ ap (λ l. l ++ kept_lines m (line ∷ [])) (kept_lines-Lacks m lines k))
    ∙ (unfold kept_lines in rw (there, nil) (ap (λ l. l ++ [] ∷ []) (append-nil lines))))

text_of-cons : (p : Str) (lines : List Str) → text_of (p ∷ lines) ≡ p ++ (10 ∷ text_of lines)
unfolding join
text_of-cons p [] = refl
text_of-cons p (q ∷ lines) = refl

text_of-append :
    (line : Str) (lines : List Str)
    → text_of (lines ++ line ∷ []) ≡ text_of lines ++ (line ++ 10 ∷ [])
text_of-append line [] = unfold join in refl
text_of-append line (p ∷ lines) =
    text_of-cons p (lines ++ line ∷ [])
    ∙ ap (λ s. p ++ (10 ∷ s)) (text_of-append line lines)
    ∙ sym (
        ap (λ s. s ++ (line ++ 10 ∷ [])) (text_of-cons p lines)
        ∙ append_assoc p (10 ∷ text_of lines) (line ++ 10 ∷ []))

-- The line of the key table, without its newline.
abbrev key_line : Str → Str → Str
key_line domain priv_key =
    dkim_selector
    ++ (bytes "._domainkey."
        ++ (domain
            ++ (bytes " "
                ++ (domain ++ (bytes ":" ++ (dkim_selector ++ (bytes ":" ++ priv_key)))))))

key_entry-key_line : (domain k : Str) → key_entry domain k ≡ key_line domain k ++ 10 ∷ []
unfolding key_entry bytes
key_entry-key_line domain k = simp append_assoc

contains-inner : (a b d more r : Str) → contains (a ++ (b ++ ((d ++ more) ++ r))) (b ++ d) ≡ true
contains-inner a b d more r =
    rw (append_assoc d more r, ← append_assoc b d (more ++ r))
      (contains-append a (b ++ d) (more ++ r))

key_line-marker :
    (domain more k : Str) → contains (key_line (domain ++ more) k) (marker domain) ≡ true
unfolding marker
key_line-marker domain more k = contains-inner dkim_selector (bytes "._domainkey.") domain more _

Free-append : (a b : Str) → Free 10 a → Free 10 b → Free 10 (a ++ b)
Free-append = All-append (λ x. x ≢ 10)

key_line-Free : (domain k : Str) → Free 10 domain → Free 10 k → Free 10 (key_line domain k)
unfolding bytes
key_line-Free domain k f g =
    let mail : Free 10 (bytes "mail") = omega arith in
    let colon : Free 10 (bytes ":") = omega arith in
    let b₁ = Free-append (bytes ":") k colon g in
    let b₂ = Free-append (bytes "mail") (bytes ":" ++ k) mail b₁ in
    let b₃ = Free-append (bytes ":") (bytes "mail" ++ (bytes ":" ++ k)) colon b₂ in
    let tail = bytes ":" ++ (bytes "mail" ++ (bytes ":" ++ k)) in
    let b₄ = Free-append domain tail f b₃ in
    let b₅ = Free-append (bytes " ") (domain ++ tail) (omega arith) b₄ in
    let b₆ = Free-append domain (bytes " " ++ (domain ++ tail)) f b₅ in
    Free-append (bytes "mail") (bytes "._domainkey." ++ (domain ++ (bytes " " ++ (domain ++ tail))))
      mail
      (Free-append (bytes "._domainkey.") (domain ++ (bytes " " ++ (domain ++ tail))) (omega arith)
        b₆)

Lacks-nil : (domain : Str) → Lacks (marker domain) []
unfolding marker contains bytes
Lacks-nil domain = refl

-- RemoveDKIM of a domain undoes what SetupDKIM wrote to the key table for it: behind lines that are
-- not about the domain the entry is removed, and they stay.
pub kept_text-key_entry :
    (domain k : Str) (lines : List Str)
    → Free 10 domain
    → Free 10 k
    → All (Free 10) lines
    → All (Lacks (marker domain)) lines
    → kept_text (marker domain) (text_of lines ++ key_entry domain k) ≡ text_of lines
kept_text-key_entry domain k lines f g h l =
    ap (kept_text (marker domain)) (
      ap (λ s. text_of lines ++ s) (key_entry-key_line domain k)
      ∙ sym (text_of-append (key_line domain k) lines))
    ∙ kept_text-append (marker domain) (key_line domain k) lines h l (key_line-Free domain k f g)
        (ap (λ d. contains (key_line d k) (marker domain)) (sym (append-nil domain))
          ∙ key_line-marker domain [] k)
        (Lacks-nil domain)

-- The same of the entry of a domain whose name begins with it.
pub kept_text-other_domain :
    (domain more k : Str) (lines : List Str)
    → Free 10 (domain ++ more)
    → Free 10 k
    → All (Free 10) lines
    → All (Lacks (marker domain)) lines
    → kept_text (marker domain) (text_of lines ++ key_entry (domain ++ more) k) ≡ text_of lines
kept_text-other_domain domain more k lines f g h l =
    ap (kept_text (marker domain)) (
      ap (λ s. text_of lines ++ s) (key_entry-key_line (domain ++ more) k)
      ∙ sym (text_of-append (key_line (domain ++ more) k) lines))
    ∙ kept_text-append (marker domain) (key_line (domain ++ more) k) lines h l
        (key_line-Free (domain ++ more) k f g) (key_line-marker domain more k) (Lacks-nil domain)

-- The line of the signing table, without its newline.
abbrev signing_line : Str → Str
signing_line domain =
    bytes "*@" ++ (domain ++ (bytes " " ++ (dkim_selector ++ (bytes "._domainkey." ++ domain))))

signing_line-marker : (domain : Str) → contains (signing_line domain) (marker domain) ≡ true
unfolding marker
signing_line-marker domain =
    ap (λ s. contains s (marker domain)) (simp (append_assoc, append-nil))
    ∙ contains-append (bytes "*@" ++ (domain ++ (bytes " " ++ dkim_selector))) (marker domain) []

signing_line-Free : (domain : Str) → Free 10 domain → Free 10 (signing_line domain)
unfolding bytes
signing_line-Free domain f =
    let end = Free-append (bytes "._domainkey.") domain (omega arith) f in
    let b₁ = Free-append (bytes " mail") (bytes "._domainkey." ++ domain) (omega arith) end in
    let b₂ = Free-append domain (bytes " mail._domainkey." ++ domain) f b₁ in
    Free-append (bytes "*@") (domain ++ (bytes " mail._domainkey." ++ domain)) (omega arith) b₂

signing_entry-signing_line : (domain : Str) → signing_entry domain ≡ signing_line domain ++ 10 ∷ []
unfolding signing_entry bytes
signing_entry-signing_line domain = simp append_assoc

-- The same of the signing table.
pub kept_text-signing_entry :
    (domain : Str) (lines : List Str)
    → Free 10 domain
    → All (Free 10) lines
    → All (Lacks (marker domain)) lines
    → kept_text (marker domain) (text_of lines ++ signing_entry domain) ≡ text_of lines
kept_text-signing_entry domain lines f h l =
    ap (kept_text (marker domain)) (
      ap (λ s. text_of lines ++ s) (signing_entry-signing_line domain)
      ∙ sym (text_of-append (signing_line domain) lines))
    ∙ kept_text-append (marker domain) (signing_line domain) lines h l (signing_line-Free domain f)
        (signing_line-marker domain) (Lacks-nil domain)

-- Lines that are not about the domain stay.
pub kept_text-text_of :
    (domain : Str) (lines : List Str)
    → All (Free 10) lines
    → All (Lacks (marker domain)) lines
    → kept_text (marker domain) (text_of lines) ≡ text_of lines
unfolding kept_text
kept_text-text_of domain lines h l = ap (join (10 ∷ [])) (
    ap (kept_lines (marker domain)) (split-text_of lines h)
    ∙ kept_lines-Lacks (marker domain) (lines ++ [] ∷ [])
        (All-append (Lacks (marker domain)) lines ([] ∷ []) l (Lacks-nil domain, tt)))
