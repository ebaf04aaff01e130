-- ===== src/Text/Join.antt =====
-- `filepath.Join` below a clean rooted directory: what it gives for any relative path, for a
-- plain name, and for a path that climbs.
use gratis.Base.{
  Bool, not, ◌&&◌, ◌==◌, all, and-eq-true, ◌≡◌, ◌≢◌, refl, sym, ap, ◌∙◌, ◌≡⟨◌⟩◌, ◌∎, true, List, [],
  ◌∷◌, ◌++◌, arith, All, All-append, append_assoc, append-nil,
}
use mathlib.Core.List.{reverse, reverse-cons, reverse-append, reverse-reverse}
use gratis.Text.Bytes.{str_eq, Str, bytes, str_eq_iff}
use gratis.Text.Split.{split, join, Free, split-append, split_of_Free}
use gratis.Text.FilePath.{clean, clean_from, clean_step, is_rooted, join_path}

-- A path element that is a name: not empty, not "." or "..", and free of slashes.
pub record IsName (s : Str) : Type 0 where
  pub not_empty : s ≢ []
  pub not_dot : s ≢ 46 ∷ []
  pub not_dots : s ≢ 46 ∷ 46 ∷ []
  pub no_slash : Free 47 s

-- The rooted path with these elements.
abbrev pub rooted : List Str → Str
rooted elements = 47 ∷ join (47 ∷ []) elements

clean_step_name : (stack : List Str) (s : Str) → IsName s → clean_step true stack s ≡ s ∷ stack
unfolding clean_step bytes
clean_step_name stack s n = ground (
  arith,
  str_eq_iff s [],
  str_eq_iff s (46 ∷ []),
  str_eq_iff s (46 ∷ 46 ∷ []),
  n.not_empty,
  n.not_dot,
  n.not_dots,
)

clean_from_names :
    (stack parts rest : List Str)
    → All IsName parts
    → clean_from true stack (parts ++ rest) ≡ clean_from true (reverse parts ++ stack) rest
unfolding clean_from
clean_from_names stack [] rest h = refl
clean_from_names stack (p ∷ parts) rest h =
    clean_from true (clean_step true stack p) (parts ++ rest)
    ≡⟨ ap (λ s. clean_from true s (parts ++ rest)) (clean_step_name stack p h.0) ⟩
      clean_from true (p ∷ stack) (parts ++ rest)
    ≡⟨ clean_from_names (p ∷ stack) parts rest h.1 ⟩
      clean_from true (reverse parts ++ p ∷ stack) rest
    ≡⟨ (simp (reverse-cons, append_assoc)) ⟩ clean_from true (reverse (p ∷ parts) ++ stack) rest ∎

split-rooted :
    (d : Str) (dir : List Str) (rel : Str)
    → All IsName (d ∷ dir)
    → split 47 (join (47 ∷ []) (d ∷ dir) ++ 47 ∷ rel) ≡ (d ∷ dir) ++ split 47 rel
unfolding join
split-rooted d [] rel h = split-append 47 d rel h.0.no_slash
split-rooted d (e ∷ dir) rel h = rw (append_assoc d (47 ∷ join (47 ∷ []) (e ∷ dir)) (47 ∷ rel)) (
    split-append 47 d (join (47 ∷ []) (e ∷ dir) ++ 47 ∷ rel) h.0.no_slash
    ∙ ap (λ r. d ∷ r) (split-rooted e dir rel h.1))

-- Joining a relative path to a directory: its elements are resolved from the directory's.
pub join_path-rooted :
    (d : Str) (dir : List Str) (rel : Str)
    → All IsName (d ∷ dir)
    → join_path (rooted (d ∷ dir) ∷ rel ∷ [])
      ≡ rooted (clean_from true (reverse (d ∷ dir)) (split 47 rel))
unfolding join_path clean is_rooted join
join_path-rooted d dir rel h =
    ap (λ l. rooted (clean_from true [] l)) (split-rooted d dir rel h)
    ∙ ap rooted (clean_from_names [] (d ∷ dir) (split 47 rel) h)
    ∙ ap (λ s. rooted (clean_from true s (split 47 rel))) (append-nil (reverse (d ∷ dir)))

-- A name is joined with one slash.
pub join_path-name :
    (d : Str) (dir : List Str) (x : Str)
    → All IsName (d ∷ dir)
    → IsName x
    → join_path (rooted (d ∷ dir) ∷ x ∷ []) ≡ rooted ((d ∷ dir) ++ x ∷ [])
unfolding clean_from
join_path-name d dir x h n =
    join_path (rooted (d ∷ dir) ∷ x ∷ [])
    ≡⟨ join_path-rooted d dir x h ⟩ rooted (clean_from true (reverse (d ∷ dir)) (split 47 x))
    ≡⟨ ap (λ l. rooted (clean_from true (reverse (d ∷ dir)) l)) (split_of_Free 47 x n.no_slash) ⟩
      rooted (reverse (clean_step true (reverse (d ∷ dir)) x))
    ≡⟨ ap (λ l. rooted (reverse l)) (clean_step_name (reverse (d ∷ dir)) x n) ⟩
      rooted (reverse (x ∷ reverse (d ∷ dir)))
    ≡⟨ ap rooted
        (reverse-cons x (reverse (d ∷ dir)) ∙ ap (λ l. l ++ x ∷ []) (reverse-reverse (d ∷ dir))) ⟩
      rooted ((d ∷ dir) ++ x ∷ []) ∎

-- An empty path gives the directory itself.
pub join_path-empty :
    (d : Str) (dir : List Str)
    → All IsName (d ∷ dir)
    → join_path (rooted (d ∷ dir) ∷ [] ∷ []) ≡ rooted (d ∷ dir)
unfolding clean_from clean_step split
join_path-empty d dir h = join_path-rooted d dir [] h ∙ ap rooted (reverse-reverse (d ∷ dir))

clean_step_dots :
    (stack : List Str) (s : Str) → IsName s → clean_step true (s ∷ stack) (46 ∷ 46 ∷ []) ≡ stack
unfolding clean_step bytes
clean_step_dots stack s n = ground (arith, str_eq_iff s (46 ∷ 46 ∷ []), n.not_dots)

-- A path that begins with "../" leaves the directory.
pub join_path-climb :
    (d : Str) (dir : List Str) (last x : Str)
    → All IsName (d ∷ dir)
    → IsName last
    → IsName x
    → join_path (rooted ((d ∷ dir) ++ last ∷ []) ∷ (46 ∷ 46 ∷ 47 ∷ x) ∷ [])
      ≡ rooted ((d ∷ dir) ++ x ∷ [])
unfolding clean_from split
join_path-climb d dir last x h m n =
    join_path (rooted ((d ∷ dir) ++ last ∷ []) ∷ (46 ∷ 46 ∷ 47 ∷ x) ∷ [])
    ≡⟨ join_path-rooted d (dir ++ last ∷ []) (46 ∷ 46 ∷ 47 ∷ x)
        (All-append IsName (d ∷ dir) (last ∷ []) h (m, tt)) ⟩
      rooted (
        clean_from true (clean_step true (reverse (d ∷ dir ++ last ∷ [])) (46 ∷ 46 ∷ []))
          (split 47 x))
    ≡⟨ ap (λ s. rooted (clean_from true (clean_step true s (46 ∷ 46 ∷ [])) (split 47 x)))
        (reverse-append (d ∷ dir) (last ∷ [])) ⟩
      rooted
        (clean_from true (clean_step true (last ∷ reverse (d ∷ dir)) (46 ∷ 46 ∷ [])) (split 47 x))
    ≡⟨ ap (λ s. rooted (clean_from true s (split 47 x)))
        (clean_step_dots (reverse (d ∷ dir)) last m) ⟩
      rooted (clean_from true (reverse (d ∷ dir)) (split 47 x))
    ≡⟨ sym (join_path-rooted d dir x h) ∙ join_path-name d dir x h n ⟩
      rooted ((d ∷ dir) ++ x ∷ []) ∎

join_path-three :
    (a x rel : Str)
    → join_path ((47 ∷ a) ∷ x ∷ rel ∷ []) ≡ join_path ((47 ∷ a) ∷ (x ++ 47 ∷ rel) ∷ [])
unfolding join_path join
join_path-three a x rel = refl

-- A path below a name is joined to the directory of that name.
pub join_path-below :
    (d : Str) (dir : List Str) (x rel : Str)
    → All IsName (d ∷ dir)
    → IsName x
    → join_path (rooted (d ∷ dir) ∷ x ∷ rel ∷ [])
      ≡ join_path (rooted ((d ∷ dir) ++ x ∷ []) ∷ rel ∷ [])
unfolding clean_from
join_path-below d dir x rel h n =
    join_path (rooted (d ∷ dir) ∷ x ∷ rel ∷ [])
    ≡⟨ join_path-three (join (47 ∷ []) (d ∷ dir)) x rel ⟩
      join_path (rooted (d ∷ dir) ∷ (x ++ 47 ∷ rel) ∷ [])
    ≡⟨ join_path-rooted d dir (x ++ 47 ∷ rel) h ⟩
      rooted (clean_from true (reverse (d ∷ dir)) (split 47 (x ++ 47 ∷ rel)))
    ≡⟨ ap (λ l. rooted (clean_from true (reverse (d ∷ dir)) l)) (split-append 47 x rel n.no_slash) ⟩
      rooted (clean_from true (clean_step true (reverse (d ∷ dir)) x) (split 47 rel))
    ≡⟨ ap (λ s. rooted (clean_from true s (split 47 rel)))
        (clean_step_name (reverse (d ∷ dir)) x n) ⟩
      rooted (clean_from true (x ∷ reverse (d ∷ dir)) (split 47 rel))
    ≡⟨ ap (λ s. rooted (clean_from true s (split 47 rel)))
        (sym (reverse-append (d ∷ dir) (x ∷ []))) ⟩
      rooted (clean_from true (reverse (d ∷ dir ++ x ∷ [])) (split 47 rel))
    ≡⟨ sym
        (join_path-rooted d (dir ++ x ∷ []) rel (All-append IsName (d ∷ dir) (x ∷ []) h (n, tt))) ⟩
      join_path (rooted ((d ∷ dir) ++ x ∷ []) ∷ rel ∷ []) ∎

-- ".." gives the directory above.
pub join_path-dots :
    (d : Str) (dir : List Str) (x : Str)
    → All IsName (d ∷ dir)
    → IsName x
    → join_path (rooted ((d ∷ dir) ++ x ∷ []) ∷ (46 ∷ 46 ∷ []) ∷ []) ≡ rooted (d ∷ dir)
unfolding clean_from split
join_path-dots d dir x h n =
    join_path-rooted d (dir ++ x ∷ []) (46 ∷ 46 ∷ [])
      (All-append IsName (d ∷ dir) (x ∷ []) h (n, tt))
    ∙ ap (λ s. rooted (reverse (clean_step true s (46 ∷ 46 ∷ []))))
        (reverse-append (d ∷ dir) (x ∷ []))
    ∙ ap (λ s. rooted (reverse s)) (clean_step_dots (reverse (d ∷ dir)) x n)
    ∙ ap rooted (reverse-reverse (d ∷ dir))

-- The Boolean test of a name.
unfoldable pub is_name : Str → Bool
unfolding str_eq
is_name s =
    not (str_eq s [])
    && not (str_eq s (46 ∷ []))
    && not (str_eq s (46 ∷ 46 ∷ []))
    && all (λ b. not (b == 47)) s

Free-of_all : (s : Str) → all (λ b. not (b == 47)) s ≡ true → Free 47 s
Free-of_all [] h = tt
Free-of_all (b ∷ s) h =
    let (here, later) = and-eq-true (not (b == 47)) (all (λ b. not (b == 47)) s) h in
    (ground arith, Free-of_all s later)

pub IsName-of_test : (s : Str) → is_name s ≡ true → IsName s
unfolding is_name
IsName-of_test s h =
    let (front, free) =
      and-eq-true (not (str_eq s []) && not (str_eq s (46 ∷ [])) && not (str_eq s (46 ∷ 46 ∷ [])))
        (all (λ b. not (b == 47)) s) h in
    record {
      not_empty = ground (arith, str_eq_iff s []);
      not_dot = ground (arith, str_eq_iff s (46 ∷ []));
      not_dots = ground (arith, str_eq_iff s (46 ∷ 46 ∷ []));
      no_slash = Free-of_all s free;
    }

pub IsName-of_tests : (ss : List Str) → all is_name ss ≡ true → All IsName ss
IsName-of_tests [] h = tt
IsName-of_tests (s ∷ ss) h =
    let (here, later) = and-eq-true _ _ h in (IsName-of_test s here, IsName-of_tests ss later)
