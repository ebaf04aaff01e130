-- ===== src/Text/FilePath.antt =====
-- `filepath.Clean` and `filepath.Join` on Unix.
use gratis.Base.{◌≡◌, refl, Bool, true, false, ◌||◌, List, [], ◌∷◌, if◌then◌else◌, ◌==◌}
use mathlib.Core.List.{reverse}
use gratis.Text.Bytes.{Str, bytes, str_eq}
use gratis.Text.Split.{split, join}

-- One element of the path; the stack has the last element at its head.
unfoldable pub clean_step : Bool → List Str → Str → List Str
unfolding str_eq bytes
clean_step rooted stack part =
    if str_eq part [] || str_eq part (bytes ".")
    then stack
    else if str_eq part (bytes "..")
    then elim stack [
      | [] ↦ if rooted then [] else part ∷ []
      | top ∷ below ↦ if str_eq top (bytes "..") then part ∷ top ∷ below else below
    ]
    else part ∷ stack

unfoldable pub clean_from : Bool → List Str → List Str → List Str
unfolding clean_step
clean_from rooted stack [] = reverse stack
clean_from rooted stack (part ∷ parts) = clean_from rooted (clean_step rooted stack part) parts

unfoldable pub is_rooted : Str → Bool
is_rooted [] = false
is_rooted (b ∷ s) = b == 47

or_dot : Str → Str
or_dot [] = 46 ∷ []
or_dot (b ∷ s) = b ∷ s

unfoldable pub clean : Str → Str
unfolding clean_from is_rooted or_dot split join
clean s =
    if is_rooted s
    then 47 ∷ join (47 ∷ []) (clean_from true [] (split 47 s))
    else or_dot (join (47 ∷ []) (clean_from false [] (split 47 s)))

-- filepath.Join: leading empty elements are dropped.
unfoldable pub join_path : List Str → Str
unfolding clean
join_path [] = []
join_path ([] ∷ es) = join_path es
join_path ((b ∷ e) ∷ es) = clean (join (47 ∷ []) ((b ∷ e) ∷ es))

join_path_tests :
    (join_path (bytes "/etc/nginx" ∷ bytes "a.conf" ∷ []) ≡ bytes "/etc/nginx/a.conf")
    × (join_path (bytes "/etc/nginx" ∷ bytes "../../x" ∷ []) ≡ bytes "/x")
    × (clean (bytes "../a/./..//b") ≡ bytes "../b")
unfolding join_path bytes
join_path_tests = (refl, refl, refl)
