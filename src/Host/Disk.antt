-- ===== src/Host/Disk.antt =====
-- What the calls to the file system mean: a host with its files and symbolic links, under cleaned
-- paths, and its directories, which are no entries. The laws are what Go documents of package os; they say nothing of
-- a write through a link.
pub mod Machine
use gratis.Base.{Bool, false, ◌++◌, true, ◌≢◌, none, ◌≡◌, some, ℕ, Option, ◌∷◌, []}
use gratis.Host.{
  Error, Trace, Env, write_file, remove, remove_all, symlink, mkdir_all, chmod, read_file,
  open_append, append_string, is_not_exist,
}
use gratis.Text.{bytes, has_prefix, Str}

pub data Entry : Type 0 where
  file : Str → Entry
  -- a symbolic link and its target
  link : Str → Entry

-- A file, or nothing yet: no link is followed there.
abbrev pub IsPlain : Option Entry → Type 0
IsPlain none = Unit {0}
IsPlain (some (file s)) = Unit {0}
IsPlain (some (link s)) = ⊥

-- What a file holds.
abbrev pub content : Option Entry → Str
content none = []
content (some (file s)) = s
content (some (link s)) = []

pub record Disk (env : Env) : Type 0 where
  -- what is at a path after some calls
  pub entry : Trace → Str → Option Entry
  pub writes :
      (t : Trace) (path s : Str) (perm : ℕ)
      → IsPlain (entry t path)
      → (env t (write_file path s perm)).failure ≡ none
      → entry (write_file path s perm ∷ t) path ≡ some (file s)
  pub write_keeps :
      (t : Trace) (path s : Str) (perm : ℕ) (other : Str)
      → IsPlain (entry t path)
      → other ≢ path
      → entry (write_file path s perm ∷ t) other ≡ entry t other
  pub removes :
      (t : Trace) (path : Str)
      → (env t (remove path)).failure ≡ none
      → entry (remove path ∷ t) path ≡ none
  -- a removal that finds nothing
  pub remove_misses :
      (t : Trace) (path : Str) (e : Error)
      → (env t (remove path)).failure ≡ some e
      → is_not_exist e ≡ true
      → entry (remove path ∷ t) path ≡ none
  pub remove_keeps :
      (t : Trace) (path other : Str) → other ≢ path → entry (remove path ∷ t) other ≡ entry t other
  pub links :
      (t : Trace) (old new : Str)
      → (env t (symlink old new)).failure ≡ none
      → entry (symlink old new ∷ t) new ≡ some (link old)
  pub link_keeps :
      (t : Trace) (old new other : Str)
      → other ≢ new
      → entry (symlink old new ∷ t) other ≡ entry t other
  pub dir_keeps :
      (t : Trace) (path : Str) (perm : ℕ) (other : Str)
      → entry (mkdir_all path perm ∷ t) other ≡ entry t other
  pub chmod_keeps :
      (t : Trace) (path : Str) (perm : ℕ) (other : Str)
      → entry (chmod path perm ∷ t) other ≡ entry t other
  -- os.ReadFile; after an error it has read a beginning
  pub reads :
      (t : Trace) (path : Str)
      → IsPlain (entry t path)
      → (env t (read_file path)).failure ≡ none
      → (env t (read_file path)).text ≡ content (entry t path)
  pub reads_beginning :
      (t : Trace) (path : Str)
      → IsPlain (entry t path)
      → (more : Str) × (content (entry t path) ≡ (env t (read_file path)).text ++ more)
  pub read_misses :
      (t : Trace) (path : Str) (e : Error)
      → IsPlain (entry t path)
      → (env t (read_file path)).failure ≡ some e
      → is_not_exist e ≡ true
      → entry t path ≡ none
  pub read_keeps : (t : Trace) (path other : Str) → entry (read_file path ∷ t) other ≡ entry t other
  -- O_CREATE makes an empty file where there is none
  pub opens :
      (t : Trace) (path : Str) (perm : ℕ)
      → IsPlain (entry t path)
      → (env t (open_append path perm)).failure ≡ none
      → entry (open_append path perm ∷ t) path ≡ some (file (content (entry t path)))
  pub open_keeps :
      (t : Trace) (path : Str) (perm : ℕ) (other : Str)
      → IsPlain (entry t path)
      → other ≢ path
      → entry (open_append path perm ∷ t) other ≡ entry t other
  pub appends :
      (t : Trace) (path s old : Str)
      → entry t path ≡ some (file old)
      → (env t (append_string path s)).failure ≡ none
      → entry (append_string path s ∷ t) path ≡ some (file (old ++ s))
  pub append_keeps :
      (t : Trace) (path s other : Str)
      → IsPlain (entry t path)
      → other ≢ path
      → entry (append_string path s ∷ t) other ≡ entry t other
  -- os.RemoveAll touches nothing but the path and what is below it
  pub remove_all_keeps :
      (t : Trace) (path other : Str)
      → other ≢ path
      → has_prefix other (path ++ bytes "/") ≡ false
      → entry (remove_all path ∷ t) other ≡ entry t other
  -- which paths are directories after some calls
  pub is_dir : Trace → Str → Bool
  pub makes_dir :
      (t : Trace) (path : Str) (perm : ℕ)
      → (env t (mkdir_all path perm)).failure ≡ none
      → is_dir (mkdir_all path perm ∷ t) path ≡ true
  pub write_keeps_dirs :
      (t : Trace) (path s : Str) (perm : ℕ) (other : Str)
      → is_dir (write_file path s perm ∷ t) other ≡ is_dir t other
  pub remove_keeps_dirs :
      (t : Trace) (path other : Str)
      → other ≢ path
      → is_dir (remove path ∷ t) other ≡ is_dir t other
  pub link_keeps_dirs :
      (t : Trace) (old new other : Str) → is_dir (symlink old new ∷ t) other ≡ is_dir t other
