-- ===== src/Host/Disk/Machine.antt =====
-- A machine with a disk on which every call succeeds that can. Its programs only answer.
use gratis.Host.{
  mkdir_all, run, remove_all, append_string, open_append, symlink, Error, external, write_file,
  remove, Trace, not_exist, read_file, Env, Reply,
}
use gratis.Host.Disk.{content, IsPlain, Disk, link, file, Entry}
use gratis.Base.{
  Bool, List, inr, inl, append-nil, ◌||◌, Bool-cases, sym, false, refl, ◌++◌, ◌≡◌, ◌≢◌, none, some,
  Option, ◌∷◌, [],
}
use gratis.Base.{if◌then◌else◌}
use gratis.Text.{str_eq_iff, str_eq_refl, bytes, has_prefix, str_eq, Str}

module _ (start : Str → Option Entry) (programs : Str → List Str → Reply) where
  -- What is at a path after some calls.
  unfoldable pub entry_at : Trace → Str → Option Entry
  unfolding str_eq has_prefix
  entry_at [] q = start q
  entry_at (write_file p s perm ∷ t) q = if str_eq p q then some (file s) else entry_at t q
  entry_at (remove p ∷ t) q = if str_eq p q then none else entry_at t q
  entry_at (symlink old new ∷ t) q = if str_eq new q then some (link old) else entry_at t q
  entry_at (open_append p perm ∷ t) q =
      if str_eq p q then some (file (content (entry_at t q))) else entry_at t q
  entry_at (append_string p s ∷ t) q =
      if str_eq p q then some (file (content (entry_at t q) ++ s)) else entry_at t q
  entry_at (remove_all p ∷ t) q =
      if str_eq p q || has_prefix q (p ++ bytes "/") then none else entry_at t q
  entry_at (c ∷ t) q = entry_at t q

  -- Directories are made, with those above them; this machine removes none but by os.RemoveAll.
  unfoldable pub dir_at : Trace → Str → Bool
  unfolding str_eq has_prefix
  dir_at [] q = false
  dir_at (mkdir_all p perm ∷ t) q = str_eq p q || has_prefix p (q ++ bytes "/") || dir_at t q
  dir_at (remove_all p ∷ t) q =
      if str_eq p q || has_prefix q (p ++ bytes "/") then false else dir_at t q
  dir_at (c ∷ t) q = dir_at t q

  abbrev done_with : Str → Reply
  done_with s = record { text = s; number = 0; failure = none }

  abbrev missing : Reply
  missing = record { text = []; number = 0; failure = some (not_exist (bytes "no such file")) }

  reply_to_read : Option Entry → Reply
  reply_to_read none = missing
  reply_to_read (some (file s)) = done_with s
  reply_to_read (some (link s)) = record { text = []; number = 0; failure = some (external []) }

  reply_to_remove : Option Entry → Reply
  reply_to_remove none = missing
  reply_to_remove (some x) = done_with []

  unfoldable pub machine : Env
  unfolding reply_to_read reply_to_remove
  machine t (read_file p) = reply_to_read (entry_at t p)
  machine t (remove p) = reply_to_remove (entry_at t p)
  machine t (run name args) = programs name args
  machine t c = done_with []

  -- A path that is another one, in either order of the test.
  apart : (p q : Str) → q ≢ p → str_eq p q ≡ false
  apart p q n = elim (Bool-cases (str_eq p q)) [
    | inl e ↦ absurd (n (sym ((str_eq_iff p q).0 e)))
    | inr e ↦ e
  ]

  machine_reads :
      (o : Option Entry)
      → IsPlain o
      → (reply_to_read o).failure ≡ none
      → (reply_to_read o).text ≡ content o
  unfolding reply_to_read
  machine_reads none plain h = refl
  machine_reads (some (file s)) plain h = refl
  machine_reads (some (link s)) plain h = elim plain [ ]

  machine_reads_all : (o : Option Entry) → IsPlain o → (reply_to_read o).text ≡ content o
  unfolding reply_to_read
  machine_reads_all none plain = refl
  machine_reads_all (some (file s)) plain = refl
  machine_reads_all (some (link s)) plain = elim plain [ ]

  machine_reads_beginning :
      (o : Option Entry) → IsPlain o → (more : Str) × (content o ≡ (reply_to_read o).text ++ more)
  unfolding reply_to_read
  machine_reads_beginning none plain = ([], refl)
  machine_reads_beginning (some (file s)) plain = ([], sym (append-nil s))
  machine_reads_beginning (some (link s)) plain = elim plain [ ]

  machine_misses :
      (o : Option Entry) (e : Error) → IsPlain o → (reply_to_read o).failure ≡ some e → o ≡ none
  unfolding reply_to_read
  machine_misses none e plain h = refl
  machine_misses (some (file s)) e plain h = cc h
  machine_misses (some (link s)) e plain h = elim plain [ ]

  pub machine-Disk : Disk machine
  unfolding machine entry_at dir_at
  machine-Disk = record {
    entry = entry_at;
    writes = λ t path s perm plain h. rw (str_eq_refl path) refl;
    write_keeps = λ t path s perm other plain n. rw (apart path other n) refl;
    removes = λ t path h. rw (str_eq_refl path) refl;
    remove_misses = λ t path e h m. rw (str_eq_refl path) refl;
    remove_keeps = λ t path other n. rw (apart path other n) refl;
    links = λ t old new h. rw (str_eq_refl new) refl;
    link_keeps = λ t old new other n. rw (apart new other n) refl;
    dir_keeps = λ t path perm other. refl;
    chmod_keeps = λ t path perm other. refl;
    reads = λ t path plain h. machine_reads (entry_at t path) plain h;
    reads_beginning = λ t path plain. machine_reads_beginning (entry_at t path) plain;
    read_misses = λ t path e plain h m. machine_misses (entry_at t path) e plain h;
    read_keeps = λ t path other. refl;
    opens = λ t path perm plain h. rw (str_eq_refl path) refl;
    open_keeps = λ t path perm other plain n. rw (apart path other n) refl;
    appends = λ t path s old there h. rw (str_eq_refl path, there) refl;
    append_keeps = λ t path s other plain n. rw (apart path other n) refl;
    remove_all_keeps = λ t path other n below. rw (apart path other n, below) refl;
    is_dir = dir_at;
    makes_dir = λ t path perm h. rw (str_eq_refl path) refl;
    write_keeps_dirs = λ t path s perm other. refl;
    remove_keeps_dirs = λ t path other n. refl;
    link_keeps_dirs = λ t old new other. refl;
  }

  pub machine-entry : (t : Trace) (q : Str) → machine-Disk.entry t q ≡ entry_at t q
  unfolding machine-Disk
  machine-entry t q = refl

  pub machine-is_dir : (t : Trace) (q : Str) → machine-Disk.is_dir t q ≡ dir_at t q
  unfolding machine-Disk
  machine-is_dir t q = refl

  -- A reading gives all that is there.
  pub machine-reads :
      (t : Trace) (path : Str)
      → IsPlain (machine-Disk.entry t path)
      → (machine t (read_file path)).text ≡ content (machine-Disk.entry t path)
  unfolding machine machine-Disk
  machine-reads t path plain = machine_reads_all (entry_at t path) plain
