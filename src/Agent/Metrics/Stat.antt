-- ===== src/Agent/Metrics/Stat.antt =====
-- The first line of /proc/stat as metrics.go reads it.
use gratis.Host.{ok}
use gratis.Text.{
  has_prefix, parse_uint-decimal, split-append, split, fields-join, fields-space, decimal-IsDigits,
  fields-word, NoSpace, fields, decimal, is_space, bytes, join, Str,
}
use gratis.Agent.Metrics.{
  cpu_line, find_cpu, sample_cpu, add64, scan_list, scan_lines, CpuSample, count_fields, drop_cr,
}
use gratis.Base.{
  false, ◌%◌, refl, ◌∙◌, ◌^◌, ◌≤◌, All-append, All-map_pred, ◌<◌, ap, ◌≢◌, ◌+◌, length, All, map,
  ◌≡◌, ◌++◌, arith, ℕ, List, ◌∷◌, [],
}

-- The line "cpu  " with these counters.
abbrev pub stat_line : List ℕ → Str
stat_line ns = bytes "cpu" ++ 32 ∷ 32 ∷ join (32 ∷ []) (map decimal ns)

abbrev pub sum : List ℕ → ℕ
sum [] = 0
sum (n ∷ ns) = n + sum ns

abbrev pub Below64 : List ℕ → Type 0
Below64 = All (λ n. n < 2 ^ 64)

decimal-IsWord : (n : ℕ) → (decimal n ≢ []) × NoSpace (decimal n)
unfolding is_space
decimal-IsWord n = (
  (decimal-IsDigits n).0,
  All-map_pred (λ b. (48 ≤ b) × (b ≤ 57)) (λ b. is_space b ≡ false) (λ b h. ground arith)
      (decimal n) (decimal-IsDigits n).1,
)

decimals-IsWord : (ns : List ℕ) → All (λ w. (w ≢ []) × NoSpace w) (map decimal ns)
decimals-IsWord [] = tt
decimals-IsWord (n ∷ ns) = (decimal-IsWord n, decimals-IsWord ns)

-- No byte of the line is a control character.
abbrev Printable : Str → Type 0
Printable = All (λ b. 32 ≤ b)

decimal-Printable : (n : ℕ) → Printable (decimal n)
decimal-Printable n =
    All-map_pred (λ b. (48 ≤ b) × (b ≤ 57)) (λ b. 32 ≤ b) (λ b h. omega arith) (decimal n)
      (decimal-IsDigits n).1

join-Printable : (ns : List ℕ) → Printable (join (32 ∷ []) (map decimal ns))
unfolding join
join-Printable [] = tt
join-Printable (n ∷ []) = decimal-Printable n
join-Printable (n ∷ m ∷ ns) =
    All-append (λ b. 32 ≤ b) (decimal n) (32 ∷ join (32 ∷ []) (map decimal (m ∷ ns)))
      (decimal-Printable n) (omega arith, join-Printable (m ∷ ns))

stat_line-Printable : (ns : List ℕ) → Printable (stat_line ns)
unfolding bytes
stat_line-Printable ns =
    (omega arith, (omega arith, (omega arith, (omega arith, (omega arith, join-Printable ns)))))

drop_cr-Printable : (s : Str) → Printable s → drop_cr s ≡ s
unfolding drop_cr
drop_cr-Printable [] h = refl
drop_cr-Printable (b ∷ []) h = ground arith
drop_cr-Printable (b ∷ c ∷ s) h = ap (λ r. b ∷ r) (drop_cr-Printable (c ∷ s) h.1)

scan_list-short :
    (b : ℕ) (s : Str) (lines : List Str)
    → length (b ∷ s) < 65536
    → Printable (b ∷ s)
    → scan_list ((b ∷ s) ∷ lines) ≡ (b ∷ s) ∷ scan_list lines
unfolding scan_list
scan_list-short b s lines short h = ground (arith, drop_cr-Printable (b ∷ s) h)

scan_lines-first :
    (ns : List ℕ) (rest : Str)
    → length (stat_line ns) < 65536
    → scan_lines (stat_line ns ++ 10 ∷ rest) ≡ stat_line ns ∷ scan_list (split 10 rest)
unfolding scan_lines bytes
scan_lines-first ns rest short =
    let h = stat_line-Printable ns in
    ap scan_list (
      split-append 10 (stat_line ns) rest
        (All-map_pred (λ b. 32 ≤ b) (λ b. b ≢ 10) (λ b k. omega arith) (stat_line ns) h))
    ∙ scan_list-short 99 (112 ∷ 117 ∷ 32 ∷ 32 ∷ join (32 ∷ []) (map decimal ns)) (split 10 rest)
        short h

fields-stat_line :
    (n : ℕ) (ns : List ℕ) → fields (stat_line (n ∷ ns)) ≡ bytes "cpu" ∷ map decimal (n ∷ ns)
unfolding bytes is_space
fields-stat_line n ns =
    fields-word (bytes "cpu") (32 ∷ join (32 ∷ []) (map decimal (n ∷ ns))) (λ e. cc e)
      (refl, (refl, (refl, tt)))
    ∙ ap (λ l. bytes "cpu" ∷ l)
        (fields-space (join (32 ∷ []) (map decimal (n ∷ ns)))
          ∙ fields-join (decimal n) (map decimal ns) (decimals-IsWord (n ∷ ns)))

sample_eq :
    {t t' i i' : ℕ}
    → t ≡ t'
    → i ≡ i'
    → Path CpuSample (record { total = t; idle = i }) (record { total = t'; idle = i' })
sample_eq p q = cc (p, q)

count_fields-more :
    (i : ℕ) (ns : List ℕ) (s : CpuSample)
    → 3 < i
    → Below64 ns
    → s.total < 2 ^ 64
    → count_fields i (map decimal ns) s
      ≡ record { total = (s.total + sum ns) % 2 ^ 64; idle = s.idle }
unfolding count_fields
count_fields-more i [] s late h k = sample_eq (omega arith) refl
count_fields-more i (n ∷ ns) s late h k =
    let next : CpuSample = record { total = (s.total + n) % 2 ^ 64; idle = s.idle } in
    ap (count_fields (i + 1) (map decimal ns))
      (sample_eq (ap (add64 s.total) (parse_uint-decimal n h.0)) (ground arith))
    ∙ count_fields-more (i + 1) ns next (omega arith) h.1 (omega arith)
    ∙ sample_eq (omega arith) refl

-- The first four fields, and the rest.
count_fields-all :
    (u n s i : ℕ) (more : List ℕ)
    → Below64 (u ∷ n ∷ s ∷ i ∷ more)
    → count_fields 0 (map decimal (u ∷ n ∷ s ∷ i ∷ more)) (record { total = 0; idle = 0 })
      ≡ record { total = sum (u ∷ n ∷ s ∷ i ∷ more) % 2 ^ 64; idle = i }
unfolding count_fields
count_fields-all u n s i more h =
    let first = parse_uint-decimal u h.0 in
    let second = parse_uint-decimal n h.1.0 in
    let third = parse_uint-decimal s h.1.1.0 in
    let fourth = parse_uint-decimal i h.1.1.1.0 in
    let next : CpuSample = record { total = add64 (add64 (add64 (add64 0 u) n) s) i; idle = i } in
    ap (count_fields 4 (map decimal more)) (sample_eq (cc (first, second, third, fourth)) fourth)
    ∙ count_fields-more 4 more next (omega arith) h.1.1.1.1 (omega arith)
    ∙ sample_eq (omega arith) refl

find_cpu-stat_line :
    (n : ℕ) (ns : List ℕ) (lines : List Str)
    → find_cpu (stat_line (n ∷ ns) ∷ lines) ≡ cpu_line (bytes "cpu" ∷ map decimal (n ∷ ns))
unfolding find_cpu has_prefix bytes
find_cpu-stat_line n ns lines = ap cpu_line (fields-stat_line n ns)

cpu_line-ok :
    (name a b c d : Str) (fs : List Str)
    → cpu_line (name ∷ a ∷ b ∷ c ∷ d ∷ fs)
      ≡ ok (count_fields 0 (a ∷ b ∷ c ∷ d ∷ fs) (record { total = 0; idle = 0 }))
unfolding cpu_line
cpu_line-ok name a b c d fs = ground arith

-- A text whose first line is "cpu  " and at least four counters below 2 ^ 64, in a line of fewer than
-- 65536 bytes, is read as their sum, modulo 2 ^ 64, and the fourth of them, whatever follows.
pub sample_cpu-stat_line :
    (u n s i : ℕ) (more : List ℕ) (rest : Str)
    → Below64 (u ∷ n ∷ s ∷ i ∷ more)
    → length (stat_line (u ∷ n ∷ s ∷ i ∷ more)) < 65536
    → sample_cpu (ok (stat_line (u ∷ n ∷ s ∷ i ∷ more) ++ 10 ∷ rest))
      ≡ ok (record { total = sum (u ∷ n ∷ s ∷ i ∷ more) % 2 ^ 64; idle = i })
unfolding sample_cpu
sample_cpu-stat_line u n s i more rest h short =
    ap find_cpu (scan_lines-first (u ∷ n ∷ s ∷ i ∷ more) rest short)
    ∙ find_cpu-stat_line u (n ∷ s ∷ i ∷ more) (scan_list (split 10 rest))
    ∙ cpu_line-ok (bytes "cpu") (decimal u) (decimal n) (decimal s) (decimal i) (map decimal more)
    ∙ ap ok (count_fields-all u n s i more h)
