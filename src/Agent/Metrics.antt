-- ===== src/Agent/Metrics.antt =====
-- agent/internal/system/metrics.go: counters of the CPU, the memory, the load and the disk, on 64-bit
-- numbers that wrap. What opening and reading a file gives is an argument, and so is what statfs
-- gives; the operations of float64 are a parameter.
pub mod Counters
pub mod Stat
pub mod Tests
use gratis.Text.{has_prefix, bytes, str_keys, parse_uint, fields, split, Str}
use gratis.Host.{errorf, ok, err, Result}
use gratis.Base.{
  some, none, not, ◌-◌, ltb, ◌%◌, length, ◌^◌, lookup, ◌+◌, ◌==◌, ◌*◌, leb, insert, String, List, ℕ,
  if◌then◌else◌, ◌∷◌, [],
}

pub record CpuSample : Type 0 where
  pub total : ℕ
  pub idle : ℕ

pub record MemInfo : Type 0 where
  pub total : ℕ
  pub used : ℕ

pub record DiskInfo : Type 0 where
  pub total : ℕ
  pub used : ℕ

pub record LoadAvg (Float : Type 0) : Type 0 where
  pub load_1 : Float
  pub load_5 : Float
  pub load_15 : Float

pub record Floats : Type 1 where
  pub Float : Type 0
  pub of_uint : ℕ → Float
  pub divide : Float → Float → Float
  pub times : Float → Float → Float
  -- strconv.ParseFloat, whose error is dropped
  pub parse_float : Str → Float

-- Sums, differences and products of uint64.
abbrev pub add64 : ℕ → ℕ → ℕ
add64 a b = (a + b) % 2 ^ 64

abbrev pub sub64 : ℕ → ℕ → ℕ
sub64 a b = (a + (2 ^ 64 - b)) % 2 ^ 64

abbrev pub mul64 : ℕ → ℕ → ℕ
mul64 a b = (a * b) % 2 ^ 64

-- bufio.Scanner drops a carriage return at the end of a line.
pub drop_cr : Str → Str
drop_cr [] = []
drop_cr (b ∷ []) = if b == 13 then [] else b ∷ []
drop_cr (b ∷ c ∷ s) = b ∷ drop_cr (c ∷ s)

-- The lines of a bufio.Scanner: it stops at a line that its buffer of 64 KB does not hold, and gives
-- no line behind the last newline if nothing is there.
pub scan_list : List Str → List Str
unfolding drop_cr
scan_list [] = []
scan_list ([] ∷ []) = []
scan_list (line ∷ lines) =
    let rest = scan_list lines in if leb 65536 (length line) then [] else drop_cr line ∷ rest

pub scan_lines : Str → List Str
unfolding scan_list
scan_lines text = scan_list (split 10 text)

-- The loop over the fields behind "cpu"; the idle time is the fourth.
pub count_fields : ℕ → List Str → CpuSample → CpuSample
count_fields i [] s = s
count_fields i (f ∷ fs) s = count_fields (i + 1) fs (record {
  total = add64 s.total (parse_uint f);
  idle = if i == 3 then parse_uint f else s.idle;
})

-- The fields of the line that was found.
pub cpu_line : List Str → Result CpuSample
unfolding count_fields
cpu_line [] = err (errorf "unexpected /proc/stat format" [])
cpu_line (name ∷ fs) =
    if ltb (length fs) 4
    then err (errorf "unexpected /proc/stat format" [])
    else ok (count_fields 0 fs (record { total = 0; idle = 0 }))

pub find_cpu : List Str → Result CpuSample
unfolding cpu_line
find_cpu [] = err (errorf "cpu line not found in /proc/stat" [])
find_cpu (line ∷ lines) =
    let rest = find_cpu lines in
    if not (has_prefix line (bytes "cpu ")) then rest else cpu_line (fields line)

pub sample_cpu : Result Str → Result CpuSample
unfolding find_cpu scan_lines
sample_cpu (err e) = err e
sample_cpu (ok text) = find_cpu (scan_lines text)

pub total_delta : CpuSample → CpuSample → ℕ
total_delta a b = sub64 b.total a.total

pub busy_delta : CpuSample → CpuSample → ℕ
unfolding total_delta
busy_delta a b = sub64 (total_delta a b) (sub64 b.idle a.idle)

pub cpu_percent : (fl : Floats) → CpuSample → CpuSample → fl.Float
unfolding total_delta busy_delta
cpu_percent fl a b =
    if total_delta a b == 0
    then fl.of_uint 0
    else fl.times (fl.divide (fl.of_uint (busy_delta a b)) (fl.of_uint (total_delta a b)))
        (fl.of_uint 100)

-- strings.TrimSuffix(s, ":")
pub trim_colon : Str → Str
trim_colon [] = []
trim_colon (b ∷ []) = if b == b':' then [] else b ∷ []
trim_colon (b ∷ c ∷ s) = b ∷ trim_colon (c ∷ s)

-- One line of /proc/meminfo, by its fields.
pub mem_line : List Str → List (Str × ℕ) → List (Str × ℕ)
unfolding trim_colon
mem_line [] values = values
mem_line (key ∷ []) values = values
mem_line (key ∷ value ∷ fs) values =
    insert str_keys (trim_colon key) (mul64 (parse_uint value) 1024) values

pub mem_lines : List Str → List (Str × ℕ) → List (Str × ℕ)
unfolding mem_line
mem_lines [] values = values
mem_lines (line ∷ lines) values = mem_lines lines (mem_line (fields line) values)

-- A missing key reads as 0.
pub value : String → List (Str × ℕ) → ℕ
value key values = elim (lookup str_keys (bytes key) values) [ none ↦ 0 | some v ↦ v ]

pub free_memory : List (Str × ℕ) → ℕ
unfolding value
free_memory values =
    add64 (add64 (add64 (value "MemFree" values) (value "Buffers" values)) (value "Cached" values))
      (value "SReclaimable" values)

pub mem_of_values : List (Str × ℕ) → MemInfo
unfolding free_memory
mem_of_values values = record {
  total = value "MemTotal" values;
  used = sub64 (value "MemTotal" values) (free_memory values);
}

pub read_mem_info : Result Str → Result MemInfo
unfolding mem_of_values mem_lines scan_lines
read_mem_info (err e) = err e
read_mem_info (ok text) = ok (mem_of_values (mem_lines (scan_lines text) []))

pub load_fields : (fl : Floats) → List Str → Result (LoadAvg fl.Float)
load_fields fl (a ∷ b ∷ c ∷ fs) =
    ok (record { load_1 = fl.parse_float a; load_5 = fl.parse_float b; load_15 = fl.parse_float c })
load_fields fl _ = err (errorf "unexpected /proc/loadavg format" [])

pub read_load_avg : (fl : Floats) → Result Str → Result (LoadAvg fl.Float)
unfolding load_fields
read_load_avg fl (err e) = err e
read_load_avg fl (ok text) = load_fields fl (fields text)

-- What statfs gives: the blocks, the free blocks and the size of a block.
pub read_disk_info : Result (ℕ × (ℕ × ℕ)) → Result DiskInfo
read_disk_info (err e) = err e
read_disk_info (ok (blocks, (bfree, bsize))) =
    ok
      (record { total = mul64 blocks bsize; used = sub64 (mul64 blocks bsize) (mul64 bfree bsize) })
