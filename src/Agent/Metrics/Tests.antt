-- ===== src/Agent/Metrics/Tests.antt =====
-- Samples of metrics.go.
use gratis.Agent.Metrics.Stat.{sample_cpu-stat_line, sum, stat_line}
use gratis.Host.{errorf, err, ok}
use gratis.Text.{str_eq, Str, decimal, bytes}
use gratis.Agent.Metrics.{sample_cpu, value, read_mem_info, mem_of_values}
use gratis.Base.{arith, ◌%◌, refl, ◌++◌, ◌≡◌, insert, lookup, ◌^◌, ◌∷◌, []}

sample_cpu-stat_line_example :
    sample_cpu (ok (stat_line (10 ∷ 0 ∷ 5 ∷ 100 ∷ 1 ∷ []) ++ 10 ∷ bytes "cpu0 1"))
    ≡ ok (record { total = sum (10 ∷ 0 ∷ 5 ∷ 100 ∷ 1 ∷ []) % 2 ^ 64; idle = 100 })
unfolding bytes decimal gratis.Text.join
sample_cpu-stat_line_example =
    sample_cpu-stat_line 10 0 5 100 (1 ∷ []) (bytes "cpu0 1")
      (omega arith, (omega arith, (omega arith, (omega arith, (omega arith, tt))))) (omega arith)

-- A file is read, and one without the line is refused.
metrics_tests :
    (read_mem_info (ok (bytes "MemTotal: 8 kB\nMemFree: 2 kB\n"))
      ≡ ok (record { total = 8192; used = 6144 }))
    × (sample_cpu (ok (bytes "intr 1\n")) ≡ err (errorf "cpu line not found in /proc/stat" []))
unfolding read_mem_info mem_of_values value lookup insert bytes str_eq sample_cpu gratis.Text.split
    gratis.Text.fields gratis.Text.parse_uint gratis.Text.has_prefix
metrics_tests = (refl, refl)
