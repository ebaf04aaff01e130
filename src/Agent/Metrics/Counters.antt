-- ===== src/Agent/Metrics/Counters.antt =====
-- Differences of the counters of metrics.go, which wrap at 2 ^ 64.
use native.Mathlib.Nat.{add-mul}
use gratis.Host.{ok}
use gratis.Base.{ap, arith, ◌≡◌, ◌^◌, ◌*◌, ◌<◌, ◌+◌, ℕ}
use gratis.Agent.Metrics.{DiskInfo, add64, CpuSample, busy_delta, read_disk_info, total_delta}

-- If between two samples the CPU was idle for `idle` ticks and busy for `busy`, fewer than 2 ^ 64
-- together, and the counters of the first are below 2 ^ 64, then CPUPercent divides the busy ticks by
-- all of them, even where a counter wrapped.
cpu_deltas :
    (a b : CpuSample) (idle busy : ℕ)
    → a.total < 2 ^ 64
    → a.idle < 2 ^ 64
    → idle + busy < 2 ^ 64
    → b.total ≡ add64 a.total (idle + busy)
    → b.idle ≡ add64 a.idle idle
    → (total_delta a b ≡ idle + busy) × (busy_delta a b ≡ busy)
unfolding total_delta busy_delta
cpu_deltas a b idle busy h k l e f = (omega arith, omega arith)

disk_eq :
    {t t' u u' : ℕ}
    → t ≡ t'
    → u ≡ u'
    → Path DiskInfo (record { total = t; used = u }) (record { total = t'; used = u' })
disk_eq p q = cc (p, q)

-- A disk of free and used blocks whose size in bytes is below 2 ^ 64 is reported with this size and
-- with the bytes of its used blocks.
read_disk_info_lem :
    (bfree used bsize : ℕ)
    → (bfree + used) * bsize < 2 ^ 64
    → read_disk_info (ok (bfree + used, (bfree, bsize)))
      ≡ ok (record { total = (bfree + used) * bsize; used = used * bsize })
unfolding read_disk_info
read_disk_info_lem bfree used bsize h =
    let parts : (bfree + used) * bsize ≡ bfree * bsize + used * bsize = add-mul bfree used bsize in
    ap ok (disk_eq (omega (arith, parts)) (omega (arith, parts)))
