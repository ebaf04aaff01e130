-- ===== src/Agent/Accounts/Quota.antt =====
-- The limits that accounts.go hands to setquota, where 0 means that there is no limit.
use gratis.Base.{ℕ, ◌+◌, ◌*◌, ◌/◌, ◌^◌, ◌≤◌, ◌<◌, ◌≡◌, ◌↔◌, ap, List, [], ◌∷◌, arith}
use gratis.Text.{Str, decimal, parse_uint, parse_uint-decimal}
use gratis.Agent.Accounts.{soft_kb, hard_kb, quota_args}

-- For a quota of 64 bits: the soft limit is the quota in whole KB, and the hard limit is a tenth
-- more, rounded down; the sum does not wrap.
quota_limits :
    (q : ℕ)
    → q < 2 ^ 64
    → (soft_kb q * 1024 ≤ q)
      × (q < (soft_kb q + 1) * 1024)
      × (hard_kb q ≡ soft_kb q + soft_kb q / 10)
      × (hard_kb q < 2 ^ 64)
unfolding soft_kb hard_kb
quota_limits q h = (omega arith, omega arith, omega arith, omega arith)

decimal_injective : (m n : ℕ) → m < 2 ^ 64 → n < 2 ^ 64 → decimal m ≡ decimal n → m ≡ n
decimal_injective m n h k e = cc (parse_uint-decimal m h, parse_uint-decimal n k, ap parse_uint e)

third_or : List Str → Str
third_or (a ∷ b ∷ c ∷ l) = c
third_or l = []

-- For a quota of 64 bits, the arguments are those of a quota of 0, which setquota takes for no limit
-- at all, exactly when the quota is below 1024 bytes.
pub quota_args-no_limit_iff :
    (username : Str) (q : ℕ)
    → q < 2 ^ 64
    → (quota_args username q ≡ quota_args username 0) ↔ (q < 1024)
unfolding quota_args
quota_args-no_limit_iff username q h = (
  λ e.
      let same : decimal (soft_kb q) ≡ decimal (soft_kb 0) = unfold third_or in ap third_or e in
      unfold soft_kb in
      let same' : q / 1024 ≡ 0 =
        decimal_injective (q / 1024) 0 (omega arith) (omega arith) (unfold soft_kb in same) in
      omega arith,
  λ lt. let none_left : q / 1024 ≡ 0 = omega arith in rw none_left,
)
