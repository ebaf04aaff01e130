-- ===== src/Settings.antt =====
-- How agent/cmd/agent/main.go and api/cmd/api/main.go read a setting.
use gratis.Base.{refl, ◌↔◌, ◌≡◌, if◌then◌else◌, ◌∷◌, []}
use gratis.Text.{str_eq, Str}

-- A flag, or the variable of the environment where the flag is empty; os.Getenv gives an empty text
-- for a variable that is not set.
unfoldable pub flag_or_env : Str → Str → Str
flag_or_env flag variable = if str_eq flag [] then variable else flag

pub flag_or_env-nil : (s v : Str) → (flag_or_env s v ≡ []) ↔ ((s ≡ []) × (v ≡ []))
unfolding flag_or_env str_eq
flag_or_env-nil [] v = (λ h. (refl, h), λ h. h.1)
flag_or_env-nil (c ∷ s) v = (λ h. cc h, λ h. cc (h.0))
