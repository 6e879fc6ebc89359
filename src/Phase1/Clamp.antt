-- ===== src/Phase1/Clamp.antt =====
-- clampInt16 and the score that one delta leaves.
use priority_service_poc.Base.{◌≡◌, arith}
use priority_service_poc.Base.Int.{ℤ, pos, negsuc, ◌+ℤ◌, ◌≤ℤ◌, wrap32, pos_parts, negsuc_parts}
use priority_service_poc.Phase1.{clamp_int16}

-- The result lies within [-32767, 32767].
pub clamp_int16_bounds : (v : ℤ) → (negsuc 32766 ≤ℤ clamp_int16 v) × (clamp_int16 v ≤ℤ pos 32767)
unfolding clamp_int16
clamp_int16_bounds v = ground (arith, pos_parts 32767, negsuc_parts 32766)

-- A value in that range is kept.
pub clamp_int16_fits : (v : ℤ) → negsuc 32766 ≤ℤ v → v ≤ℤ pos 32767 → clamp_int16 v ≡ v
unfolding clamp_int16
clamp_int16_fits v lo hi = ground (arith, pos_parts 32767, negsuc_parts 32766)

pub clamp_int16-monotone : (v w : ℤ) → v ≤ℤ w → clamp_int16 v ≤ℤ clamp_int16 w
unfolding clamp_int16
clamp_int16-monotone v w h = ground (arith, pos_parts 32767, negsuc_parts 32766)

-- `row[o] = clampInt16(int32(row[o]) + d)`
abbrev pub new_score : ℤ → ℤ → ℤ
new_score x d = clamp_int16 (wrap32 (x +ℤ d))
