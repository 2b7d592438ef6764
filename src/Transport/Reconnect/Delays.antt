-- ===== src/Transport/Reconnect/Delays.antt =====
-- The delays between attempts to connect: the table, its bounds and its order.
use code_xd.Prelude.{ℕ, suc, zero, ◌+◌, ◌≤◌, ◌<◌, ◌≡◌, Option, arith, or_default, max, min}
use code_xd.Transport.Reconnect.{delay_of, local_delay, tier_of}

-- The table read at a tier, and at the next one.
local_delay-bounds :
    (t : ℕ)
    → 0 < t
    → t ≤ 10
    → (1000 ≤ local_delay t)
      × (local_delay t ≤ 300000)
      × (local_delay t ≤ local_delay (min (suc t) 10))
unfolding local_delay
local_delay-bounds zero p h = absurd (omega arith)
local_delay-bounds (suc zero) p h = (omega arith, omega arith, omega arith)
local_delay-bounds (suc (suc zero)) p h = (omega arith, omega arith, omega arith)
local_delay-bounds (suc (suc (suc zero))) p h = (omega arith, omega arith, omega arith)
local_delay-bounds (suc (suc (suc (suc zero)))) p h = (omega arith, omega arith, omega arith)
local_delay-bounds (suc (suc (suc (suc (suc zero))))) p h = (omega arith, omega arith, omega arith)
local_delay-bounds (suc (suc (suc (suc (suc (suc zero)))))) p h =
    (omega arith, omega arith, omega arith)
local_delay-bounds (suc (suc (suc (suc (suc (suc (suc zero))))))) p h =
    (omega arith, omega arith, omega arith)
local_delay-bounds (suc (suc (suc (suc (suc (suc (suc (suc zero)))))))) p h =
    (omega arith, omega arith, omega arith)
local_delay-bounds (suc (suc (suc (suc (suc (suc (suc (suc (suc zero))))))))) p h =
    (omega arith, omega arith, omega arith)
local_delay-bounds (suc (suc (suc (suc (suc (suc (suc (suc (suc (suc zero)))))))))) p h =
    (omega arith, omega arith, omega arith)
local_delay-bounds (suc (suc (suc (suc (suc (suc (suc (suc (suc (suc (suc n))))))))))) p h =
    absurd (omega arith)

local_delay-monotone : (n m : ℕ) → 0 < n → local_delay (tier_of n) ≤ local_delay (tier_of (n + m))
local_delay-monotone n zero p = let same : n + 0 ≡ n = omega arith in rw same (omega arith)
local_delay-monotone n (suc m) p =
    let (low, high, up) = local_delay-bounds (tier_of (n + m)) (omega arith) (omega arith) in
    let next_tier : tier_of (n + suc m) ≡ min (suc (tier_of (n + m))) 10 = omega arith in
    rw next_tier (omega (arith, local_delay-monotone n m p, up))

-- A delay after a failure lies between a second and five minutes, unless the server asks for more;
-- it is never shorter than the server asks, nor than the delay after fewer failures.
pub delay_of-bounds :
    (n m : ℕ) (retry_after : Option ℕ)
    → 0 < n
    → (1000 ≤ delay_of n retry_after)
      × (delay_of n retry_after ≤ max 300000 (or_default retry_after 0))
      × (or_default retry_after 0 ≤ delay_of n retry_after)
      × (delay_of n retry_after ≤ delay_of (n + m) retry_after)
unfolding delay_of
delay_of-bounds n m retry_after p =
    let (low, high, up) = local_delay-bounds (tier_of n) (omega arith) (omega arith) in
    (
      omega (arith, low),
      omega (arith, high),
      omega arith,
      omega (arith, local_delay-monotone n m p),
    )
