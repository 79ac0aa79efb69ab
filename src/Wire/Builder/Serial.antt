-- ===== src/Wire/Builder/Serial.antt =====
-- `SerialCounter` of crates/emskin-dbus/src/wire/frame.rs.
use emskin.Prelude.{ℕ, zero, suc, ◌+◌, ◌-◌, ◌%◌, ◌^◌, ◌<◌, ◌≡◌, ◌≢◌, arith, ◌∙◌}
use emskin.Wire.Builder.{bump}

-- A serial is never zero, and fits 32 bits, also where the counter wraps.
pub bump-serial : (counter : ℕ) → (bump counter ≢ 0) × (bump counter < 2 ^ 32)
unfolding bump
bump-serial counter = ground arith

-- The counter after `n` bumps.
unfoldable pub bumps : ℕ → ℕ → ℕ
bumps zero counter = counter
bumps (suc n) counter = bumps n (bump counter)

bumps-closed :
    (n counter : ℕ)
    → counter < 2 ^ 32
    → 0 < counter
    → bumps n counter ≡ (counter - 1 + n) % (2 ^ 32 - 1) + 1
unfolding bumps
bumps-closed zero counter h p = omega arith
bumps-closed (suc n) counter h p =
    bumps-closed n (bump counter) (bump-serial counter).1 (omega (arith, (bump-serial counter).0))
    ∙ unfold bump in ground arith

-- From any counter, so also from that of a new connection, serials repeat only after 2³² - 1
-- messages: the serials of two messages that are nearer are different.
pub bumps-distinct :
    (m n counter : ℕ) → m < n → n < m + (2 ^ 32 - 1) → bumps (suc m) counter ≢ bumps (suc n) counter
unfolding bumps
bumps-distinct m n counter lt near e =
    let (nonzero, fits) = bump-serial counter in
    omega (
      arith,
      bumps-closed m (bump counter) fits (omega arith),
      bumps-closed n (bump counter) fits (omega arith),
    )
