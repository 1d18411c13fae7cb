-- ===== src/Payload/Order.antt =====
-- `older_than` is a strict weak order, and what `try_copy_from` leaves behind.
use esp32_rid.Prelude.{ℕ, ◌+◌, ◌≤◌, ◌<◌, ◌≡◌, true, false, arith}
use esp32_rid.Payload.{ScheduledPayload, older_than, saturating_increment, u64_max}

pub older_than_irrefl : (p : ScheduledPayload) → older_than p p ≡ false
unfolding older_than
older_than_irrefl p = ground arith

pub older_than_asymm : (p q : ScheduledPayload) → older_than p q ≡ true → older_than q p ≡ false
unfolding older_than
older_than_asymm p q h = ground arith

-- Not being older is transitive.
pub not_older_trans :
    (p q r : ScheduledPayload)
    → older_than p q ≡ false
    → older_than q r ≡ false
    → older_than p r ≡ false
unfolding older_than
not_older_trans p q r h k = ground arith

pub increment_step : (n : ℕ) → n < u64_max → saturating_increment n ≡ n + 1
unfolding saturating_increment
increment_step n h = ground arith

pub le-increment : (n : ℕ) → n ≤ saturating_increment n
unfolding saturating_increment
le-increment n = ground arith

pub increment_bounded : (n : ℕ) → n ≤ u64_max → saturating_increment n ≤ u64_max
unfolding saturating_increment
increment_bounded n h = ground arith
