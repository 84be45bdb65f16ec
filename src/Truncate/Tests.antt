-- ===== src/Truncate/Tests.antt =====
-- The theorem on truncation, applied to a short text.
use stripe_payment_service.Prelude.{
  ℕ, ◌≤◌, ◌<◌, false, ◌≡◌, ◌⊎◌, true, ◌++◌, length, take, Text, bytes,
}
use stripe_payment_service.Truncate.{truncate, starts_at, ellipsis, truncate_lem}

abbrev reason : Text
unfolding bytes
reason = bytes "card_declined: Your card was declined…"

truncate_lem_example :
    (length reason ≤ 2000 → truncate reason ≡ reason)
    × (2001 ≤ length reason
        → (k : ℕ) × (k ≤ 2000)
          × ((k ≡ 0) ⊎ (starts_at reason k ≡ true))
          × ((j : ℕ) → k < j → j ≤ 2000 → starts_at reason j ≡ false)
          × (truncate reason ≡ take k reason ++ ellipsis)
          × (length (truncate reason) ≤ 2003))
truncate_lem_example = truncate_lem reason
