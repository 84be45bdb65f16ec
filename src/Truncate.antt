-- ===== src/Truncate.antt =====
-- truncate and failureReason of internal/repository/postgres/webhook_repo.go, derefOr and nullIfEmpty
-- of subscription_repo.go.
pub mod Tests
use stripe_payment_service.Prelude.{
  ℕ, zero, suc, ◌+◌, ◌/◌, ◌≤◌, ◌<◌, String, ◌≡◌, ◌⊎◌, true, false, refl, inl, inr, Bool, not,
  Option, none, some, List, ◌++◌, arith, ◌==◌, leb, nat_eq, length, take, get_elem?, length-append,
  length-take-le, bytes, Text, Bool-cases, if◌then◌else◌,
}
use stripe_payment_service.Domain.Errors.{Failure}

-- maxLastErrorLen
abbrev pub max_last_error_len : ℕ
max_last_error_len = 2000

-- "…"
abbrev pub ellipsis : Text
unfolding bytes
ellipsis = bytes "…"

-- utf8.RuneStart: every byte but 10xxxxxx
abbrev pub rune_start : ℕ → Bool
rune_start b = not (nat_eq (b / 0x40) 2)

-- Whether a rune starts at an index. Past the end the code would panic; the loop never goes there.
abbrev pub starts_at : Text → ℕ → Bool
starts_at s i = elim (get_elem? s i) [ none ↦ false | some b ↦ rune_start b ]

-- `for cut > 0 && !utf8.RuneStart(s[cut]) { cut-- }`
unfoldable pub back_up : Text → ℕ → ℕ
back_up s zero = zero
back_up s (suc cut) = let rest = back_up s cut in if starts_at s (suc cut) then suc cut else rest

unfoldable pub truncate : Text → Text
truncate s =
    if leb (length s) max_last_error_len
    then s
    else take (back_up s max_last_error_len) s ++ ellipsis

-- failureReason
unfoldable pub failure_reason : Option Failure → Text
failure_reason none = bytes "unspecified failure"
failure_reason (some cause) =
    if cause.text == "" then bytes "unspecified failure" else truncate (bytes cause.text)

-- derefOr
abbrev pub deref_or : Option String → String → String
deref_or none fallback = fallback
deref_or (some s) fallback = if s == "" then fallback else s

-- nullIfEmpty
abbrev pub null_if_empty : String → Option String
null_if_empty s = if s == "" then none else some s

back_up-le : (s : Text) (cut : ℕ) → back_up s cut ≤ cut
unfolding back_up
back_up-le s zero = omega arith
back_up-le s (suc cut) = ground (arith, back_up-le s cut)

-- The loop stops at zero or at the first byte of a rune.
back_up-boundary : (s : Text) (cut : ℕ) → (back_up s cut ≡ 0) ⊎ (starts_at s (back_up s cut) ≡ true)
unfolding back_up
back_up-boundary s zero = inl refl
back_up-boundary s (suc cut) = elim (Bool-cases (starts_at s (suc cut))) [
  | inl e ↦ rw e (inr e)
  | inr e ↦ rw e (back_up-boundary s cut)
]

-- The loop passes over no first byte of a rune.
back_up-last : (s : Text) (cut j : ℕ) → back_up s cut < j → j ≤ cut → starts_at s j ≡ false
unfolding back_up
back_up-last s zero j low high = absurd (omega arith)
back_up-last s (suc cut) j low high = elim (Bool-cases (starts_at s (suc cut))) [
  | inl e ↦ absurd (omega (arith, rw e at low))
  | inr e ↦ elim (Bool-cases (nat_eq j (suc cut))) [
    | inl last ↦ let here : j ≡ suc cut = ground arith in rw here e
    | inr before ↦ back_up-last s cut j (rw e at low) (ground arith)
  ]
]

-- A text of at most 2000 bytes is kept whole. Of a longer one the longest prefix of at most 2000 bytes is
-- kept that ends where a rune starts, or nothing where there is none, and three bytes of ellipsis follow.
pub truncate_lem :
    (s : Text)
    → (length s ≤ 2000 → truncate s ≡ s)
      × (2001 ≤ length s
          → (k : ℕ) × (k ≤ 2000)
            × ((k ≡ 0) ⊎ (starts_at s k ≡ true))
            × ((j : ℕ) → k < j → j ≤ 2000 → starts_at s j ≡ false)
            × (truncate s ≡ take k s ++ ellipsis)
            × (length (truncate s) ≤ 2003))
unfolding truncate back_up ellipsis
truncate_lem s = elim (Bool-cases (leb (length s) 2000)) [
  | inl e ↦ rw e ((λ h. refl), λ h. absurd (ground arith))
  | inr e ↦ rw e (
    (λ h. absurd (ground arith)),
    λ h. (
      back_up s 2000,
      back_up-le s 2000,
      back_up-boundary s 2000,
      back_up-last s 2000,
      refl,
      omega (
        arith,
        length-append (take (back_up s 2000) s) ellipsis,
        length-take-le (back_up s 2000) s,
        back_up-le s 2000,
      ),
    ),
  )
]
