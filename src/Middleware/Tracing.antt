-- ===== src/Middleware/Tracing.antt =====
-- internal/handler/middleware/requestid.go: what a caller can put into the log and the response.
use stripe_payment_service.Prelude.{
  ℕ, ◌+◌, ◌≤◌, ◌<◌, true, false, ◌≡◌, refl, inl, inr, some, [], ◌∷◌, arith, Text, All, length,
  Bool-cases, Option-cases,
}
use stripe_payment_service.Run.{World}
use stripe_payment_service.Domain.Time.{Time}
use stripe_payment_service.Middleware.RequestId.{
  Ids, is_printable_ascii, hex, new_request_id, request_id_of, is_replaced,
}

-- An id that is safe to log and to send.
pub record IsTraceable (id : Text) : Type 0 where
  pub printable : is_printable_ascii id ≡ true
  pub lower : 1 ≤ length id
  pub upper : length id ≤ 128

-- crypto/rand fills sixteen bytes or fails, and the text of an instant is a short one.
pub record AreSound (ids : Ids) : Type 0 where
  pub filled : (n : ℕ) (b : Text) → ids.random n ≡ some b → (length b ≡ 16) × All (λ c. c < 256) b
  pub stamped : (t : Time) → IsTraceable (ids.timestamp t)

hex_printable : (b : Text) → All (λ c. c < 256) b → is_printable_ascii (hex b) ≡ true
hex_printable [] h = refl
hex_printable (c ∷ b) (h, hs) = ground (arith, hex_printable b hs)

length-hex : (b : Text) → length (hex b) ≡ length b + length b
length-hex [] = omega arith
length-hex (c ∷ b) = omega (arith, length-hex b)

new_request_id-IsTraceable :
    (ids : Ids) (w : World) → AreSound ids → IsTraceable (new_request_id ids w)
new_request_id-IsTraceable ids w sound = elim (Option-cases (ids.random w.draws)) [
  | inl failed ↦ rw (failed, new_request_id) (sound.stamped w.clock)
  | inr (b, drawn) ↦
      let (size, small) = sound.filled w.draws b drawn in
      rw (drawn, new_request_id)
        (record {
          printable = hex_printable b small;
          lower = omega (arith, length-hex b);
          upper = omega (arith, length-hex b);
        })
]

accepted_id : (id : Text) → is_replaced id ≡ false → IsTraceable id
accepted_id [] e = cc
accepted_id (b ∷ id) e = record {
  printable = ground arith;
  lower = ground arith;
  upper = ground arith;
}

-- Whatever a caller sends as X-Request-Id, the id under which its request is answered and logged is
-- printable ASCII of 1 to 128 bytes, so that it can break no line of the log. An id of the caller that is so already
-- is kept as it is, and draws no random value; any other is replaced.
pub request_id_of-IsTraceable :
    (ids : Ids) (given : Text) (w : World)
    → AreSound ids
    → IsTraceable (request_id_of ids given w).0
      × (IsTraceable given → request_id_of ids given w ≡ (given, w))
      × (¬ IsTraceable given → (request_id_of ids given w).0 ≡ new_request_id ids w)
unfolding request_id_of
request_id_of-IsTraceable ids given w sound = elim (Bool-cases (is_replaced given)) [
  | inl bad ↦
      rw bad
        (new_request_id-IsTraceable ids w sound, λ fine. absurd (refused given bad fine), λ h. refl)
  | inr good ↦
      rw good
        (accepted_id given good, λ fine. refl, λ wrong. absurd (wrong (accepted_id given good)))
]
  where
    refused : (id : Text) → is_replaced id ≡ true → IsTraceable id → ⊥
    refused [] e t = omega (arith, t.lower)
    refused (b ∷ id) e t = ground (arith, t.printable, t.upper)
