-- ===== src/Http/Webhook.antt =====
-- internal/handler/stripe_handler.go: HandleWebhook, which answers one delivery of Stripe.
use stripe_payment_service.Prelude.{ℕ, ◌*◌, String, ◌⊎◌, inl, inr, ◌==◌, or_default, if◌then◌else◌}
use stripe_payment_service.Domain.Errors.{Result, ok, err, is_sentinel, signature_verification}
use stripe_payment_service.Domain.Time.{Duration}
use stripe_payment_service.Stripe.Objects.{Platform}
use stripe_payment_service.Webhook.Handlers.{Outcome}
use stripe_payment_service.Webhook.Service.{process_event, outcome_text}
use stripe_payment_service.Http.{
  Response, Request, ReadError, too_large, broken, write_json, write_error, status_body,
}
use stripe_payment_service.Run.{Run, pure, attempt, ◌>>=◌}

abbrev pub max_webhook_bytes : ℕ
max_webhook_bytes = 256 * 1024

-- The answer to what ProcessEvent returned.
unfoldable pub webhook_answer : Result Outcome → Response
webhook_answer (ok outcome) = write_json 200 (status_body (outcome_text outcome))
webhook_answer (err e) =
    if is_sentinel signature_verification e
    then write_error 400 "signature verification failed"
    else write_error 500 "event processing failed"

-- The branches on the body that was read.
unfoldable pub answer_body :
    Platform → (stale_after : Duration) → (signature : String) → ReadError ⊎ String → Run Response
answer_body p stale_after signature (inl too_large) = pure (write_error 413 "payload too large")
answer_body p stale_after signature (inl broken) =
    pure (write_error 400 "could not read request body")
answer_body p stale_after signature (inr payload) = do
  result ← attempt (process_event p stale_after payload signature)
  pure (webhook_answer result)

-- HandleWebhook, for a limit that is not negative: zero selects the default.
unfoldable pub handle_webhook :
    Platform → (stale_after : Duration) → (limit : ℕ) → Request → Run Response
handle_webhook p stale_after limit r =
    let signature = r.header "Stripe-Signature" in
    if signature == ""
    then pure (write_error 400 "missing signature")
    else answer_body p stale_after signature (r.read_body (or_default limit max_webhook_bytes))
