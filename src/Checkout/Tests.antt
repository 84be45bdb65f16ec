-- ===== src/Checkout/Tests.antt =====
-- The theorem on checkout requests, applied to one user and a price that is on offer.
use stripe_payment_service.Prelude.{inl, inr, false, [], ◌∷◌}
use stripe_payment_service.Prelude.Int.{pos}
use stripe_payment_service.Stripe.Objects.{transport}
use stripe_payment_service.Webhook.Tests.{platform}
use stripe_payment_service.Checkout.{CheckoutService, CheckoutRequest}

abbrev service : CheckoutService
service = record {
  platform = platform;
  sdk = record {
    create_session = λ params now. inr (record {
      id = "cs_1";
      url = "https://checkout.example.com/cs_1";
      client_secret = "";
      expires_at = pos 0;
    });
    create_portal = λ customer return_url now. inl (transport "connection refused");
  };
  config = record {
    success_url = "https://app.example.com/success";
    cancel_url = "https://app.example.com/cancel";
    return_url = "";
    portal_return_url = "";
    allowed_price_ids = "price_basic" ∷ [];
  };
}

abbrev request : CheckoutRequest
request = record {
  user_id = 7;
  price_id = "price_basic";
  quantity = pos 0;
  trial_period_days = pos 0;
  is_embedded = false;
}
