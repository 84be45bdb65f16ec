-- ===== src/Stripe.antt =====
-- The parts of the payment provider's SDK and of other libraries that the service calls.
pub mod Objects
pub mod Client
pub mod Checkout
