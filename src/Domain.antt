-- ===== src/Domain.antt =====
-- internal/domain: the core entities and their errors.
pub mod Errors
pub mod Status
pub mod Time
pub mod Webhook
pub mod Subscription
pub mod User
pub mod Token
