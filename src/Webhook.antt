-- ===== src/Webhook.antt =====
-- internal/service/webhook_service.go: verification, claim, dispatch and settlement of one event.
pub mod Mapping
pub mod Handlers
pub mod Service
pub mod Keeps
pub mod Local
pub mod Settlement
pub mod Delivery
pub mod Redelivery
pub mod Deletion
pub mod Replay
pub mod Tests
