-- ===== src/Notify.antt =====
-- internal/notify/notify.go: which subscriptions an event goes to. The delivery itself, which calls a webhook, is
-- a parameter: whether it succeeds.
pub mod Fanout
pub mod Window
pub mod Delivery
