-- ===== src/Subscription.antt =====
-- services/subscription/internal: the cache of rendered subscriptions, and personalisation.
pub mod Cache
pub mod Personalize
mod Tests
