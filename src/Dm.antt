-- ===== src/Dm.antt =====
-- The bookkeeping of the Data Manager, dm/.
pub mod ProviderSubscriptionList
pub mod BackupDmList
pub mod Subscription
pub mod SubscriptionList
pub mod SegmentBuilder
