-- ===== src/Message/Delivery.antt =====
-- Marshal followed by Unmarshal over all classes but SDMCancelxTEDS: what a sender writes is what a
-- receiver of the same class gets.
pub mod Fixed
pub mod Payload
pub mod Text
