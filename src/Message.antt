-- ===== src/Message.antt =====
-- The message classes of common/message.
pub mod SdmHello
pub mod SdmAck
pub mod SdmSubreqst
pub mod SdmDeletesub
pub mod SdmCancel
pub mod SdmConsume
pub mod SdmReady
pub mod SdmHeartbeat
pub mod SdmElection
pub mod SdmDmLeader
pub mod SdmId
pub mod SdmRegPm
pub mod SdmTat
pub mod RoundTrip
pub mod SdmSerreqst
pub mod SdmData
pub mod SdmCommand
pub mod SdmService
pub mod SdmKill
pub mod SdmCancelXteds
pub mod SdmTask
pub mod SdmTaskError
pub mod SdmTaskFinished
pub mod SdmReqCode
pub mod SdmPostTask
pub mod SdmError
pub mod SdmSearch
pub mod AnyMessage
pub mod Forward
pub mod Delivery
