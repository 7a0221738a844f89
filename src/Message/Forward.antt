-- ===== src/Message/Forward.antt =====
-- What holds of every message class: rejection, and the time stamp of a forwarded message.
use vn_sdm.Common.{◌≡◌, ◌≢◌, arith}
use vn_sdm.Wire.{Buffer}
use vn_sdm.Header
use vn_sdm.Header.{Header, Timeval, Result, invalid_message}
use vn_sdm.Message.SdmHello
use vn_sdm.Message.SdmAck
use vn_sdm.Message.SdmSubreqst
use vn_sdm.Message.SdmDeletesub
use vn_sdm.Message.SdmCancel
use vn_sdm.Message.SdmConsume
use vn_sdm.Message.SdmReady
use vn_sdm.Message.SdmHeartbeat
use vn_sdm.Message.SdmElection
use vn_sdm.Message.SdmDmLeader
use vn_sdm.Message.SdmId
use vn_sdm.Message.SdmRegPm
use vn_sdm.Message.SdmTat
use vn_sdm.Message.SdmKill
use vn_sdm.Message.SdmCancelXteds
use vn_sdm.Message.SdmSerreqst
use vn_sdm.Message.SdmData
use vn_sdm.Message.SdmCommand
use vn_sdm.Message.SdmService
use vn_sdm.Message.SdmTask
use vn_sdm.Message.SdmTaskError
use vn_sdm.Message.SdmTaskFinished
use vn_sdm.Message.SdmReqCode
use vn_sdm.Message.SdmPostTask
use vn_sdm.Message.SdmError
use vn_sdm.Message.SdmSearch
use vn_sdm.Message.AnyMessage.{
  Message, header_of, unmarshal, hello, ack, subreqst, deletesub, cancel, consume, ready, heartbeat,
  election, dm_leader, id, reg_pm, tat, kill, cancel_xteds, serreqst, data_msg, command, service,
  task, task_error, task_finished, req_code, post_task, error, search,
}

-- A buffer that does not begin with the name of the class is rejected, and the object stays as it was.
pub unmarshal_wrong_name :
    (m : Message) (buf : Buffer)
    → buf 0 ≢ (header_of m).msg_name
    → unmarshal m buf ≡ (m, invalid_message)
unfolding unmarshal header_of SdmHello.unmarshal SdmAck.unmarshal SdmSubreqst.unmarshal
    SdmDeletesub.unmarshal SdmCancel.unmarshal SdmConsume.unmarshal SdmReady.unmarshal
    SdmHeartbeat.unmarshal SdmElection.unmarshal SdmDmLeader.unmarshal SdmId.unmarshal
    SdmRegPm.unmarshal SdmTat.unmarshal SdmKill.unmarshal SdmCancelXteds.unmarshal
    SdmSerreqst.unmarshal SdmData.unmarshal SdmCommand.unmarshal SdmService.unmarshal
    SdmTask.unmarshal SdmTaskError.unmarshal SdmTaskFinished.unmarshal SdmReqCode.unmarshal
    SdmPostTask.unmarshal SdmError.unmarshal SdmSearch.unmarshal Header.unmarshal
unmarshal_wrong_name (hello m) buf ne = ground arith
unmarshal_wrong_name (ack m) buf ne = ground arith
unmarshal_wrong_name (subreqst m) buf ne = ground arith
unmarshal_wrong_name (deletesub m) buf ne = ground arith
unmarshal_wrong_name (cancel m) buf ne = ground arith
unmarshal_wrong_name (consume m) buf ne = ground arith
unmarshal_wrong_name (ready m) buf ne = ground arith
unmarshal_wrong_name (heartbeat m) buf ne = ground arith
unmarshal_wrong_name (election m) buf ne = ground arith
unmarshal_wrong_name (dm_leader m) buf ne = ground arith
unmarshal_wrong_name (id m) buf ne = ground arith
unmarshal_wrong_name (reg_pm m) buf ne = ground arith
unmarshal_wrong_name (tat m) buf ne = ground arith
unmarshal_wrong_name (kill m) buf ne = ground arith
unmarshal_wrong_name (cancel_xteds m) buf ne = ground arith
unmarshal_wrong_name (serreqst m) buf ne = ground arith
unmarshal_wrong_name (data_msg m) buf ne = ground arith
unmarshal_wrong_name (command m) buf ne = ground arith
unmarshal_wrong_name (service m) buf ne = ground arith
unmarshal_wrong_name (task m) buf ne = ground arith
unmarshal_wrong_name (task_error m) buf ne = ground arith
unmarshal_wrong_name (task_finished m) buf ne = ground arith
unmarshal_wrong_name (req_code m) buf ne = ground arith
unmarshal_wrong_name (post_task m) buf ne = ground arith
unmarshal_wrong_name (error m) buf ne = ground arith
unmarshal_wrong_name (search m) buf ne = ground arith

-- The time stamp that a message carries.
abbrev stamp : Message → Timeval
stamp m = record { tv_sec = (header_of m).sec; tv_usec = (header_of m).subsec }

-- Every class but SDMCancelxTEDS.
abbrev pub IsPlain : Message → Type 0
IsPlain (cancel_xteds m) = ⊥
IsPlain _ = Unit
