-- ===== src/Message/AnyMessage.antt =====
-- The virtual methods of common/message/SDMmessage.h over the modelled message classes, and `Forward`
-- of SDMmessage.cpp, which sends a received message on with the time stamp that it had.
use vn_sdm.Common.{ℕ}
use vn_sdm.Wire.{Buffer}
use vn_sdm.Header
use vn_sdm.Header.{Header, Timeval, Result}
use vn_sdm.Message.SdmHello
use vn_sdm.Message.SdmHello.{SdmHello}
use vn_sdm.Message.SdmAck
use vn_sdm.Message.SdmAck.{SdmAck}
use vn_sdm.Message.SdmSubreqst
use vn_sdm.Message.SdmSubreqst.{SdmSubreqst}
use vn_sdm.Message.SdmDeletesub
use vn_sdm.Message.SdmDeletesub.{SdmDeletesub}
use vn_sdm.Message.SdmCancel
use vn_sdm.Message.SdmCancel.{SdmCancel}
use vn_sdm.Message.SdmConsume
use vn_sdm.Message.SdmConsume.{SdmConsume}
use vn_sdm.Message.SdmReady
use vn_sdm.Message.SdmReady.{SdmReady}
use vn_sdm.Message.SdmHeartbeat
use vn_sdm.Message.SdmHeartbeat.{SdmHeartbeat}
use vn_sdm.Message.SdmElection
use vn_sdm.Message.SdmElection.{SdmElection}
use vn_sdm.Message.SdmDmLeader
use vn_sdm.Message.SdmDmLeader.{SdmDmLeader}
use vn_sdm.Message.SdmId
use vn_sdm.Message.SdmId.{SdmId}
use vn_sdm.Message.SdmRegPm
use vn_sdm.Message.SdmRegPm.{SdmRegPm}
use vn_sdm.Message.SdmTat
use vn_sdm.Message.SdmTat.{SdmTat}
use vn_sdm.Message.SdmKill
use vn_sdm.Message.SdmKill.{SdmKill}
use vn_sdm.Message.SdmCancelXteds
use vn_sdm.Message.SdmCancelXteds.{SdmCancelXteds}
use vn_sdm.Message.SdmSerreqst
use vn_sdm.Message.SdmSerreqst.{SdmSerreqst}
use vn_sdm.Message.SdmData
use vn_sdm.Message.SdmData.{SdmData}
use vn_sdm.Message.SdmCommand
use vn_sdm.Message.SdmCommand.{SdmCommand}
use vn_sdm.Message.SdmService
use vn_sdm.Message.SdmService.{SdmService}
use vn_sdm.Message.SdmTask
use vn_sdm.Message.SdmTask.{SdmTask}
use vn_sdm.Message.SdmTaskError
use vn_sdm.Message.SdmTaskError.{SdmTaskError}
use vn_sdm.Message.SdmTaskFinished
use vn_sdm.Message.SdmTaskFinished.{SdmTaskFinished}
use vn_sdm.Message.SdmReqCode
use vn_sdm.Message.SdmReqCode.{SdmReqCode}
use vn_sdm.Message.SdmPostTask
use vn_sdm.Message.SdmPostTask.{SdmPostTask}
use vn_sdm.Message.SdmError
use vn_sdm.Message.SdmError.{SdmError}
use vn_sdm.Message.SdmSearch
use vn_sdm.Message.SdmSearch.{SdmSearch}

-- An object of a subclass of SDMmessage.
pub data Message : Type 0 where
  hello : SdmHello → Message
  ack : SdmAck → Message
  subreqst : SdmSubreqst → Message
  deletesub : SdmDeletesub → Message
  cancel : SdmCancel → Message
  consume : SdmConsume → Message
  ready : SdmReady → Message
  heartbeat : SdmHeartbeat → Message
  election : SdmElection → Message
  dm_leader : SdmDmLeader → Message
  id : SdmId → Message
  reg_pm : SdmRegPm → Message
  tat : SdmTat → Message
  kill : SdmKill → Message
  cancel_xteds : SdmCancelXteds → Message
  serreqst : SdmSerreqst → Message
  data_msg : SdmData → Message
  command : SdmCommand → Message
  service : SdmService → Message
  task : SdmTask → Message
  task_error : SdmTaskError → Message
  task_finished : SdmTaskFinished → Message
  req_code : SdmReqCode → Message
  post_task : SdmPostTask → Message
  error : SdmError → Message
  search : SdmSearch → Message

-- The members of the base class.
unfoldable pub header_of : Message → Header
header_of (hello m) = m.header
header_of (ack m) = m.header
header_of (subreqst m) = m.header
header_of (deletesub m) = m.header
header_of (cancel m) = m.header
header_of (consume m) = m.header
header_of (ready m) = m.header
header_of (heartbeat m) = m.header
header_of (election m) = m.header
header_of (dm_leader m) = m.header
header_of (id m) = m.header
header_of (reg_pm m) = m.header
header_of (tat m) = m.header
header_of (kill m) = m.header
header_of (cancel_xteds m) = m.header
header_of (serreqst m) = m.header
header_of (data_msg m) = m.header
header_of (command m) = m.header
header_of (service m) = m.header
header_of (task m) = m.header
header_of (task_error m) = m.header
header_of (task_finished m) = m.header
header_of (req_code m) = m.header
header_of (post_task m) = m.header
header_of (error m) = m.header
header_of (search m) = m.header

-- The base class's members assigned.
unfoldable pub with_header : Header → Message → Message
with_header h (hello m) = hello (record m { header = h })
with_header h (ack m) = ack (record m { header = h })
with_header h (subreqst m) = subreqst (record m { header = h })
with_header h (deletesub m) = deletesub (record m { header = h })
with_header h (cancel m) = cancel (record m { header = h })
with_header h (consume m) = consume (record m { header = h })
with_header h (ready m) = ready (record m { header = h })
with_header h (heartbeat m) = heartbeat (record m { header = h })
with_header h (election m) = election (record m { header = h })
with_header h (dm_leader m) = dm_leader (record m { header = h })
with_header h (id m) = id (record m { header = h })
with_header h (reg_pm m) = reg_pm (record m { header = h })
with_header h (tat m) = tat (record m { header = h })
with_header h (kill m) = kill (record m { header = h })
with_header h (cancel_xteds m) = cancel_xteds (record m { header = h })
with_header h (serreqst m) = serreqst (record m { header = h })
with_header h (data_msg m) = data_msg (record m { header = h })
with_header h (command m) = command (record m { header = h })
with_header h (service m) = service (record m { header = h })
with_header h (task m) = task (record m { header = h })
with_header h (task_error m) = task_error (record m { header = h })
with_header h (task_finished m) = task_finished (record m { header = h })
with_header h (req_code m) = req_code (record m { header = h })
with_header h (post_task m) = post_task (record m { header = h })
with_header h (error m) = error (record m { header = h })
with_header h (search m) = search (record m { header = h })

-- `Marshal`
unfoldable pub marshal : Timeval → Message → Buffer → Message × Buffer × ℕ
marshal now (hello m) buf = let (m', b, n) = SdmHello.marshal now m buf in (hello m', b, n)
marshal now (ack m) buf = let (m', b, n) = SdmAck.marshal now m buf in (ack m', b, n)
marshal now (subreqst m) buf = let (m', b, n) = SdmSubreqst.marshal now m buf in (subreqst m', b, n)
marshal now (deletesub m) buf =
    let (m', b, n) = SdmDeletesub.marshal now m buf in (deletesub m', b, n)
marshal now (cancel m) buf = let (m', b, n) = SdmCancel.marshal now m buf in (cancel m', b, n)
marshal now (consume m) buf = let (m', b, n) = SdmConsume.marshal now m buf in (consume m', b, n)
marshal now (ready m) buf = let (m', b, n) = SdmReady.marshal now m buf in (ready m', b, n)
marshal now (heartbeat m) buf =
    let (m', b, n) = SdmHeartbeat.marshal now m buf in (heartbeat m', b, n)
marshal now (election m) buf = let (m', b, n) = SdmElection.marshal now m buf in (election m', b, n)
marshal now (dm_leader m) buf =
    let (m', b, n) = SdmDmLeader.marshal now m buf in (dm_leader m', b, n)
marshal now (id m) buf = let (m', b, n) = SdmId.marshal now m buf in (id m', b, n)
marshal now (reg_pm m) buf = let (m', b, n) = SdmRegPm.marshal now m buf in (reg_pm m', b, n)
marshal now (tat m) buf = let (m', b, n) = SdmTat.marshal now m buf in (tat m', b, n)
marshal now (kill m) buf = let (m', b, n) = SdmKill.marshal now m buf in (kill m', b, n)
marshal now (cancel_xteds m) buf =
    let (m', b, n) = SdmCancelXteds.marshal now m buf in (cancel_xteds m', b, n)
marshal now (serreqst m) buf = let (m', b, n) = SdmSerreqst.marshal now m buf in (serreqst m', b, n)
marshal now (data_msg m) buf = let (m', b, n) = SdmData.marshal now m buf in (data_msg m', b, n)
marshal now (command m) buf = let (m', b, n) = SdmCommand.marshal now m buf in (command m', b, n)
marshal now (service m) buf = let (m', b, n) = SdmService.marshal now m buf in (service m', b, n)
marshal now (task m) buf = let (m', b, n) = SdmTask.marshal now m buf in (task m', b, n)
marshal now (task_error m) buf =
    let (m', b, n) = SdmTaskError.marshal now m buf in (task_error m', b, n)
marshal now (task_finished m) buf =
    let (m', b, n) = SdmTaskFinished.marshal now m buf in (task_finished m', b, n)
marshal now (req_code m) buf = let (m', b, n) = SdmReqCode.marshal now m buf in (req_code m', b, n)
marshal now (post_task m) buf =
    let (m', b, n) = SdmPostTask.marshal now m buf in (post_task m', b, n)
marshal now (error m) buf = let (m', b, n) = SdmError.marshal now m buf in (error m', b, n)
marshal now (search m) buf = let (m', b, n) = SdmSearch.marshal now m buf in (search m', b, n)

-- `Unmarshal`
unfoldable pub unmarshal : Message → Buffer → Message × Result
unmarshal (hello m) buf = let (m', r) = SdmHello.unmarshal m buf in (hello m', r)
unmarshal (ack m) buf = let (m', r) = SdmAck.unmarshal m buf in (ack m', r)
unmarshal (subreqst m) buf = let (m', r) = SdmSubreqst.unmarshal m buf in (subreqst m', r)
unmarshal (deletesub m) buf = let (m', r) = SdmDeletesub.unmarshal m buf in (deletesub m', r)
unmarshal (cancel m) buf = let (m', r) = SdmCancel.unmarshal m buf in (cancel m', r)
unmarshal (consume m) buf = let (m', r) = SdmConsume.unmarshal m buf in (consume m', r)
unmarshal (ready m) buf = let (m', r) = SdmReady.unmarshal m buf in (ready m', r)
unmarshal (heartbeat m) buf = let (m', r) = SdmHeartbeat.unmarshal m buf in (heartbeat m', r)
unmarshal (election m) buf = let (m', r) = SdmElection.unmarshal m buf in (election m', r)
unmarshal (dm_leader m) buf = let (m', r) = SdmDmLeader.unmarshal m buf in (dm_leader m', r)
unmarshal (id m) buf = let (m', r) = SdmId.unmarshal m buf in (id m', r)
unmarshal (reg_pm m) buf = let (m', r) = SdmRegPm.unmarshal m buf in (reg_pm m', r)
unmarshal (tat m) buf = let (m', r) = SdmTat.unmarshal m buf in (tat m', r)
unmarshal (kill m) buf = let (m', r) = SdmKill.unmarshal m buf in (kill m', r)
unmarshal (cancel_xteds m) buf =
    let (m', r) = SdmCancelXteds.unmarshal m buf in (cancel_xteds m', r)
unmarshal (serreqst m) buf = let (m', r) = SdmSerreqst.unmarshal m buf in (serreqst m', r)
unmarshal (data_msg m) buf = let (m', r) = SdmData.unmarshal m buf in (data_msg m', r)
unmarshal (command m) buf = let (m', r) = SdmCommand.unmarshal m buf in (command m', r)
unmarshal (service m) buf = let (m', r) = SdmService.unmarshal m buf in (service m', r)
unmarshal (task m) buf = let (m', r) = SdmTask.unmarshal m buf in (task m', r)
unmarshal (task_error m) buf = let (m', r) = SdmTaskError.unmarshal m buf in (task_error m', r)
unmarshal (task_finished m) buf =
    let (m', r) = SdmTaskFinished.unmarshal m buf in (task_finished m', r)
unmarshal (req_code m) buf = let (m', r) = SdmReqCode.unmarshal m buf in (req_code m', r)
unmarshal (post_task m) buf = let (m', r) = SdmPostTask.unmarshal m buf in (post_task m', r)
unmarshal (error m) buf = let (m', r) = SdmError.unmarshal m buf in (error m', r)
unmarshal (search m) buf = let (m', r) = SdmSearch.unmarshal m buf in (search m', r)

-- What `Forward` hands to the socket: nothing for SDMxTEDS, else the buffer and its length. The
-- message is marshalled at the time of the call, and its header once more with the old time stamp.
unfoldable pub forward : Timeval → Message → Buffer → Message × Buffer × ℕ
unfolding header_of with_header marshal
forward now m buf =
    let old = header_of m in
    let (m1, b1, message_length) = marshal now m buf in
    let h : Header = record (header_of m1) { sec = old.sec; subsec = old.subsec } in
    (with_header h m1, Header.marshal_old_time_stamp h b1, message_length)
