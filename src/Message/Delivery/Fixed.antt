-- ===== src/Message/Delivery/Fixed.antt =====
-- Marshal followed by Unmarshal over the classes of fixed length.
use vn_sdm.Common.{◌+◌, ◌<◌, ◌^◌, ◌≡◌, arith}
use vn_sdm.Wire.{Buffer}
use vn_sdm.Header.{Timeval, IsTime, IsClass, read, header_size}
use vn_sdm.Message.SdmHello
use vn_sdm.Message.SdmHello.{SdmHello}
use vn_sdm.Message.SdmAck
use vn_sdm.Message.SdmAck.{SdmAck}
use vn_sdm.Message.SdmReady
use vn_sdm.Message.SdmReady.{SdmReady}
use vn_sdm.Message.SdmHeartbeat
use vn_sdm.Message.SdmHeartbeat.{SdmHeartbeat}
use vn_sdm.Message.SdmId
use vn_sdm.Message.SdmId.{SdmId}
use vn_sdm.Message.SdmSubreqst
use vn_sdm.Message.SdmSubreqst.{SdmSubreqst}
use vn_sdm.Message.SdmDeletesub
use vn_sdm.Message.SdmDeletesub.{SdmDeletesub}
use vn_sdm.Message.SdmCancel
use vn_sdm.Message.SdmCancel.{SdmCancel}
use vn_sdm.Message.SdmConsume
use vn_sdm.Message.SdmConsume.{SdmConsume}
use vn_sdm.Message.SdmElection
use vn_sdm.Message.SdmElection.{SdmElection}
use vn_sdm.Message.SdmDmLeader
use vn_sdm.Message.SdmDmLeader.{SdmDmLeader}
use vn_sdm.Message.SdmRegPm
use vn_sdm.Message.SdmRegPm.{SdmRegPm}
use vn_sdm.Message.SdmTat
use vn_sdm.Message.SdmTat.{SdmTat}
use vn_sdm.Message.SdmKill
use vn_sdm.Message.SdmKill.{SdmKill}
use vn_sdm.Message.AnyMessage.{
  Message, header_of, marshal, unmarshal, hello, ack, ready, heartbeat, id, subreqst, deletesub,
  cancel, consume, election, dm_leader, reg_pm, tat, kill,
}
use vn_sdm.Message.RoundTrip.Presence.{
  hello_round_trip, ack_round_trip, ready_round_trip, heartbeat_round_trip, id_round_trip,
}
use vn_sdm.Message.RoundTrip.Subscription.{
  subreqst_round_trip, deletesub_round_trip, cancel_round_trip, consume_round_trip,
}
use vn_sdm.Message.RoundTrip.Management.{
  election_round_trip, dm_leader_round_trip, reg_pm_round_trip, tat_round_trip,
}
use vn_sdm.Message.RoundTrip.Legacy.{kill_round_trip}

-- A valid message of a class without a payload, and an object of the same class.
pub data IsFixed : Message → Message → Type 0 where
  of_hello :
      {m r : SdmHello} → SdmHello.IsValid m → IsClass b'P' 11 r.header → IsFixed (hello m) (hello r)
  of_ack : {m r : SdmAck} → SdmAck.IsValid m → IsClass b'G' 2 r.header → IsFixed (ack m) (ack r)
  of_ready :
      {m r : SdmReady} → SdmReady.IsValid m → IsClass b'D' 20 r.header → IsFixed (ready m) (ready r)
  of_heartbeat :
      {m r : SdmHeartbeat}
      → SdmHeartbeat.IsValid m
      → IsClass b'h' 10 r.header
      → IsFixed (heartbeat m) (heartbeat r)
  of_id : {m r : SdmId} → SdmId.IsValid m → IsClass b'R' 10 r.header → IsFixed (id m) (id r)
  of_subreqst :
      {m r : SdmSubreqst}
      → SdmSubreqst.IsValid m
      → IsClass b'u' 24 r.header
      → IsFixed (subreqst m) (subreqst r)
  of_deletesub :
      {m r : SdmDeletesub}
      → SdmDeletesub.IsValid m
      → IsClass b'v' 22 r.header
      → IsFixed (deletesub m) (deletesub r)
  of_cancel :
      {m r : SdmCancel}
      → SdmCancel.IsValid m
      → IsClass b'm' 22 r.header
      → IsFixed (cancel m) (cancel r)
  of_consume :
      {m r : SdmConsume}
      → SdmConsume.IsValid m
      → IsClass b'l' 22 r.header
      → IsFixed (consume m) (consume r)
  of_election :
      {m r : SdmElection}
      → SdmElection.IsValid m
      → IsClass b'L' 0 r.header
      → m.header.msg_length < 2 ^ 16
      → IsFixed (election m) (election r)
  of_dm_leader :
      {m r : SdmDmLeader}
      → SdmDmLeader.IsValid m
      → IsClass b'K' 11 r.header
      → IsFixed (dm_leader m) (dm_leader r)
  of_reg_pm :
      {m r : SdmRegPm}
      → SdmRegPm.IsValid m
      → IsClass b'a' 12 r.header
      → IsFixed (reg_pm m) (reg_pm r)
  of_tat : {m r : SdmTat} → SdmTat.IsValid m → IsClass b'H' 18 r.header → IsFixed (tat m) (tat r)
  of_kill :
      {m r : SdmKill} → SdmKill.IsValid m → IsClass b'e' 5 r.header → IsFixed (kill m) (kill r)

-- A message of fixed length that any class marshals is read back whole by any object of that class,
-- to the last byte, and has the length that the class says.
pub fixed_round_trip :
    (now : Timeval) (m r : Message) (buf : Buffer)
    → IsTime now
    → IsFixed m r
    → let (m', buf', n) = marshal now m buf in
      (unmarshal r buf' ≡ (m', read n)) × (n ≡ header_size + (header_of m).total_length)
unfolding marshal unmarshal header_of
fixed_round_trip now _ _ buf t (of_hello {m} {r} v c) =
    ground (arith, hello_round_trip now m r buf t v c, v.is_class.total_eq)
fixed_round_trip now _ _ buf t (of_ack {m} {r} v c) =
    ground (arith, ack_round_trip now m r buf t v c, v.is_class.total_eq)
fixed_round_trip now _ _ buf t (of_ready {m} {r} v c) =
    ground (arith, ready_round_trip now m r buf t v c, v.is_class.total_eq)
fixed_round_trip now _ _ buf t (of_heartbeat {m} {r} v c) =
    ground (arith, heartbeat_round_trip now m r buf t v c, v.is_class.total_eq)
fixed_round_trip now _ _ buf t (of_id {m} {r} v c) =
    ground (arith, id_round_trip now m r buf t v c, v.is_class.total_eq)
fixed_round_trip now _ _ buf t (of_subreqst {m} {r} v c) =
    ground (arith, subreqst_round_trip now m r buf t v c, v.is_class.total_eq)
fixed_round_trip now _ _ buf t (of_deletesub {m} {r} v c) =
    ground (arith, deletesub_round_trip now m r buf t v c, v.is_class.total_eq)
fixed_round_trip now _ _ buf t (of_cancel {m} {r} v c) =
    ground (arith, cancel_round_trip now m r buf t v c, v.is_class.total_eq)
fixed_round_trip now _ _ buf t (of_consume {m} {r} v c) =
    ground (arith, consume_round_trip now m r buf t v c, v.is_class.total_eq)
fixed_round_trip now _ _ buf t (of_election {m} {r} v c w) =
    ground (arith, election_round_trip now m r buf t v c w, v.is_class.total_eq)
fixed_round_trip now _ _ buf t (of_dm_leader {m} {r} v c) =
    ground (arith, dm_leader_round_trip now m r buf t v c, v.is_class.total_eq)
fixed_round_trip now _ _ buf t (of_reg_pm {m} {r} v c) =
    ground (arith, reg_pm_round_trip now m r buf t v c, v.is_class.total_eq)
fixed_round_trip now _ _ buf t (of_tat {m} {r} v c) =
    ground (arith, tat_round_trip now m r buf t v c, v.is_class.total_eq)
fixed_round_trip now _ _ buf t (of_kill {m} {r} v c) =
    ground (arith, kill_round_trip now m r buf t v c, v.is_class.total_eq)
