-- ===== src/Message/Delivery/Payload.antt =====
-- Marshal followed by Unmarshal over the classes that carry a payload.
use vn_sdm.Common.{ℕ, ◌+◌, ◌≡◌, arith}
use vn_sdm.Wire.{Buffer, memcpy}
use vn_sdm.Header.{Timeval, IsTime, IsClass, read, header_size}
use vn_sdm.Message.SdmSerreqst
use vn_sdm.Message.SdmSerreqst.{SdmSerreqst}
use vn_sdm.Message.SdmData
use vn_sdm.Message.SdmData.{SdmData}
use vn_sdm.Message.SdmCommand
use vn_sdm.Message.SdmCommand.{SdmCommand}
use vn_sdm.Message.SdmService
use vn_sdm.Message.SdmService.{SdmService}
use vn_sdm.Message.AnyMessage.{
  Message, header_of, marshal, unmarshal, serreqst, data_msg, command, service,
}
use vn_sdm.Message.RoundTrip.Payload.{
  serreqst_round_trip, data_round_trip, command_round_trip, service_round_trip,
}

-- A valid message with a payload, and an object of the same class.
pub data Carries : Message → Message → Type 0 where
  of_serreqst :
      {m r : SdmSerreqst}
      → SdmSerreqst.IsValid m
      → IsClass b'y' 28 r.header
      → Carries (serreqst m) (serreqst r)
  of_data_msg :
      {m r : SdmData}
      → SdmData.IsValid m
      → IsClass b't' 18 r.header
      → Carries (data_msg m) (data_msg r)
  of_command :
      {m r : SdmCommand}
      → SdmCommand.IsValid m
      → IsClass b'z' 24 r.header
      → Carries (command m) (command r)
  of_service :
      {m r : SdmService}
      → SdmService.IsValid m
      → IsClass b'x' 24 r.header
      → Carries (service m) (service r)

-- The length of the message behind the header: what the class says, and the payload.
abbrev pub payload_length : Message → ℕ
payload_length (serreqst m) = m.length
payload_length (data_msg m) = m.length
payload_length (command m) = m.length
payload_length (service m) = m.length
payload_length _ = 0

-- What an object of the class holds once it has received a message: its array is overwritten as far
-- as the payload goes, and a command's inherited sequence number is not sent.
abbrev pub received_payload : Message → Message → Message
received_payload (serreqst r) (serreqst m) =
    serreqst (record m { payload = memcpy r.payload 0 m.payload 0 m.length })
received_payload (data_msg r) (data_msg m) =
    data_msg (record m { msg = memcpy r.msg 0 m.msg 0 m.length })
received_payload (command r) (command m) =
    command (record m { seq_num = r.seq_num; payload = memcpy r.payload 0 m.payload 0 m.length })
received_payload (service r) (service m) =
    service (record m { payload = memcpy r.payload 0 m.payload 0 m.length })
received_payload _ m = m

-- A message with a payload that its class marshals is read back by any object of that class: every
-- field that is sent, and the payload at the start of the object's array, which stays as it was behind
-- it. The sequence number of an SDMCommand is not sent: the receiver keeps its own.
pub payload_round_trip :
    (now : Timeval) (m r : Message) (buf : Buffer)
    → IsTime now
    → Carries m r
    → let (m', buf', n) = marshal now m buf in
      (unmarshal r buf' ≡ (received_payload r m', read n))
      × (n ≡ header_size + (header_of m).total_length + payload_length m)
unfolding marshal unmarshal header_of SdmSerreqst.marshal SdmData.marshal SdmCommand.marshal
    SdmService.marshal
payload_round_trip now _ _ buf t (of_serreqst {m} {r} v c) =
    ground (arith, serreqst_round_trip now m r buf t v c, v.is_class.total_eq)
payload_round_trip now _ _ buf t (of_data_msg {m} {r} v c) =
    ground (arith, data_round_trip now m r buf t v c, v.is_class.total_eq)
payload_round_trip now _ _ buf t (of_command {m} {r} v c) =
    ground (arith, command_round_trip now m r buf t v c, v.is_class.total_eq)
payload_round_trip now _ _ buf t (of_service {m} {r} v c) =
    ground (arith, service_round_trip now m r buf t v c, v.is_class.total_eq)
