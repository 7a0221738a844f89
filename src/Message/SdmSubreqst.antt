-- ===== src/Message/SdmSubreqst.antt =====
-- common/message/SDMSubreqst.{h,cpp}: a request to a provider to publish a message to a subscriber.
use vn_sdm.Common.{ℕ, ◌+◌, ◌-◌, ◌==◌, if◌then◌else◌}
use vn_sdm.Wire.{Buffer}
use vn_sdm.ComponentId
use vn_sdm.ComponentId.{ComponentId, component_id_invalid}
use vn_sdm.MessageId
use vn_sdm.MessageId.{MessageId, message_id_zero}
use vn_sdm.Header
use vn_sdm.Header.{Header, Timeval, Result, invalid_message, read, header_size, new_header, IsClass}

-- class SDMSubreqst
pub record SdmSubreqst : Type 0 where
  pub header : Header
  pub source : ComponentId
  pub destination : ComponentId
  pub msg_id : MessageId
  pub fault_id : MessageId

-- The constructor.
abbrev pub create : SdmSubreqst
create = record {
  header = new_header b'u' 24;
  source = component_id_invalid;
  destination = component_id_invalid;
  msg_id = message_id_zero;
  fault_id = message_id_zero;
}

-- What the constructor sets, and fields that fit their C types.
pub record IsValid (m : SdmSubreqst) : Type 0 where
  pub is_class : IsClass b'u' 24 m.header
  pub source_valid : ComponentId.IsValid m.source
  pub destination_valid : ComponentId.IsValid m.destination
  pub msg_id_valid : MessageId.IsValid m.msg_id
  pub fault_id_valid : MessageId.IsValid m.fault_id

-- `Marshal`: the message with its new header, the buffer and the offset behind the last byte.
unfoldable pub marshal : Timeval → SdmSubreqst → Buffer → SdmSubreqst × Buffer × ℕ
unfolding ComponentId.marshal MessageId.marshal Header.marshal
marshal now m buf =
    let cur : ℕ = header_size in
    let (b1, n1) = ComponentId.marshal m.source buf cur in
    let cur1 = cur + n1 in
    let (b2, n2) = ComponentId.marshal m.destination b1 cur1 in
    let cur2 = cur1 + n2 in
    let (b3, n3) = MessageId.marshal m.msg_id b2 cur2 in
    let cur3 = cur2 + n3 in
    let (b4, n4) = MessageId.marshal m.fault_id b3 cur3 in
    let cur4 = cur3 + n4 in
    let (h, b') = Header.marshal now (record (m.header) { msg_length = cur4 - header_size }) b4 in
    (record m { header = h }, b', cur4)

-- The rest of `Unmarshal`, behind an accepted header.
unmarshal_body : SdmSubreqst → Buffer → ℕ → SdmSubreqst × Result
unfolding ComponentId.unmarshal MessageId.unmarshal
unmarshal_body m buf cur =
    let (source, n1) = ComponentId.unmarshal buf cur in
    let cur1 = cur + n1 in
    let (destination, n2) = ComponentId.unmarshal buf cur1 in
    let cur2 = cur1 + n2 in
    let (msg_id, n3) = MessageId.unmarshal buf cur2 in
    let cur3 = cur2 + n3 in
    let (fault_id, n4) = MessageId.unmarshal buf cur3 in
    let cur4 = cur3 + n4 in
    (
      record m { source = source; destination = destination; msg_id = msg_id; fault_id = fault_id },
      read cur4,
    )

-- `Unmarshal`: a rejected message may have replaced the header.
unfoldable pub unmarshal : SdmSubreqst → Buffer → SdmSubreqst × Result
unfolding unmarshal_body Header.unmarshal
unmarshal m buf =
    let (h, r) = Header.unmarshal m.header buf in
    let m' : SdmSubreqst = record m { header = h } in
    elim r [
      | invalid_message ↦ (m', invalid_message)
      | read cur ↦
          if h.total_length == h.msg_length
          then unmarshal_body m' buf cur
          else (m', invalid_message)
    ]
