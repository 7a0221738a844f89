-- ===== src/Message/SdmService.antt =====
-- common/message/SDMService.{h,cpp}: a request to the Data Manager for a service. The payload is the array `payload` and its `length`.
use vn_sdm.Common.{ℕ, ◌+◌, ◌-◌, ◌^◌, ◌<◌, ◌≤◌, if◌then◌else◌}
use vn_sdm.Wire.{Buffer, memcpy, short_gt, put_short, get_short}
use vn_sdm.ComponentId
use vn_sdm.ComponentId.{ComponentId, component_id_invalid}
use vn_sdm.MessageId
use vn_sdm.MessageId.{MessageId, message_id_zero}
use vn_sdm.Header
use vn_sdm.Header.{Header, Timeval, Result, invalid_message, read, header_size, new_header, IsClass}

-- class SDMService
pub record SdmService : Type 0 where
  pub header : Header
  pub source : ComponentId
  pub destination : ComponentId
  pub command_id : MessageId
  pub seq_num : ℕ
  pub payload : Buffer
  pub length : ℕ

-- The size of the array `payload`.
abbrev pub capacity : ℕ
capacity = 24253

-- The constructor.
abbrev pub create : SdmService
create = record {
  header = new_header b'x' 24;
  source = component_id_invalid;
  destination = component_id_invalid;
  command_id = message_id_zero;
  seq_num = 0;
  payload = λ _. 0;
  length = 0;
}

-- What the constructor sets, fields that fit their C types, and a payload that fits the array.
pub record IsValid (m : SdmService) : Type 0 where
  pub is_class : IsClass b'x' 24 m.header
  pub source_valid : ComponentId.IsValid m.source
  pub destination_valid : ComponentId.IsValid m.destination
  pub command_id_valid : MessageId.IsValid m.command_id
  pub seq_num_lt : m.seq_num < 2 ^ 16
  pub fits : m.length ≤ capacity

-- `Marshal`: the message with its new header, the buffer and the offset behind the last byte.
unfoldable pub marshal : Timeval → SdmService → Buffer → SdmService × Buffer × ℕ
unfolding ComponentId.marshal MessageId.marshal put_short memcpy Header.marshal
marshal now m buf =
    let cur : ℕ = header_size in
    let (b1, n1) = ComponentId.marshal m.source buf cur in
    let cur1 = cur + n1 in
    let (b2, n2) = ComponentId.marshal m.destination b1 cur1 in
    let cur2 = cur1 + n2 in
    let (b3, n3) = MessageId.marshal m.command_id b2 cur2 in
    let cur3 = cur2 + n3 in
    let b4 = put_short b3 cur3 m.seq_num in
    let cur4 = cur3 + 2 in
    let b5 = memcpy b4 cur4 m.payload 0 m.length in
    let cur5 = cur4 + m.length in
    let (h, b') = Header.marshal now (record (m.header) { msg_length = cur5 - header_size }) b5 in
    (record m { header = h }, b', cur5)

-- The rest of `Unmarshal`, behind an accepted header.
unmarshal_body : SdmService → Buffer → ℕ → SdmService × Result
unfolding ComponentId.unmarshal MessageId.unmarshal get_short memcpy
unmarshal_body m buf cur =
    let (source, n1) = ComponentId.unmarshal buf cur in
    let cur1 = cur + n1 in
    let (destination, n2) = ComponentId.unmarshal buf cur1 in
    let cur2 = cur1 + n2 in
    let (command_id, n3) = MessageId.unmarshal buf cur2 in
    let cur3 = cur2 + n3 in
    let seq_num = get_short buf cur3 in
    let cur4 = cur3 + 2 in
    let length = m.header.msg_length + header_size - cur4 in
    (
      record m {
        source = source;
        destination = destination;
        command_id = command_id;
        seq_num = seq_num;
        payload = memcpy m.payload 0 buf cur4 length;
        length = length;
      },
      read (m.header.msg_length + header_size),
    )

-- `Unmarshal`: a rejected message may have replaced the header.
unfoldable pub unmarshal : SdmService → Buffer → SdmService × Result
unfolding unmarshal_body Header.unmarshal
unmarshal m buf =
    let (h, r) = Header.unmarshal m.header buf in
    let m' : SdmService = record m { header = h } in
    elim r [
      | invalid_message ↦ (m', invalid_message)
      | read cur ↦
          if short_gt h.total_length h.msg_length
          then (m', invalid_message)
          else unmarshal_body m' buf cur
    ]
