-- ===== src/Message/SdmData.antt =====
-- common/message/SDMData.{h,cpp}: a published data message. The payload is the array `msg` and its `length`.
use vn_sdm.Common.{ℕ, ◌+◌, ◌-◌, ◌^◌, ◌<◌, ◌≤◌, if◌then◌else◌}
use vn_sdm.Wire.{Buffer, memcpy, short_gt, put_long, put_short, get_long, get_short}
use vn_sdm.ComponentId
use vn_sdm.ComponentId.{ComponentId, component_id_invalid}
use vn_sdm.MessageId
use vn_sdm.MessageId.{MessageId, message_id_zero}
use vn_sdm.Header
use vn_sdm.Header.{Header, Timeval, Result, invalid_message, read, header_size, new_header, IsClass}

-- class SDMData
pub record SdmData : Type 0 where
  pub header : Header
  pub source : ComponentId
  pub msg_id : MessageId
  pub pid : ℕ
  pub seq_num : ℕ
  pub msg : Buffer
  pub length : ℕ

-- The size of the array `msg`.
abbrev pub capacity : ℕ
capacity = 24259

-- The constructor, in the process `pid` of the SDM.
abbrev pub create : ℕ → SdmData
create pid = record {
  header = new_header b't' 18;
  source = component_id_invalid;
  msg_id = message_id_zero;
  pid = pid;
  seq_num = 0;
  msg = λ _. 0;
  length = 0;
}

-- What the constructor sets, fields that fit their C types, and a payload that fits the array.
pub record IsValid (m : SdmData) : Type 0 where
  pub is_class : IsClass b't' 18 m.header
  pub source_valid : ComponentId.IsValid m.source
  pub msg_id_valid : MessageId.IsValid m.msg_id
  pub pid_lt : m.pid < 2 ^ 32
  pub seq_num_lt : m.seq_num < 2 ^ 16
  pub fits : m.length ≤ capacity

-- `Marshal(char*, long)`
unfoldable pub marshal_length : Timeval → SdmData → Buffer → ℕ → SdmData × Buffer × ℕ
unfolding ComponentId.marshal MessageId.marshal put_long put_short memcpy Header.marshal
marshal_length now m buf data_length =
    let cur : ℕ = header_size in
    let (b1, n1) = ComponentId.marshal m.source buf cur in
    let cur1 = cur + n1 in
    let (b2, n2) = MessageId.marshal m.msg_id b1 cur1 in
    let cur2 = cur1 + n2 in
    let b3 = put_long b2 cur2 m.pid in
    let cur3 = cur2 + 4 in
    let b4 = put_short b3 cur3 m.seq_num in
    let cur4 = cur3 + 2 in
    let b5 = memcpy b4 cur4 m.msg 0 data_length in
    let cur5 = cur4 + data_length in
    let (h, b') = Header.marshal now (record (m.header) { msg_length = cur5 - header_size }) b5 in
    (record m { header = h }, b', cur5)

-- `Marshal(char*)`
unfoldable pub marshal : Timeval → SdmData → Buffer → SdmData × Buffer × ℕ
unfolding marshal_length
marshal now m buf = marshal_length now m buf m.length

-- The rest of `Unmarshal`, behind an accepted header.
unmarshal_body : SdmData → Buffer → ℕ → SdmData × Result
unfolding ComponentId.unmarshal MessageId.unmarshal get_long get_short memcpy
unmarshal_body m buf cur =
    let (source, n1) = ComponentId.unmarshal buf cur in
    let cur1 = cur + n1 in
    let (msg_id, n2) = MessageId.unmarshal buf cur1 in
    let cur2 = cur1 + n2 in
    let pid = get_long buf cur2 in
    let cur3 = cur2 + 4 in
    let seq_num = get_short buf cur3 in
    let cur4 = cur3 + 2 in
    let length = m.header.msg_length + header_size - cur4 in
    (
      record m {
        source = source;
        msg_id = msg_id;
        pid = pid;
        seq_num = seq_num;
        msg = memcpy m.msg 0 buf cur4 length;
        length = length;
      },
      read (m.header.msg_length + header_size),
    )

-- `Unmarshal`: a rejected message may have replaced the header.
unfoldable pub unmarshal : SdmData → Buffer → SdmData × Result
unfolding unmarshal_body Header.unmarshal
unmarshal m buf =
    let (h, r) = Header.unmarshal m.header buf in
    let m' : SdmData = record m { header = h } in
    elim r [
      | invalid_message ↦ (m', invalid_message)
      | read cur ↦
          if short_gt h.total_length h.msg_length
          then (m', invalid_message)
          else unmarshal_body m' buf cur
    ]
