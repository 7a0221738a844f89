-- ===== src/Message/SdmHeartbeat.antt =====
-- common/message/SDMHeartbeat.{h,cpp}: a sign of life to the Process Manager.
use vn_sdm.Common.{ℕ, ◌+◌, ◌-◌, ◌==◌, if◌then◌else◌}
use vn_sdm.Wire.{Buffer}
use vn_sdm.ComponentId
use vn_sdm.ComponentId.{ComponentId, component_id_invalid}
use vn_sdm.Header
use vn_sdm.Header.{Header, Timeval, Result, invalid_message, read, header_size, new_header, IsClass}

-- class SDMHeartbeat
pub record SdmHeartbeat : Type 0 where
  pub header : Header
  pub source : ComponentId

-- The constructor.
abbrev pub create : SdmHeartbeat
create = record { header = new_header b'h' 10; source = component_id_invalid }

-- What the constructor sets, and fields that fit their C types.
pub record IsValid (m : SdmHeartbeat) : Type 0 where
  pub is_class : IsClass b'h' 10 m.header
  pub source_valid : ComponentId.IsValid m.source

-- `Marshal`: the message with its new header, the buffer and the offset behind the last byte.
unfoldable pub marshal : Timeval → SdmHeartbeat → Buffer → SdmHeartbeat × Buffer × ℕ
unfolding ComponentId.marshal Header.marshal
marshal now m buf =
    let cur : ℕ = header_size in
    let (b1, n1) = ComponentId.marshal m.source buf cur in
    let cur1 = cur + n1 in
    let (h, b') = Header.marshal now (record (m.header) { msg_length = cur1 - header_size }) b1 in
    (record m { header = h }, b', cur1)

-- The rest of `Unmarshal`, behind an accepted header.
unmarshal_body : SdmHeartbeat → Buffer → ℕ → SdmHeartbeat × Result
unfolding ComponentId.unmarshal
unmarshal_body m buf cur =
    let (source, n1) = ComponentId.unmarshal buf cur in
    let cur1 = cur + n1 in (record m { source = source }, read cur1)

-- `Unmarshal`: a rejected message may have replaced the header.
unfoldable pub unmarshal : SdmHeartbeat → Buffer → SdmHeartbeat × Result
unfolding unmarshal_body Header.unmarshal
unmarshal m buf =
    let (h, r) = Header.unmarshal m.header buf in
    let m' : SdmHeartbeat = record m { header = h } in
    elim r [
      | invalid_message ↦ (m', invalid_message)
      | read cur ↦
          if h.total_length == h.msg_length
          then unmarshal_body m' buf cur
          else (m', invalid_message)
    ]
