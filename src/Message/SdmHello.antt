-- ===== src/Message/SdmHello.antt =====
-- common/message/SDMHello.{h,cpp}: a component that comes up announces itself to the Data Manager.
use vn_sdm.Common.{ℕ, ◌^◌, ◌<◌, ◌+◌, ◌-◌, ◌==◌, if◌then◌else◌}
use vn_sdm.Wire.{Buffer, put_char, get_char}
use vn_sdm.ComponentId
use vn_sdm.ComponentId.{ComponentId, component_id_invalid}
use vn_sdm.Header
use vn_sdm.Header.{Header, Timeval, Result, invalid_message, read, header_size, new_header, IsClass}

-- class SDMHello
pub record SdmHello : Type 0 where
  pub header : Header
  pub source : ComponentId
  pub type : ℕ

-- The constructor.
abbrev pub create : SdmHello
create = record { header = new_header b'P' 11; source = component_id_invalid; type = b'D' }

-- What the constructor sets, and fields that fit their C types.
pub record IsValid (m : SdmHello) : Type 0 where
  pub is_class : IsClass b'P' 11 m.header
  pub source_valid : ComponentId.IsValid m.source
  pub type_lt : m.type < 2 ^ 8

-- `Marshal`: the message with its new header, the buffer and the offset behind the last byte.
unfoldable pub marshal : Timeval → SdmHello → Buffer → SdmHello × Buffer × ℕ
unfolding ComponentId.marshal put_char Header.marshal
marshal now m buf =
    let cur : ℕ = header_size in
    let (b1, n1) = ComponentId.marshal m.source buf cur in
    let cur1 = cur + n1 in
    let b2 = put_char b1 cur1 m.type in
    let cur2 = cur1 + 1 in
    let (h, b') = Header.marshal now (record (m.header) { msg_length = cur2 - header_size }) b2 in
    (record m { header = h }, b', cur2)

-- The rest of `Unmarshal`, behind an accepted header.
unmarshal_body : SdmHello → Buffer → ℕ → SdmHello × Result
unfolding ComponentId.unmarshal get_char
unmarshal_body m buf cur =
    let (source, n1) = ComponentId.unmarshal buf cur in
    let cur1 = cur + n1 in
    let type = get_char buf cur1 in
    let cur2 = cur1 + 1 in (record m { source = source; type = type }, read cur2)

-- `Unmarshal`: a rejected message may have replaced the header.
unfoldable pub unmarshal : SdmHello → Buffer → SdmHello × Result
unfolding unmarshal_body Header.unmarshal
unmarshal m buf =
    let (h, r) = Header.unmarshal m.header buf in
    let m' : SdmHello = record m { header = h } in
    elim r [
      | invalid_message ↦ (m', invalid_message)
      | read cur ↦
          if h.total_length == h.msg_length
          then unmarshal_body m' buf cur
          else (m', invalid_message)
    ]
