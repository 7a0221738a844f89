-- ===== src/Message/SdmRegPm.antt =====
-- common/message/SDMRegPM.{h,cpp}: a Process Manager registers with the Task Manager.
use vn_sdm.Common.{ℕ, ◌^◌, ◌<◌, ◌+◌, ◌-◌, ◌==◌, if◌then◌else◌}
use vn_sdm.Wire.{Buffer, put_short, get_short}
use vn_sdm.ComponentId
use vn_sdm.ComponentId.{ComponentId, component_id_invalid}
use vn_sdm.Header
use vn_sdm.Header.{Header, Timeval, Result, invalid_message, read, header_size, new_header, IsClass}

-- class SDMRegPM
pub record SdmRegPm : Type 0 where
  pub header : Header
  pub source : ComponentId
  pub resources : ℕ

-- The constructor.
abbrev pub create : SdmRegPm
create = record { header = new_header b'a' 12; source = component_id_invalid; resources = 0 }

-- What the constructor sets, and fields that fit their C types.
pub record IsValid (m : SdmRegPm) : Type 0 where
  pub is_class : IsClass b'a' 12 m.header
  pub source_valid : ComponentId.IsValid m.source
  pub resources_lt : m.resources < 2 ^ 16

-- `Marshal`: the message with its new header, the buffer and the offset behind the last byte.
unfoldable pub marshal : Timeval → SdmRegPm → Buffer → SdmRegPm × Buffer × ℕ
unfolding ComponentId.marshal put_short Header.marshal
marshal now m buf =
    let cur : ℕ = header_size in
    let (b1, n1) = ComponentId.marshal m.source buf cur in
    let cur1 = cur + n1 in
    let b2 = put_short b1 cur1 m.resources in
    let cur2 = cur1 + 2 in
    let (h, b') = Header.marshal now (record (m.header) { msg_length = cur2 - header_size }) b2 in
    (record m { header = h }, b', cur2)

-- The rest of `Unmarshal`, behind an accepted header.
unmarshal_body : SdmRegPm → Buffer → ℕ → SdmRegPm × Result
unfolding ComponentId.unmarshal get_short
unmarshal_body m buf cur =
    let (source, n1) = ComponentId.unmarshal buf cur in
    let cur1 = cur + n1 in
    let resources = get_short buf cur1 in
    let cur2 = cur1 + 2 in (record m { source = source; resources = resources }, read cur2)

-- `Unmarshal`: a rejected message may have replaced the header.
unfoldable pub unmarshal : SdmRegPm → Buffer → SdmRegPm × Result
unfolding unmarshal_body Header.unmarshal
unmarshal m buf =
    let (h, r) = Header.unmarshal m.header buf in
    let m' : SdmRegPm = record m { header = h } in
    elim r [
      | invalid_message ↦ (m', invalid_message)
      | read cur ↦
          if h.total_length == h.msg_length
          then unmarshal_body m' buf cur
          else (m', invalid_message)
    ]
