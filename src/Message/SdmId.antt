-- ===== src/Message/SdmId.antt =====
-- common/message/SDMID.{h,cpp}: the identifier that the Data Manager assigns.
use vn_sdm.Common.{ℕ, ◌+◌, ◌-◌, ◌==◌, if◌then◌else◌}
use vn_sdm.Wire.{Buffer}
use vn_sdm.ComponentId
use vn_sdm.ComponentId.{ComponentId, component_id_invalid}
use vn_sdm.Header
use vn_sdm.Header.{Header, Timeval, Result, invalid_message, read, header_size, new_header, IsClass}

-- class SDMID
pub record SdmId : Type 0 where
  pub header : Header
  pub destination : ComponentId

-- The constructor.
abbrev pub create : SdmId
create = record { header = new_header b'R' 10; destination = component_id_invalid }

-- What the constructor sets, and fields that fit their C types.
pub record IsValid (m : SdmId) : Type 0 where
  pub is_class : IsClass b'R' 10 m.header
  pub destination_valid : ComponentId.IsValid m.destination

-- `Marshal`: the message with its new header, the buffer and the offset behind the last byte.
unfoldable pub marshal : Timeval → SdmId → Buffer → SdmId × Buffer × ℕ
unfolding ComponentId.marshal Header.marshal
marshal now m buf =
    let cur : ℕ = header_size in
    let (b1, n1) = ComponentId.marshal m.destination buf cur in
    let cur1 = cur + n1 in
    let (h, b') = Header.marshal now (record (m.header) { msg_length = cur1 - header_size }) b1 in
    (record m { header = h }, b', cur1)

-- The rest of `Unmarshal`, behind an accepted header.
unmarshal_body : SdmId → Buffer → ℕ → SdmId × Result
unfolding ComponentId.unmarshal
unmarshal_body m buf cur =
    let (destination, n1) = ComponentId.unmarshal buf cur in
    let cur1 = cur + n1 in (record m { destination = destination }, read cur1)

-- `Unmarshal`: a rejected message may have replaced the header.
unfoldable pub unmarshal : SdmId → Buffer → SdmId × Result
unfolding unmarshal_body Header.unmarshal
unmarshal m buf =
    let (h, r) = Header.unmarshal m.header buf in
    let m' : SdmId = record m { header = h } in
    elim r [
      | invalid_message ↦ (m', invalid_message)
      | read cur ↦
          if h.total_length == h.msg_length
          then unmarshal_body m' buf cur
          else (m', invalid_message)
    ]
