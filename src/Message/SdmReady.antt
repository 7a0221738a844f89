-- ===== src/Message/SdmReady.antt =====
-- common/message/SDMReady.{h,cpp}: the greeting between the managers.
use vn_sdm.Common.{ℕ, ◌+◌, ◌-◌, ◌==◌, if◌then◌else◌}
use vn_sdm.Wire.{Buffer}
use vn_sdm.ComponentId
use vn_sdm.ComponentId.{ComponentId, component_id_invalid}
use vn_sdm.Header
use vn_sdm.Header.{Header, Timeval, Result, invalid_message, read, header_size, new_header, IsClass}

-- class SDMReady
pub record SdmReady : Type 0 where
  pub header : Header
  pub source : ComponentId
  pub destination : ComponentId

-- The constructor.
abbrev pub create : SdmReady
create = record {
  header = new_header b'D' 20;
  source = component_id_invalid;
  destination = component_id_invalid;
}

-- What the constructor sets, and fields that fit their C types.
pub record IsValid (m : SdmReady) : Type 0 where
  pub is_class : IsClass b'D' 20 m.header
  pub source_valid : ComponentId.IsValid m.source
  pub destination_valid : ComponentId.IsValid m.destination

-- `Marshal`: the message with its new header, the buffer and the offset behind the last byte.
unfoldable pub marshal : Timeval → SdmReady → Buffer → SdmReady × Buffer × ℕ
unfolding ComponentId.marshal Header.marshal
marshal now m buf =
    let cur : ℕ = header_size in
    let (b1, n1) = ComponentId.marshal m.source buf cur in
    let cur1 = cur + n1 in
    let (b2, n2) = ComponentId.marshal m.destination b1 cur1 in
    let cur2 = cur1 + n2 in
    let (h, b') = Header.marshal now (record (m.header) { msg_length = cur2 - header_size }) b2 in
    (record m { header = h }, b', cur2)

-- The rest of `Unmarshal`, behind an accepted header.
unmarshal_body : SdmReady → Buffer → ℕ → SdmReady × Result
unfolding ComponentId.unmarshal
unmarshal_body m buf cur =
    let (source, n1) = ComponentId.unmarshal buf cur in
    let cur1 = cur + n1 in
    let (destination, n2) = ComponentId.unmarshal buf cur1 in
    let cur2 = cur1 + n2 in
    (
      record m { source = source; destination = destination },
      read (header_size + m.header.msg_length),
    )

-- `Unmarshal`: a rejected message may have replaced the header.
unfoldable pub unmarshal : SdmReady → Buffer → SdmReady × Result
unfolding unmarshal_body Header.unmarshal
unmarshal m buf =
    let (h, r) = Header.unmarshal m.header buf in
    let m' : SdmReady = record m { header = h } in
    elim r [
      | invalid_message ↦ (m', invalid_message)
      | read cur ↦
          if h.total_length == h.msg_length
          then unmarshal_body m' buf cur
          else (m', invalid_message)
    ]
