-- ===== src/Message/SdmTat.antt =====
-- common/message/SDMTat.{h,cpp}: the time at the tone.
use vn_sdm.Common.{ℕ, ◌^◌, ◌<◌, ◌+◌, ◌-◌, ◌==◌, if◌then◌else◌}
use vn_sdm.Wire.{Buffer, put_long, get_long}
use vn_sdm.ComponentId
use vn_sdm.ComponentId.{ComponentId, component_id_invalid}
use vn_sdm.Header
use vn_sdm.Header.{Header, Timeval, Result, invalid_message, read, header_size, new_header, IsClass}

-- class SDMTat
pub record SdmTat : Type 0 where
  pub header : Header
  pub destination : ComponentId
  pub seconds : ℕ
  pub useconds : ℕ

-- The constructor.
abbrev pub create : SdmTat
create = record {
  header = new_header b'H' 18;
  destination = component_id_invalid;
  seconds = 0;
  useconds = 0;
}

-- What the constructor sets, and fields that fit their C types.
pub record IsValid (m : SdmTat) : Type 0 where
  pub is_class : IsClass b'H' 18 m.header
  pub destination_valid : ComponentId.IsValid m.destination
  pub seconds_lt : m.seconds < 2 ^ 32
  pub useconds_lt : m.useconds < 2 ^ 32

-- `Marshal`: the message with its new header, the buffer and the offset behind the last byte.
unfoldable pub marshal : Timeval → SdmTat → Buffer → SdmTat × Buffer × ℕ
unfolding ComponentId.marshal put_long Header.marshal
marshal now m buf =
    let cur : ℕ = header_size in
    let (b1, n1) = ComponentId.marshal m.destination buf cur in
    let cur1 = cur + n1 in
    let b2 = put_long b1 cur1 m.seconds in
    let cur2 = cur1 + 4 in
    let b3 = put_long b2 cur2 m.useconds in
    let cur3 = cur2 + 4 in
    let (h, b') = Header.marshal now (record (m.header) { msg_length = cur3 - header_size }) b3 in
    (record m { header = h }, b', cur3)

-- The rest of `Unmarshal`, behind an accepted header.
unmarshal_body : SdmTat → Buffer → ℕ → SdmTat × Result
unfolding ComponentId.unmarshal get_long
unmarshal_body m buf cur =
    let (destination, n1) = ComponentId.unmarshal buf cur in
    let cur1 = cur + n1 in
    let seconds = get_long buf cur1 in
    let cur2 = cur1 + 4 in
    let useconds = get_long buf cur2 in
    let cur3 = cur2 + 4 in
    (record m { destination = destination; seconds = seconds; useconds = useconds }, read cur3)

-- `Unmarshal`: a rejected message may have replaced the header.
unfoldable pub unmarshal : SdmTat → Buffer → SdmTat × Result
unfolding unmarshal_body Header.unmarshal
unmarshal m buf =
    let (h, r) = Header.unmarshal m.header buf in
    let m' : SdmTat = record m { header = h } in
    elim r [
      | invalid_message ↦ (m', invalid_message)
      | read cur ↦
          if h.total_length == h.msg_length
          then unmarshal_body m' buf cur
          else (m', invalid_message)
    ]
