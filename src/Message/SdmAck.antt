-- ===== src/Message/SdmAck.antt =====
-- common/message/SDMAck.{h,cpp}: the acknowledgement of a registration, with an error code.
use vn_sdm.Common.{ℕ, ◌^◌, ◌<◌, ◌+◌, ◌-◌, ◌==◌, if◌then◌else◌}
use vn_sdm.Wire.{Buffer, put_short, get_short}
use vn_sdm.Header
use vn_sdm.Header.{Header, Timeval, Result, invalid_message, read, header_size, new_header, IsClass}

-- class SDMAck
pub record SdmAck : Type 0 where
  pub header : Header
  pub error : ℕ

-- The constructor.
abbrev pub create : SdmAck
create = record { header = new_header b'G' 2; error = 0 }

-- What the constructor sets, and fields that fit their C types.
pub record IsValid (m : SdmAck) : Type 0 where
  pub is_class : IsClass b'G' 2 m.header
  pub error_lt : m.error < 2 ^ 16

-- `Marshal`: the message with its new header, the buffer and the offset behind the last byte.
unfoldable pub marshal : Timeval → SdmAck → Buffer → SdmAck × Buffer × ℕ
unfolding put_short Header.marshal
marshal now m buf =
    let cur : ℕ = header_size in
    let b1 = put_short buf cur m.error in
    let cur1 = cur + 2 in
    let (h, b') = Header.marshal now (record (m.header) { msg_length = cur1 - header_size }) b1 in
    (record m { header = h }, b', cur1)

-- The rest of `Unmarshal`, behind an accepted header.
unmarshal_body : SdmAck → Buffer → ℕ → SdmAck × Result
unfolding get_short
unmarshal_body m buf cur =
    let error = get_short buf cur in let cur1 = cur + 2 in (record m { error = error }, read cur1)

-- `Unmarshal`: a rejected message may have replaced the header.
unfoldable pub unmarshal : SdmAck → Buffer → SdmAck × Result
unfolding unmarshal_body Header.unmarshal
unmarshal m buf =
    let (h, r) = Header.unmarshal m.header buf in
    let m' : SdmAck = record m { header = h } in
    elim r [
      | invalid_message ↦ (m', invalid_message)
      | read cur ↦
          if h.total_length == h.msg_length
          then unmarshal_body m' buf cur
          else (m', invalid_message)
    ]
