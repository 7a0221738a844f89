-- ===== src/Message/SdmCancelXteds.antt =====
-- common/message/SDMCancelxTEDS.{h,cpp}: a provider withdraws its xTEDS. Marshal writes the header
-- before it sets the length, so that the header carries the length that the object had before.
use vn_sdm.Common.{ℕ, ◌+◌, ◌-◌, ◌^◌, ◌<◌, ◌==◌, if◌then◌else◌}
use vn_sdm.Wire.{Buffer, put_char, get_char}
use vn_sdm.ComponentId
use vn_sdm.ComponentId.{ComponentId, component_id_invalid}
use vn_sdm.Header
use vn_sdm.Header.{Header, Timeval, Result, invalid_message, read, header_size, new_header, IsClass}

-- class SDMCancelxTEDS
pub record SdmCancelXteds : Type 0 where
  pub header : Header
  pub source : ComponentId
  pub full_cancel : ℕ

-- The constructor.
abbrev pub create : SdmCancelXteds
create = record { header = new_header b'r' 11; source = component_id_invalid; full_cancel = 0 }

-- What the constructor sets, and fields that fit their C types.
pub record IsValid (m : SdmCancelXteds) : Type 0 where
  pub is_class : IsClass b'r' 11 m.header
  pub source_valid : ComponentId.IsValid m.source
  pub full_cancel_lt : m.full_cancel < 2 ^ 8

-- What `Send` does before it hands the message to `SendDM`, which marshals it.
unfoldable pub prepare_send : SdmCancelXteds → SdmCancelXteds
prepare_send m = record m { header = record (m.header) { msg_length = 11 } }

-- `Marshal`: the message with its new header, the buffer and the offset behind the last byte.
unfoldable pub marshal : Timeval → SdmCancelXteds → Buffer → SdmCancelXteds × Buffer × ℕ
unfolding ComponentId.marshal put_char Header.marshal
marshal now m buf =
    let cur : ℕ = header_size in
    let (h, b1) = Header.marshal now m.header buf in
    let (b2, n2) = ComponentId.marshal m.source b1 cur in
    let cur2 = cur + n2 in
    let b3 = put_char b2 cur2 m.full_cancel in
    let cur3 = cur2 + 1 in
    (record m { header = record h { msg_length = cur3 - header_size } }, b3, cur3)

-- The rest of `Unmarshal`, behind an accepted header. The old form of ten bytes has no flag.
unmarshal_body : SdmCancelXteds → Buffer → ℕ → SdmCancelXteds × Result
unfolding ComponentId.unmarshal get_char
unmarshal_body m buf cur =
    let (source, n1) = ComponentId.unmarshal buf cur in
    let cur1 = cur + n1 in
    if m.header.msg_length == 10
    then (record m { source = source; full_cancel = 0 }, read cur1)
    else if m.header.total_length == m.header.msg_length
    then (record m { source = source; full_cancel = get_char buf cur1 }, read (cur1 + 1))
    else (m, invalid_message)

-- `Unmarshal`: a rejected message may have replaced the header.
unfoldable pub unmarshal : SdmCancelXteds → Buffer → SdmCancelXteds × Result
unfolding unmarshal_body Header.unmarshal
unmarshal m buf =
    let (h, r) = Header.unmarshal m.header buf in
    let m' : SdmCancelXteds = record m { header = h } in
    elim r [ invalid_message ↦ (m', invalid_message) | read cur ↦ unmarshal_body m' buf cur ]
