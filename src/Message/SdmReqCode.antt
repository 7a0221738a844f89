-- ===== src/Message/SdmReqCode.antt =====
-- common/message/SDMReqCode.{h,cpp}: a Process Manager asks for the code of a task. The text `filename` ends the message.
use vn_sdm.Common.{ℕ, ◌+◌, ◌-◌, ◌^◌, ◌<◌, if◌then◌else◌}
use vn_sdm.Wire.{
  Buffer, IsText, max_filename_size, memcpy, strlen, get_text, short_gt, put_long, put_short,
  get_long, get_short,
}
use vn_sdm.ComponentId
use vn_sdm.ComponentId.{ComponentId, component_id_invalid}
use vn_sdm.Header
use vn_sdm.Header.{Header, Timeval, Result, invalid_message, read, header_size, new_header, IsClass}

-- class SDMReqCode
pub record SdmReqCode : Type 0 where
  pub header : Header
  pub source : ComponentId
  pub seq_num : ℕ
  pub version : ℕ
  pub filename : Buffer

-- The size of the array `filename`.
abbrev pub capacity : ℕ
capacity = max_filename_size

-- The constructor.
abbrev pub create : SdmReqCode
create = record {
  header = new_header b'c' 17;
  source = component_id_invalid;
  seq_num = 0;
  version = 0;
  filename = λ _. 0;
}

-- What the constructor sets, fields that fit their C types, and a text of `n` bytes that fits with
-- its terminator.
pub record IsValid (m : SdmReqCode) (n : ℕ) : Type 0 where
  pub is_class : IsClass b'c' 17 m.header
  pub source_valid : ComponentId.IsValid m.source
  pub seq_num_lt : m.seq_num < 2 ^ 16
  pub version_lt : m.version < 2 ^ 32
  pub text : IsText m.filename 0 n
  pub fits : n < capacity

-- `Marshal`: the message with its new header, the buffer and the offset behind the last byte.
unfoldable pub marshal : Timeval → SdmReqCode → Buffer → SdmReqCode × Buffer × ℕ
unfolding ComponentId.marshal put_long put_short memcpy Header.marshal
marshal now m buf =
    let text_length = strlen capacity m.filename 0 in
    let cur : ℕ = header_size in
    let (b1, n1) = ComponentId.marshal m.source buf cur in
    let cur1 = cur + n1 in
    let b2 = put_short b1 cur1 m.seq_num in
    let cur2 = cur1 + 2 in
    let b3 = put_long b2 cur2 m.version in
    let cur3 = cur2 + 4 in
    let b4 = memcpy b3 cur3 m.filename 0 (text_length + 1) in
    let cur4 = cur3 + text_length + 1 in
    let (h, b') = Header.marshal now (record (m.header) { msg_length = cur4 - header_size }) b4 in
    (record m { header = h }, b', cur4)

-- The rest of `Unmarshal`, behind an accepted header.
unmarshal_body : SdmReqCode → Buffer → ℕ → SdmReqCode × Result
unfolding ComponentId.unmarshal get_long get_short
unmarshal_body m buf cur =
    let (source, n1) = ComponentId.unmarshal buf cur in
    let cur1 = cur + n1 in
    let seq_num = get_short buf cur1 in
    let cur2 = cur1 + 2 in
    let version = get_long buf cur2 in
    let cur3 = cur2 + 4 in
    let (filename, text_length) = get_text buf cur3 capacity m.filename in
    (
      record m { source = source; seq_num = seq_num; version = version; filename = filename },
      read (cur3 + text_length + 1),
    )

-- `Unmarshal`: a rejected message may have replaced the header.
unfoldable pub unmarshal : SdmReqCode → Buffer → SdmReqCode × Result
unfolding unmarshal_body Header.unmarshal
unmarshal m buf =
    let (h, r) = Header.unmarshal m.header buf in
    let m' : SdmReqCode = record m { header = h } in
    elim r [
      | invalid_message ↦ (m', invalid_message)
      | read cur ↦
          if short_gt h.total_length h.msg_length
          then (m', invalid_message)
          else unmarshal_body m' buf cur
    ]
