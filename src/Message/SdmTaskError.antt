-- ===== src/Message/SdmTaskError.antt =====
-- common/message/SDMTaskError.{h,cpp}: a task failed. The text `filename` ends the message.
use vn_sdm.Common.{ℕ, ◌+◌, ◌-◌, ◌^◌, ◌<◌, if◌then◌else◌}
use vn_sdm.Wire.{
  Buffer, IsText, max_filename_size, poke, memcpy, strlen, get_text, short_gt, put_long, get_long,
}
use vn_sdm.ComponentId
use vn_sdm.ComponentId.{ComponentId, component_id_invalid}
use vn_sdm.Header
use vn_sdm.Header.{Header, Timeval, Result, invalid_message, read, header_size, new_header, IsClass}

-- class SDMTaskError
pub record SdmTaskError : Type 0 where
  pub header : Header
  pub source : ComponentId
  pub status : ℕ
  pub pid : ℕ
  pub filename : Buffer

-- The size of the array `filename`.
abbrev pub capacity : ℕ
capacity = max_filename_size

-- The constructor.
abbrev pub create : SdmTaskError
create = record {
  header = new_header b'T' 19;
  source = component_id_invalid;
  status = 0;
  pid = 0;
  filename = λ _. 0;
}

-- What the constructor sets, fields that fit their C types, and a text of `n` bytes that fits with
-- its terminator.
pub record IsValid (m : SdmTaskError) (n : ℕ) : Type 0 where
  pub is_class : IsClass b'T' 19 m.header
  pub source_valid : ComponentId.IsValid m.source
  pub status_lt : m.status < 2 ^ 32
  pub pid_lt : m.pid < 2 ^ 32
  pub text : IsText m.filename 0 n
  pub fits : n < capacity

-- `Marshal`: the message with its new header, the buffer and the offset behind the last byte.
unfoldable pub marshal : Timeval → SdmTaskError → Buffer → SdmTaskError × Buffer × ℕ
unfolding ComponentId.marshal put_long memcpy Header.marshal
marshal now m buf =
    let text_length = strlen capacity m.filename 0 in
    let cur : ℕ = header_size in
    let (b1, n1) = ComponentId.marshal m.source buf cur in
    let cur1 = cur + n1 in
    let b2 = put_long b1 cur1 m.status in
    let cur2 = cur1 + 4 in
    let b3 = put_long b2 cur2 m.pid in
    let cur3 = cur2 + 4 in
    let b4 = poke (memcpy b3 cur3 m.filename 0 text_length) (cur3 + text_length) 0 in
    let cur4 = cur3 + text_length + 1 in
    let (h, b') = Header.marshal now (record (m.header) { msg_length = cur4 - header_size }) b4 in
    (record m { header = h }, b', cur4)

-- The rest of `Unmarshal`, behind an accepted header.
unmarshal_body : SdmTaskError → Buffer → ℕ → SdmTaskError × Result
unfolding ComponentId.unmarshal get_long
unmarshal_body m buf cur =
    let (source, n1) = ComponentId.unmarshal buf cur in
    let cur1 = cur + n1 in
    let status = get_long buf cur1 in
    let cur2 = cur1 + 4 in
    let pid = get_long buf cur2 in
    let cur3 = cur2 + 4 in
    let (filename, text_length) = get_text buf cur3 capacity m.filename in
    (
      record m { source = source; status = status; pid = pid; filename = filename },
      read (cur3 + text_length + 1),
    )

-- `Unmarshal`: a rejected message may have replaced the header.
unfoldable pub unmarshal : SdmTaskError → Buffer → SdmTaskError × Result
unfolding unmarshal_body Header.unmarshal
unmarshal m buf =
    let (h, r) = Header.unmarshal m.header buf in
    let m' : SdmTaskError = record m { header = h } in
    elim r [
      | invalid_message ↦ (m', invalid_message)
      | read cur ↦
          if short_gt h.total_length h.msg_length
          then (m', invalid_message)
          else unmarshal_body m' buf cur
    ]
