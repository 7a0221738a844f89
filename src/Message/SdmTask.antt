-- ===== src/Message/SdmTask.antt =====
-- common/message/SDMTask.{h,cpp}: the Task Manager assigns a task to a Process Manager. The text `filename` ends the message.
use vn_sdm.Common.{ℕ, ◌+◌, ◌-◌, ◌^◌, ◌<◌, if◌then◌else◌}
use vn_sdm.Wire.{
  Buffer, IsText, max_filename_size, poke, memcpy, strlen, get_text, short_gt, put_char, put_long,
  get_char, get_long,
}
use vn_sdm.ComponentId
use vn_sdm.ComponentId.{ComponentId, component_id_invalid}
use vn_sdm.Header
use vn_sdm.Header.{Header, Timeval, Result, invalid_message, read, header_size, new_header, IsClass}

-- class SDMTask
pub record SdmTask : Type 0 where
  pub header : Header
  pub source : ComponentId
  pub priority : ℕ
  pub pid : ℕ
  pub version : ℕ
  pub filename : Buffer

-- The size of the array `filename`.
abbrev pub capacity : ℕ
capacity = max_filename_size

-- The constructor.
abbrev pub create : SdmTask
create = record {
  header = new_header b'b' 10;
  source = component_id_invalid;
  priority = 0;
  pid = 0;
  version = 0;
  filename = λ _. 0;
}

-- What the constructor sets, fields that fit their C types, and a text of `n` bytes that fits with
-- its terminator.
pub record IsValid (m : SdmTask) (n : ℕ) : Type 0 where
  pub is_class : IsClass b'b' 10 m.header
  pub source_valid : ComponentId.IsValid m.source
  pub priority_lt : m.priority < 2 ^ 8
  pub pid_lt : m.pid < 2 ^ 32
  pub version_lt : m.version < 2 ^ 32
  pub text : IsText m.filename 0 n
  pub fits : n < capacity

-- `Marshal`: the message with its new header, the buffer and the offset behind the last byte.
unfoldable pub marshal : Timeval → SdmTask → Buffer → SdmTask × Buffer × ℕ
unfolding ComponentId.marshal put_char put_long memcpy Header.marshal
marshal now m buf =
    let text_length = strlen capacity m.filename 0 in
    let cur : ℕ = header_size in
    let (b1, n1) = ComponentId.marshal m.source buf cur in
    let cur1 = cur + n1 in
    let b2 = put_char b1 cur1 m.priority in
    let cur2 = cur1 + 1 in
    let b3 = put_long b2 cur2 m.pid in
    let cur3 = cur2 + 4 in
    let b4 = put_long b3 cur3 m.version in
    let cur4 = cur3 + 4 in
    let b5 = poke (memcpy b4 cur4 m.filename 0 text_length) (cur4 + text_length) 0 in
    let cur5 = cur4 + text_length + 1 in
    let (h, b') = Header.marshal now (record (m.header) { msg_length = cur5 - header_size }) b5 in
    (record m { header = h }, b', cur5)

-- The rest of `Unmarshal`, behind an accepted header.
unmarshal_body : SdmTask → Buffer → ℕ → SdmTask × Result
unfolding ComponentId.unmarshal get_char get_long
unmarshal_body m buf cur =
    let (source, n1) = ComponentId.unmarshal buf cur in
    let cur1 = cur + n1 in
    let priority = get_char buf cur1 in
    let cur2 = cur1 + 1 in
    let pid = get_long buf cur2 in
    let cur3 = cur2 + 4 in
    let version = get_long buf cur3 in
    let cur4 = cur3 + 4 in
    let (filename, text_length) = get_text buf cur4 capacity m.filename in
    (
      record m {
        source = source;
        priority = priority;
        pid = pid;
        version = version;
        filename = filename;
      },
      read (cur4 + text_length + 1),
    )

-- `Unmarshal`: a rejected message may have replaced the header.
unfoldable pub unmarshal : SdmTask → Buffer → SdmTask × Result
unfolding unmarshal_body Header.unmarshal
unmarshal m buf =
    let (h, r) = Header.unmarshal m.header buf in
    let m' : SdmTask = record m { header = h } in
    elim r [
      | invalid_message ↦ (m', invalid_message)
      | read cur ↦
          if short_gt h.total_length h.msg_length
          then (m', invalid_message)
          else unmarshal_body m' buf cur
    ]
