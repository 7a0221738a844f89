-- ===== src/Message/SdmPostTask.antt =====
-- common/message/SDMPostTask.{h,cpp}: a task is posted with the Task Manager. The text `filename` ends the message.
use vn_sdm.Common.{ℕ, ◌+◌, ◌-◌, ◌^◌, ◌<◌, if◌then◌else◌}
use vn_sdm.Wire.{
  Buffer, IsText, max_filename_size, poke, memcpy, strlen, get_text, short_gt, put_char, put_long,
  put_short, get_char, get_long, get_short,
}
use vn_sdm.Header
use vn_sdm.Header.{Header, Timeval, Result, invalid_message, read, header_size, new_header, IsClass}

-- class SDMPostTask
pub record SdmPostTask : Type 0 where
  pub header : Header
  pub resources : ℕ
  pub priority : ℕ
  pub sched_interval : ℕ
  pub mode : ℕ
  pub version : ℕ
  pub filename : Buffer

-- The size of the array `filename`.
abbrev pub capacity : ℕ
capacity = max_filename_size

-- The constructor.
abbrev pub create : SdmPostTask
create = record {
  header = new_header b'i' 16;
  resources = 0;
  priority = 0;
  sched_interval = 0;
  mode = 0;
  version = 0;
  filename = λ _. 0;
}

-- What the constructor sets, fields that fit their C types, and a text of `n` bytes that fits with
-- its terminator.
pub record IsValid (m : SdmPostTask) (n : ℕ) : Type 0 where
  pub is_class : IsClass b'i' 16 m.header
  pub resources_lt : m.resources < 2 ^ 16
  pub priority_lt : m.priority < 2 ^ 8
  pub sched_interval_lt : m.sched_interval < 2 ^ 32
  pub mode_lt : m.mode < 2 ^ 32
  pub version_lt : m.version < 2 ^ 32
  pub text : IsText m.filename 0 n
  pub fits : n < capacity

-- `Marshal`: the message with its new header, the buffer and the offset behind the last byte.
unfoldable pub marshal : Timeval → SdmPostTask → Buffer → SdmPostTask × Buffer × ℕ
unfolding put_char put_long put_short memcpy Header.marshal
marshal now m buf =
    let text_length = strlen capacity m.filename 0 in
    let cur : ℕ = header_size in
    let b1 = put_short buf cur m.resources in
    let cur1 = cur + 2 in
    let b2 = put_char b1 cur1 m.priority in
    let cur2 = cur1 + 1 in
    let b3 = put_long b2 cur2 m.sched_interval in
    let cur3 = cur2 + 4 in
    let b4 = put_long b3 cur3 m.mode in
    let cur4 = cur3 + 4 in
    let b5 = put_long b4 cur4 m.version in
    let cur5 = cur4 + 4 in
    let b6 = poke (memcpy b5 cur5 m.filename 0 text_length) (cur5 + text_length) 0 in
    let cur6 = cur5 + text_length + 1 in
    let (h, b') = Header.marshal now (record (m.header) { msg_length = cur6 - header_size }) b6 in
    (record m { header = h }, b', h.msg_length + header_size)

-- The rest of `Unmarshal`, behind an accepted header.
unmarshal_body : SdmPostTask → Buffer → ℕ → SdmPostTask × Result
unfolding get_char get_long get_short
unmarshal_body m buf cur =
    let resources = get_short buf cur in
    let cur1 = cur + 2 in
    let priority = get_char buf cur1 in
    let cur2 = cur1 + 1 in
    let sched_interval = get_long buf cur2 in
    let cur3 = cur2 + 4 in
    let mode = get_long buf cur3 in
    let cur4 = cur3 + 4 in
    let version = get_long buf cur4 in
    let cur5 = cur4 + 4 in
    let (filename, text_length) = get_text buf cur5 capacity m.filename in
    (
      record m {
        resources = resources;
        priority = priority;
        sched_interval = sched_interval;
        mode = mode;
        version = version;
        filename = filename;
      },
      read (m.header.msg_length + header_size),
    )

-- `Unmarshal`: a rejected message may have replaced the header.
unfoldable pub unmarshal : SdmPostTask → Buffer → SdmPostTask × Result
unfolding unmarshal_body Header.unmarshal
unmarshal m buf =
    let (h, r) = Header.unmarshal m.header buf in
    let m' : SdmPostTask = record m { header = h } in
    elim r [
      | invalid_message ↦ (m', invalid_message)
      | read cur ↦
          if short_gt h.total_length h.msg_length
          then (m', invalid_message)
          else unmarshal_body m' buf cur
    ]
