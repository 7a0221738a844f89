-- ===== src/Message/SdmError.antt =====
-- common/message/SDMError.{h,cpp}: an error report. The text `error_msg` ends the message.
use vn_sdm.Common.{ℕ, ◌+◌, ◌-◌, ◌^◌, ◌<◌, if◌then◌else◌}
use vn_sdm.Wire.{Buffer, IsText, strlen, strncpy, get_text, short_gt, put_char, get_char}
use vn_sdm.ComponentId
use vn_sdm.ComponentId.{ComponentId, component_id_invalid}
use vn_sdm.MessageId
use vn_sdm.MessageId.{MessageId, message_id_zero}
use vn_sdm.Header
use vn_sdm.Header.{Header, Timeval, Result, invalid_message, read, header_size, new_header, IsClass}

-- class SDMError
pub record SdmError : Type 0 where
  pub header : Header
  pub source : ComponentId
  pub msg_id : MessageId
  pub error : ℕ
  pub error_msg : Buffer

-- The size of the array `error_msg`.
abbrev pub capacity : ℕ
capacity = 256

-- The constructor.
abbrev pub create : SdmError
create = record {
  header = new_header b'C' 13;
  source = component_id_invalid;
  msg_id = message_id_zero;
  error = 0;
  error_msg = λ _. 0;
}

-- What the constructor sets, fields that fit their C types, and a text of `n` bytes that fits with
-- its terminator.
pub record IsValid (m : SdmError) (n : ℕ) : Type 0 where
  pub is_class : IsClass b'C' 13 m.header
  pub source_valid : ComponentId.IsValid m.source
  pub msg_id_valid : MessageId.IsValid m.msg_id
  pub error_lt : m.error < 2 ^ 8
  pub text : IsText m.error_msg 0 n
  pub fits : n < capacity

-- `Marshal`: the message with its new header, the buffer and the offset behind the last byte.
unfoldable pub marshal : Timeval → SdmError → Buffer → SdmError × Buffer × ℕ
unfolding ComponentId.marshal MessageId.marshal put_char strncpy Header.marshal
marshal now m buf =
    let text_length = strlen capacity m.error_msg 0 in
    let cur : ℕ = header_size in
    let (b1, n1) = ComponentId.marshal m.source buf cur in
    let cur1 = cur + n1 in
    let (b2, n2) = MessageId.marshal m.msg_id b1 cur1 in
    let cur2 = cur1 + n2 in
    let b3 = put_char b2 cur2 m.error in
    let cur3 = cur2 + 1 in
    let b4 = strncpy b3 cur3 m.error_msg 0 (text_length + 1) in
    let cur4 = cur3 + text_length + 1 in
    let (h, b') = Header.marshal now (record (m.header) { msg_length = cur4 - header_size }) b4 in
    (record m { header = h }, b', h.msg_length + header_size)

-- The rest of `Unmarshal`, behind an accepted header.
unmarshal_body : SdmError → Buffer → ℕ → SdmError × Result
unfolding ComponentId.unmarshal MessageId.unmarshal get_char
unmarshal_body m buf cur =
    let (source, n1) = ComponentId.unmarshal buf cur in
    let cur1 = cur + n1 in
    let (msg_id, n2) = MessageId.unmarshal buf cur1 in
    let cur2 = cur1 + n2 in
    let error = get_char buf cur2 in
    let cur3 = cur2 + 1 in
    let (error_msg, text_length) = get_text buf cur3 capacity m.error_msg in
    (
      record m { source = source; msg_id = msg_id; error = error; error_msg = error_msg },
      read (m.header.msg_length + header_size),
    )

-- `Unmarshal`: a rejected message may have replaced the header.
unfoldable pub unmarshal : SdmError → Buffer → SdmError × Result
unfolding unmarshal_body Header.unmarshal
unmarshal m buf =
    let (h, r) = Header.unmarshal m.header buf in
    let m' : SdmError = record m { header = h } in
    elim r [
      | invalid_message ↦ (m', invalid_message)
      | read cur ↦
          if short_gt h.total_length h.msg_length
          then (m', invalid_message)
          else unmarshal_body m' buf cur
    ]
