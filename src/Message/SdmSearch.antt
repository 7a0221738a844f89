-- ===== src/Message/SdmSearch.antt =====
-- common/message/SDMSearch.{h,cpp}: a search of the registered xTEDS by a regular expression. The text `reg_expr` ends the message.
use vn_sdm.Common.{ℕ, ◌+◌, ◌-◌, ◌^◌, ◌<◌, if◌then◌else◌}
use vn_sdm.Wire.{
  Buffer, IsText, poke, memcpy, strlen, get_text, short_gt, put_char, put_short, get_char,
  get_short,
}
use vn_sdm.ComponentId
use vn_sdm.ComponentId.{ComponentId, component_id_invalid}
use vn_sdm.Header
use vn_sdm.Header.{Header, Timeval, Result, invalid_message, read, header_size, new_header, IsClass}

-- class SDMSearch
pub record SdmSearch : Type 0 where
  pub header : Header
  pub source : ComponentId
  pub destination : ComponentId
  pub reply : ℕ
  pub id : ℕ
  pub reg_expr : Buffer

-- The size of the array `reg_expr`.
abbrev pub capacity : ℕ
capacity = 24255

-- The constructor.
abbrev pub create : SdmSearch
create = record {
  header = new_header b'I' 24;
  source = component_id_invalid;
  destination = component_id_invalid;
  reply = 0;
  id = 0;
  reg_expr = λ _. 0;
}

-- What the constructor sets, fields that fit their C types, and a text of `n` bytes that fits with
-- its terminator.
pub record IsValid (m : SdmSearch) (n : ℕ) : Type 0 where
  pub is_class : IsClass b'I' 24 m.header
  pub source_valid : ComponentId.IsValid m.source
  pub destination_valid : ComponentId.IsValid m.destination
  pub reply_lt : m.reply < 2 ^ 8
  pub id_lt : m.id < 2 ^ 16
  pub text : IsText m.reg_expr 0 n
  pub fits : n < capacity

-- `Marshal`: the message with its new header, the buffer and the offset behind the last byte.
unfoldable pub marshal : Timeval → SdmSearch → Buffer → SdmSearch × Buffer × ℕ
unfolding ComponentId.marshal put_char put_short memcpy Header.marshal
marshal now m buf =
    let text_length = strlen capacity m.reg_expr 0 in
    let cur : ℕ = header_size in
    let (b1, n1) = ComponentId.marshal m.source buf cur in
    let cur1 = cur + n1 in
    let (b2, n2) = ComponentId.marshal m.destination b1 cur1 in
    let cur2 = cur1 + n2 in
    let b3 = put_char b2 cur2 m.reply in
    let cur3 = cur2 + 1 in
    let b4 = put_short b3 cur3 m.id in
    let cur4 = cur3 + 2 in
    let b5 = poke (memcpy b4 cur4 m.reg_expr 0 text_length) (cur4 + text_length) 0 in
    let cur5 = cur4 + text_length + 1 in
    let (h, b') = Header.marshal now (record (m.header) { msg_length = cur5 - header_size }) b5 in
    (record m { header = h }, b', cur5)

-- The rest of `Unmarshal`, behind an accepted header.
unmarshal_body : SdmSearch → Buffer → ℕ → SdmSearch × Result
unfolding ComponentId.unmarshal get_char get_short
unmarshal_body m buf cur =
    let (source, n1) = ComponentId.unmarshal buf cur in
    let cur1 = cur + n1 in
    let (destination, n2) = ComponentId.unmarshal buf cur1 in
    let cur2 = cur1 + n2 in
    let reply = get_char buf cur2 in
    let cur3 = cur2 + 1 in
    let id = get_short buf cur3 in
    let cur4 = cur3 + 2 in
    let (reg_expr, text_length) = get_text buf cur4 capacity m.reg_expr in
    (
      record m {
        source = source;
        destination = destination;
        reply = reply;
        id = id;
        reg_expr = reg_expr;
      },
      read (cur4 + text_length + 1),
    )

-- `Unmarshal`: a rejected message may have replaced the header.
unfoldable pub unmarshal : SdmSearch → Buffer → SdmSearch × Result
unfolding unmarshal_body Header.unmarshal
unmarshal m buf =
    let (h, r) = Header.unmarshal m.header buf in
    let m' : SdmSearch = record m { header = h } in
    elim r [
      | invalid_message ↦ (m', invalid_message)
      | read cur ↦
          if short_gt h.total_length h.msg_length
          then (m', invalid_message)
          else unmarshal_body m' buf cur
    ]
