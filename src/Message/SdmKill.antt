-- ===== src/Message/SdmKill.antt =====
-- common/message/SDMKill.{h,cpp}: the order to end a process. The old form of four bytes has no
-- kill level.
use vn_sdm.Common.{ℕ, ◌+◌, ◌-◌, ◌^◌, ◌<◌, ◌==◌, if◌then◌else◌}
use vn_sdm.Wire.{Buffer, put_char, put_long, get_char, get_long}
use vn_sdm.Header
use vn_sdm.Header.{Header, Timeval, Result, invalid_message, read, header_size, new_header, IsClass}

-- class SDMKill
pub record SdmKill : Type 0 where
  pub header : Header
  pub pid : ℕ
  pub kill_level : ℕ

-- The constructor.
abbrev pub create : SdmKill
create = record { header = new_header b'e' 5; pid = 0; kill_level = 0 }

-- What the constructor sets, and fields that fit their C types.
pub record IsValid (m : SdmKill) : Type 0 where
  pub is_class : IsClass b'e' 5 m.header
  pub pid_lt : m.pid < 2 ^ 32
  pub kill_level_lt : m.kill_level < 2 ^ 8

-- `Marshal`: the message with its new header, the buffer and the offset behind the last byte.
unfoldable pub marshal : Timeval → SdmKill → Buffer → SdmKill × Buffer × ℕ
unfolding put_char put_long Header.marshal
marshal now m buf =
    let cur : ℕ = header_size in
    let b1 = put_long buf cur m.pid in
    let cur1 = cur + 4 in
    let b2 = put_char b1 cur1 m.kill_level in
    let cur2 = cur1 + 1 in
    let (h, b') = Header.marshal now (record (m.header) { msg_length = cur2 - header_size }) b2 in
    (record m { header = h }, b', cur2)

-- The rest of `Unmarshal`, behind an accepted header.
unmarshal_body : SdmKill → Buffer → ℕ → SdmKill × Result
unfolding get_char get_long
unmarshal_body m buf cur =
    let size = header_size + m.header.msg_length in
    if m.header.msg_length == 4
    then (record m { pid = get_long buf cur; kill_level = 0 }, read size)
    else if m.header.total_length == m.header.msg_length
    then (record m { pid = get_long buf cur; kill_level = get_char buf (cur + 4) }, read size)
    else (m, invalid_message)

-- `Unmarshal`: a rejected message may have replaced the header.
unfoldable pub unmarshal : SdmKill → Buffer → SdmKill × Result
unfolding unmarshal_body Header.unmarshal
unmarshal m buf =
    let (h, r) = Header.unmarshal m.header buf in
    let m' : SdmKill = record m { header = h } in
    elim r [ invalid_message ↦ (m', invalid_message) | read cur ↦ unmarshal_body m' buf cur ]
