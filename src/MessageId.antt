-- ===== src/MessageId.antt =====
-- common/message/SDMMessage_ID.{h,cpp}: an interface number and a message number, a byte each.
use vn_sdm.Common.{ℕ, ◌+◌, ◌*◌, ◌/◌, ◌%◌, ◌^◌, ◌<◌, ◌==◌, Bool, ◌&&◌}
use vn_sdm.Wire.{Buffer, put_char, get_char}

-- class SDMMessage_ID
pub record MessageId : Type 0 where
  pub interface : ℕ
  pub message : ℕ

-- The default constructor, and `(0, 0)`.
abbrev pub message_id_zero : MessageId
message_id_zero = record { interface = 0; message = 0 }

-- Two bytes.
pub record IsValid (id : MessageId) : Type 0 where
  pub interface_lt : id.interface < 2 ^ 8
  pub message_lt : id.message < 2 ^ 8

-- The constructor from two ints keeps the lowest byte of each (`setInterface`, `setMessage`).
unfoldable pub create : ℕ → ℕ → MessageId
create interface_id msg_id = record { interface = interface_id % 256; message = msg_id % 256 }

-- `getInterfaceMessagePair`, as the bit pattern of the short that it returns.
unfoldable pub interface_message_pair : MessageId → ℕ
interface_message_pair id = (id.message + id.interface * 2 ^ 8) % 2 ^ 16

-- `operator= (const int)`
unfoldable pub assign : ℕ → MessageId
assign value = record { interface = value / 2 ^ 8 % 256; message = value % 256 }

-- `operator==`
unfoldable pub equal : MessageId → MessageId → Bool
equal a b = a.message == b.message && a.interface == b.interface

-- `Marshal`: the new contents of the buffer, and the number of bytes written.
unfoldable pub marshal : MessageId → Buffer → ℕ → Buffer × ℕ
unfolding put_char
marshal id buf start = (put_char (put_char buf start id.interface) (start + 1) id.message, 2)

-- `Unmarshal`: the identifier read, and the number of bytes taken.
unfoldable pub unmarshal : Buffer → ℕ → MessageId × ℕ
unfolding get_char
unmarshal buf start =
    (record { interface = get_char buf start; message = get_char buf (start + 1) }, 2)
