-- ===== src/ComponentId.antt =====
-- common/message/SDMComponent_ID.{h,cpp}: the address of a device or an application, and how it is
-- written to a message buffer.
use vn_sdm.Common.{ℕ, ◌+◌, ◌*◌, ◌^◌, ◌<◌, ◌==◌, Bool, ◌&&◌}
use vn_sdm.Wire.{Buffer, byte_of, put_short, put_long, get_short, get_long}

-- class SDMComponent_ID
pub record ComponentId : Type 0 where
  pub sensor_id : ℕ
  pub address : ℕ
  pub port : ℕ

-- The fields fit their C types, a four-byte `unsigned long` and an `unsigned short`.
pub record IsValid (id : ComponentId) : Type 0 where
  pub sensor_id_lt : id.sensor_id < 2 ^ 32
  pub address_lt : id.address < 2 ^ 32
  pub port_lt : id.port < 2 ^ 16

-- The default constructor, and COMPONENT_ID_INVALID.
abbrev pub component_id_invalid : ComponentId
component_id_invalid = record { sensor_id = 0; address = 0; port = 0 }

-- `operator==`
unfoldable pub equal : ComponentId → ComponentId → Bool
equal a b = a.sensor_id == b.sensor_id && (a.address == b.address && a.port == b.port)

-- `isEmpty`
unfoldable pub is_empty : ComponentId → Bool
is_empty a = a.sensor_id == 0 && (a.address == 0 && a.port == 0)

-- `bswap_32`: the masked and shifted bytes do not overlap, so that their disjunction is a sum.
unfoldable pub bswap_32 : ℕ → ℕ
bswap_32 x = byte_of x 0 * 2 ^ 24 + byte_of x 1 * 2 ^ 16 + byte_of x 2 * 2 ^ 8 + byte_of x 3

-- `Marshal`: the new contents of the buffer, and the number of bytes written.
unfoldable pub marshal : ComponentId → Buffer → ℕ → Buffer × ℕ
unfolding put_short put_long bswap_32
marshal id buf start =
    let b1 = put_long buf start (bswap_32 id.address) in
    let b2 = put_short b1 (start + 4) id.port in
    let b3 = put_long b2 (start + 6) id.sensor_id in (b3, 10)

-- `Unmarshal`: the identifier read, and the number of bytes taken.
unfoldable pub unmarshal : Buffer → ℕ → ComponentId × ℕ
unfolding get_short get_long bswap_32
unmarshal buf start = (
  record {
    sensor_id = get_long buf (start + 6);
    address = bswap_32 (get_long buf start);
    port = get_short buf (start + 4);
  },
  10,
)
