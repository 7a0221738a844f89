-- ===== src/Marshall.antt =====
-- common/marshall.c, and the macros of common/marshall.h for integers on either kind of host: GET_TYPE2, GET_TYPE4,
-- PUT_TYPE2 and PUT_TYPE4 with SDM_ntohs, SDM_ntohl, SDM_htons and SDM_htonl, and the functions that take their
-- place where words must be aligned.
pub mod Interop
use vn_sdm.Common.{ℕ, ◌+◌, ◌-◌, ◌*◌, ◌^◌}
use vn_sdm.Wire.{Buffer, poke, byte_of}
use vn_sdm.ComponentId.{bswap_32}

-- `__BYTE_ORDER`
pub data Host : Type 0 where
  little_endian : Host
  big_endian : Host

-- The k-th byte in memory of a number of two or four bytes.
abbrev pub byte_of_2 : Host → ℕ → ℕ → ℕ
byte_of_2 little_endian v k = byte_of v k
byte_of_2 big_endian v k = byte_of v (1 - k)

abbrev pub byte_of_4 : Host → ℕ → ℕ → ℕ
byte_of_4 little_endian v k = byte_of v k
byte_of_4 big_endian v k = byte_of v (3 - k)

-- The number whose bytes in memory are given, the first one first.
abbrev pub number_2 : Host → ℕ → ℕ → ℕ
number_2 little_endian a b = a + b * 2 ^ 8
number_2 big_endian a b = b + a * 2 ^ 8

abbrev pub number_4 : Host → ℕ → ℕ → ℕ → ℕ → ℕ
number_4 little_endian a b c d = a + b * 2 ^ 8 + c * 2 ^ 16 + d * 2 ^ 24
number_4 big_endian a b c d = d + c * 2 ^ 8 + b * 2 ^ 16 + a * 2 ^ 24

-- `bswap_16`, of a number of two bytes
unfoldable pub bswap_16 : ℕ → ℕ
bswap_16 x = byte_of x 1 + byte_of x 0 * 2 ^ 8

-- SDM_ntohs and SDM_htons
unfoldable pub swap_s : Host → ℕ → ℕ
unfolding bswap_16
swap_s little_endian x = x
swap_s big_endian x = bswap_16 x

-- SDM_ntohl and SDM_htonl
unfoldable pub swap_l : Host → ℕ → ℕ
unfolding bswap_32
swap_l little_endian x = x
swap_l big_endian x = bswap_32 x

-- GET_TYPE2 and PUT_TYPE2
unfoldable pub get_type2 : Host → Buffer → ℕ → ℕ
unfolding swap_s
get_type2 host buf p = swap_s host (number_2 host (buf p) (buf (p + 1)))

unfoldable pub put_type2 : Host → Buffer → ℕ → ℕ → Buffer
unfolding swap_s
put_type2 host buf p v =
    let w = swap_s host v in poke (poke buf p (byte_of_2 host w 0)) (p + 1) (byte_of_2 host w 1)

-- GET_TYPE4 and PUT_TYPE4, at the integer types. (GET_FLOAT and PUT_FLOAT are not these: on a big-endian
-- host, the value of the float is converted to an integer and swapped.)
unfoldable pub get_type4 : Host → Buffer → ℕ → ℕ
unfolding swap_l
get_type4 host buf p = swap_l host (number_4 host (buf p) (buf (p + 1)) (buf (p + 2)) (buf (p + 3)))

unfoldable pub put_type4 : Host → Buffer → ℕ → ℕ → Buffer
unfolding swap_l
put_type4 host buf p v =
    let w = swap_l host v in
    poke
      (poke (poke (poke buf p (byte_of_4 host w 0)) (p + 1) (byte_of_4 host w 1)) (p + 2)
        (byte_of_4 host w 2))
      (p + 3) (byte_of_4 host w 3)

-- `_marshall_get16` and `_marshall_put16`: BSWAP_2 between the buffer and the number in memory
unfoldable pub marshall_get16 : Host → Buffer → ℕ → ℕ
marshall_get16 host buf p = number_2 host (buf (p + 1)) (buf p)

unfoldable pub marshall_put16 : Host → Buffer → ℕ → ℕ → Buffer
marshall_put16 host buf p v = poke (poke buf p (byte_of_2 host v 1)) (p + 1) (byte_of_2 host v 0)

-- `_marshall_get32` and `_marshall_put32`: BSWAP_4
unfoldable pub marshall_get32 : Host → Buffer → ℕ → ℕ
marshall_get32 host buf p = number_4 host (buf (p + 3)) (buf (p + 2)) (buf (p + 1)) (buf p)

unfoldable pub marshall_put32 : Host → Buffer → ℕ → ℕ → Buffer
marshall_put32 host buf p v =
    poke
      (poke (poke (poke buf p (byte_of_4 host v 3)) (p + 1) (byte_of_4 host v 2)) (p + 2)
        (byte_of_4 host v 1))
      (p + 3) (byte_of_4 host v 0)
