-- ===== src/Marshall/Interop.antt =====
-- Every host writes the same bytes, and reads the same numbers from them.
use vn_sdm.Common.{ℕ, ◌+◌, ◌*◌, ◌^◌, ◌<◌, ◌≡◌, refl, sym, arith}
use vn_sdm.Wire.{Buffer, byte_of, put_short, put_long, get_short, get_long}
use vn_sdm.ComponentId.{bswap_32}
use vn_sdm.Marshall.{
  Host, little_endian, big_endian, bswap_16, get_type2, put_type2, get_type4, put_type4,
  marshall_get16, marshall_put16, marshall_get32, marshall_put32,
}

swap_s_lem : (a b : ℕ) → a < 256 → b < 256 → bswap_16 (b + a * 2 ^ 8) ≡ a + b * 2 ^ 8
unfolding bswap_16
swap_s_lem a b h k = omega arith

swap_l_lem :
    (a b c d : ℕ)
    → a < 256
    → b < 256
    → c < 256
    → d < 256
    → bswap_32 (d + c * 2 ^ 8 + b * 2 ^ 16 + a * 2 ^ 24) ≡ a + b * 2 ^ 8 + c * 2 ^ 16 + d * 2 ^ 24
unfolding bswap_32
swap_l_lem a b c d ha hb hc hd = omega arith

byte_of-bswap_32 :
    (v : ℕ)
    → (byte_of (bswap_32 v) 3 ≡ byte_of v 0)
      × (byte_of (bswap_32 v) 2 ≡ byte_of v 1)
      × (byte_of (bswap_32 v) 1 ≡ byte_of v 2)
      × (byte_of (bswap_32 v) 0 ≡ byte_of v 3)
unfolding bswap_32
byte_of-bswap_32 v = (omega arith, omega arith, omega arith, omega arith)

byte_of-bswap_16 :
    (v : ℕ) → (byte_of (bswap_16 v) 1 ≡ byte_of v 0) × (byte_of (bswap_16 v) 0 ≡ byte_of v 1)
unfolding bswap_16
byte_of-bswap_16 v = (omega arith, omega arith)

-- The macros write the same bytes on a host of either byte order.
put_type_lem :
    (host : Host) (buf : Buffer) (p v : ℕ)
    → (put_type2 host buf p v ≡ put_short buf p v) × (put_type4 host buf p v ≡ put_long buf p v)
unfolding put_type2 put_type4 put_short put_long
put_type_lem little_endian buf p v = (refl, refl)
put_type_lem big_endian buf p v =
    let s = byte_of-bswap_16 v in
    let l = byte_of-bswap_32 v in (rw (s.0, s.1) refl, rw (l.0, l.1, l.2, l.3) refl)

-- The macros read the same number from the same bytes on a host of either byte order.
get_type_lem :
    (host : Host) (buf : Buffer) (p : ℕ)
    → ((i : ℕ) → buf i < 256)
    → (get_type2 host buf p ≡ get_short buf p) × (get_type4 host buf p ≡ get_long buf p)
unfolding get_type2 get_type4 get_short get_long
get_type_lem little_endian buf p h = (refl, refl)
get_type_lem big_endian buf p h = (
  swap_s_lem (buf p) (buf (p + 1)) (h p) (h (p + 1)),
  swap_l_lem (buf p) (buf (p + 1)) (buf (p + 2)) (buf (p + 3)) (h p) (h (p + 1)) (h (p + 2))
      (h (p + 3)),
)

macros_lem :
    (host : Host) (buf : Buffer) (p v : ℕ)
    → ((i : ℕ) → buf i < 256)
    → (put_type2 host buf p v ≡ put_short buf p v)
      × (put_type4 host buf p v ≡ put_long buf p v)
      × (get_type2 host buf p ≡ get_short buf p)
      × (get_type4 host buf p ≡ get_long buf p)
macros_lem host buf p v h =
    let (put2, put4) = put_type_lem host buf p v in
    let (get2, get4) = get_type_lem host buf p h in (put2, put4, get2, get4)

marshall_lem :
    (buf : Buffer) (p v : ℕ)
    → ((i : ℕ) → buf i < 256)
    → (marshall_put16 big_endian buf p v ≡ put_short buf p v)
      × (marshall_put32 big_endian buf p v ≡ put_long buf p v)
      × (marshall_get16 big_endian buf p ≡ get_short buf p)
      × (marshall_get32 big_endian buf p ≡ get_long buf p)
      × (marshall_put16 little_endian buf p v ≡ put_short buf p (bswap_16 v))
      × (marshall_put32 little_endian buf p v ≡ put_long buf p (bswap_32 v))
      × (marshall_get16 little_endian buf p ≡ bswap_16 (get_short buf p))
      × (marshall_get32 little_endian buf p ≡ bswap_32 (get_long buf p))
unfolding marshall_put16 marshall_put32 marshall_get16 marshall_get32 put_short put_long get_short
    get_long
marshall_lem buf p v h =
    let s = byte_of-bswap_16 v in
    let l = byte_of-bswap_32 v in
    (
      refl,
      refl,
      refl,
      refl,
      rw (s.0, s.1) refl,
      rw (l.0, l.1, l.2, l.3) refl,
      sym (swap_s_lem (buf (p + 1)) (buf p) (h (p + 1)) (h p)),
      sym (
          swap_l_lem (buf (p + 3)) (buf (p + 2)) (buf (p + 1)) (buf p) (h (p + 3)) (h (p + 2))
            (h (p + 1)) (h p)),
    )

-- On a host of either byte order, the macros for integers of two and four bytes write the same
-- bytes, and read the same numbers from the same bytes. On a big-endian host, the functions of
-- marshall.c for these write and read what the macros do; on a little-endian host they write and read
-- the bytes of each number in the opposite order.
pub interop_lem :
    (host : Host) (buf : Buffer) (p v : ℕ)
    → ((i : ℕ) → buf i < 256)
    → (put_type2 host buf p v ≡ put_short buf p v)
      × (put_type4 host buf p v ≡ put_long buf p v)
      × (get_type2 host buf p ≡ get_short buf p)
      × (get_type4 host buf p ≡ get_long buf p)
      × (marshall_put16 big_endian buf p v ≡ put_short buf p v)
      × (marshall_put32 big_endian buf p v ≡ put_long buf p v)
      × (marshall_get16 big_endian buf p ≡ get_short buf p)
      × (marshall_get32 big_endian buf p ≡ get_long buf p)
      × (marshall_put16 little_endian buf p v ≡ put_short buf p (bswap_16 v))
      × (marshall_put32 little_endian buf p v ≡ put_long buf p (bswap_32 v))
      × (marshall_get16 little_endian buf p ≡ bswap_16 (get_short buf p))
      × (marshall_get32 little_endian buf p ≡ bswap_32 (get_long buf p))
interop_lem host buf p v h =
    let (put2, put4, get2, get4) = macros_lem host buf p v h in
    let (mput2, mput4, mget2, mget4, lput2, lput4, lget2, lget4) = marshall_lem buf p v h in
    (put2, put4, get2, get4, mput2, mput4, mget2, mget4, lput2, lput4, lget2, lget4)
