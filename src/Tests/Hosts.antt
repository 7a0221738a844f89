-- ===== src/Tests/Hosts.antt =====
-- Runs of common/marshall.h and common/marshall.c.
use vn_sdm.Common.{ℕ, ◌<◌, ◌≡◌, refl, arith}
use vn_sdm.Wire.{Buffer, put_short, put_long, get_short, get_long}
use vn_sdm.ComponentId.{bswap_32}
use vn_sdm.Marshall.{
  little_endian, big_endian, bswap_16, get_type2, put_type2, get_type4, put_type4, swap_l,
  marshall_get16, marshall_put16, marshall_get32, marshall_put32,
}
use vn_sdm.Marshall.Interop.{interop_lem}

abbrev sevens : Buffer
sevens _ = 7

-- The lowest byte comes first.
lowest_first : put_type4 big_endian sevens 4 0x1234 4 ≡ 0x34
unfolding put_type4 swap_l bswap_32
lowest_first = refl

sevens_bytes : (i : ℕ) → sevens i < 256
sevens_bytes i = omega arith

interop_lem_example :
    (put_type2 big_endian sevens 4 0x1234 ≡ put_short sevens 4 0x1234)
    × (put_type4 big_endian sevens 4 0x1234 ≡ put_long sevens 4 0x1234)
    × (get_type2 big_endian sevens 4 ≡ get_short sevens 4)
    × (get_type4 big_endian sevens 4 ≡ get_long sevens 4)
    × (marshall_put16 big_endian sevens 4 0x1234 ≡ put_short sevens 4 0x1234)
    × (marshall_put32 big_endian sevens 4 0x1234 ≡ put_long sevens 4 0x1234)
    × (marshall_get16 big_endian sevens 4 ≡ get_short sevens 4)
    × (marshall_get32 big_endian sevens 4 ≡ get_long sevens 4)
    × (marshall_put16 little_endian sevens 4 0x1234 ≡ put_short sevens 4 (bswap_16 0x1234))
    × (marshall_put32 little_endian sevens 4 0x1234 ≡ put_long sevens 4 (bswap_32 0x1234))
    × (marshall_get16 little_endian sevens 4 ≡ bswap_16 (get_short sevens 4))
    × (marshall_get32 little_endian sevens 4 ≡ bswap_32 (get_long sevens 4))
interop_lem_example = interop_lem big_endian sevens 4 0x1234 sevens_bytes
