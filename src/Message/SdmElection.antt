-- ===== src/Message/SdmElection.antt =====
-- common/message/SDMElection.{h,cpp}: the call for an election of the leading Data Manager.
use vn_sdm.Common.{ℕ}
use vn_sdm.Wire.{Buffer}
use vn_sdm.Header
use vn_sdm.Header.{Header, Timeval, Result, header_size, new_header, IsClass}

-- class SDMElection
pub record SdmElection : Type 0 where
  pub header : Header

-- The constructor.
abbrev pub create : SdmElection
create = record { header = new_header b'L' 0 }

-- What the constructor sets, and fields that fit their C types.
pub record IsValid (m : SdmElection) : Type 0 where
  pub is_class : IsClass b'L' 0 m.header

-- `Marshal`: the message with its new header, the buffer and the offset behind the last byte.
unfoldable pub marshal : Timeval → SdmElection → Buffer → SdmElection × Buffer × ℕ
unfolding Header.marshal
marshal now m buf =
    let cur : ℕ = header_size in
    let (h, b') = Header.marshal now m.header buf in (record m { header = h }, b', cur)

-- `Unmarshal`: a rejected message may have replaced the header.
unfoldable pub unmarshal : SdmElection → Buffer → SdmElection × Result
unfolding Header.unmarshal
unmarshal m buf = let (h, r) = Header.unmarshal m.header buf in (record m { header = h }, r)
