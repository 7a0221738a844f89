-- ===== src/Message/RoundTrip/Management.antt =====
-- Marshal followed by Unmarshal, for the classes of SdmElection, SdmDmLeader, SdmRegPm, SdmTat.
use vn_sdm.Common.{◌≡◌, ◌+◌, ◌^◌, ◌<◌, arith}
use vn_sdm.Wire.{Buffer}
use vn_sdm.Header
use vn_sdm.Header.{Timeval, IsTime, IsClass, read, header_size}
use vn_sdm.Message.SdmElection
use vn_sdm.Message.SdmElection.{SdmElection}
use vn_sdm.Message.SdmDmLeader
use vn_sdm.Message.SdmDmLeader.{SdmDmLeader}
use vn_sdm.Message.SdmRegPm
use vn_sdm.Message.SdmRegPm.{SdmRegPm}
use vn_sdm.Message.SdmTat
use vn_sdm.Message.SdmTat.{SdmTat}

-- What `SDMElection::Marshal` writes, any object of the class reads back, to the last byte.
pub election_round_trip :
    (now : Timeval) (m r : SdmElection) (buf : Buffer)
    → IsTime now
    → SdmElection.IsValid m
    → IsClass b'L' 0 r.header
    → m.header.msg_length < 2 ^ 16
    → let (m', buf', n) = SdmElection.marshal now m buf in
      (SdmElection.unmarshal r buf' ≡ (m', read n)) × (n ≡ header_size + 0)
unfolding SdmElection.marshal SdmElection.unmarshal Header.marshal_old_time_stamp
election_round_trip now m r buf t v c w = ground arith

-- What `SDMDMLeader::Marshal` writes, any object of the class reads back, to the last byte.
pub dm_leader_round_trip :
    (now : Timeval) (m r : SdmDmLeader) (buf : Buffer)
    → IsTime now
    → SdmDmLeader.IsValid m
    → IsClass b'K' 11 r.header
    → let (m', buf', n) = SdmDmLeader.marshal now m buf in
      (SdmDmLeader.unmarshal r buf' ≡ (m', read n)) × (n ≡ header_size + 11)
unfolding SdmDmLeader.marshal SdmDmLeader.unmarshal Header.marshal_old_time_stamp
dm_leader_round_trip now m r buf t v c = ground arith

-- What `SDMRegPM::Marshal` writes, any object of the class reads back, to the last byte.
pub reg_pm_round_trip :
    (now : Timeval) (m r : SdmRegPm) (buf : Buffer)
    → IsTime now
    → SdmRegPm.IsValid m
    → IsClass b'a' 12 r.header
    → let (m', buf', n) = SdmRegPm.marshal now m buf in
      (SdmRegPm.unmarshal r buf' ≡ (m', read n)) × (n ≡ header_size + 12)
unfolding SdmRegPm.marshal SdmRegPm.unmarshal Header.marshal_old_time_stamp
reg_pm_round_trip now m r buf t v c = ground arith

-- What `SDMTat::Marshal` writes, any object of the class reads back, to the last byte.
pub tat_round_trip :
    (now : Timeval) (m r : SdmTat) (buf : Buffer)
    → IsTime now
    → SdmTat.IsValid m
    → IsClass b'H' 18 r.header
    → let (m', buf', n) = SdmTat.marshal now m buf in
      (SdmTat.unmarshal r buf' ≡ (m', read n)) × (n ≡ header_size + 18)
unfolding SdmTat.marshal SdmTat.unmarshal Header.marshal_old_time_stamp
tat_round_trip now m r buf t v c = ground arith
