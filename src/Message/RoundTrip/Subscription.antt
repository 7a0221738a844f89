-- ===== src/Message/RoundTrip/Subscription.antt =====
-- Marshal followed by Unmarshal, for the classes of SdmSubreqst, SdmDeletesub, SdmCancel, SdmConsume.
use vn_sdm.Common.{◌≡◌, ◌+◌, arith}
use vn_sdm.Wire.{Buffer}
use vn_sdm.Header
use vn_sdm.Header.{Timeval, IsTime, IsClass, read, header_size}
use vn_sdm.Message.SdmSubreqst
use vn_sdm.Message.SdmSubreqst.{SdmSubreqst}
use vn_sdm.Message.SdmDeletesub
use vn_sdm.Message.SdmDeletesub.{SdmDeletesub}
use vn_sdm.Message.SdmCancel
use vn_sdm.Message.SdmCancel.{SdmCancel}
use vn_sdm.Message.SdmConsume
use vn_sdm.Message.SdmConsume.{SdmConsume}

-- What `SDMSubreqst::Marshal` writes, any object of the class reads back, to the last byte.
pub subreqst_round_trip :
    (now : Timeval) (m r : SdmSubreqst) (buf : Buffer)
    → IsTime now
    → SdmSubreqst.IsValid m
    → IsClass b'u' 24 r.header
    → let (m', buf', n) = SdmSubreqst.marshal now m buf in
      (SdmSubreqst.unmarshal r buf' ≡ (m', read n)) × (n ≡ header_size + 24)
unfolding SdmSubreqst.marshal SdmSubreqst.unmarshal Header.marshal_old_time_stamp
subreqst_round_trip now m r buf t v c = ground arith

-- What `SDMDeletesub::Marshal` writes, any object of the class reads back, to the last byte.
pub deletesub_round_trip :
    (now : Timeval) (m r : SdmDeletesub) (buf : Buffer)
    → IsTime now
    → SdmDeletesub.IsValid m
    → IsClass b'v' 22 r.header
    → let (m', buf', n) = SdmDeletesub.marshal now m buf in
      (SdmDeletesub.unmarshal r buf' ≡ (m', read n)) × (n ≡ header_size + 22)
unfolding SdmDeletesub.marshal SdmDeletesub.unmarshal Header.marshal_old_time_stamp
deletesub_round_trip now m r buf t v c = ground arith

-- What `SDMCancel::Marshal` writes, any object of the class reads back, to the last byte.
pub cancel_round_trip :
    (now : Timeval) (m r : SdmCancel) (buf : Buffer)
    → IsTime now
    → SdmCancel.IsValid m
    → IsClass b'm' 22 r.header
    → let (m', buf', n) = SdmCancel.marshal now m buf in
      (SdmCancel.unmarshal r buf' ≡ (m', read n)) × (n ≡ header_size + 22)
unfolding SdmCancel.marshal SdmCancel.unmarshal Header.marshal_old_time_stamp
cancel_round_trip now m r buf t v c = ground arith

-- What `SDMConsume::Marshal` writes, any object of the class reads back, to the last byte.
pub consume_round_trip :
    (now : Timeval) (m r : SdmConsume) (buf : Buffer)
    → IsTime now
    → SdmConsume.IsValid m
    → IsClass b'l' 22 r.header
    → let (m', buf', n) = SdmConsume.marshal now m buf in
      (SdmConsume.unmarshal r buf' ≡ (m', read n)) × (n ≡ header_size + 22)
unfolding SdmConsume.marshal SdmConsume.unmarshal Header.marshal_old_time_stamp
consume_round_trip now m r buf t v c = ground arith
