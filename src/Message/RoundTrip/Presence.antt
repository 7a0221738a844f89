-- ===== src/Message/RoundTrip/Presence.antt =====
-- Marshal followed by Unmarshal, for the classes of SdmHello, SdmAck, SdmReady, SdmHeartbeat, SdmId.
use vn_sdm.Common.{◌≡◌, ◌+◌, arith}
use vn_sdm.Wire.{Buffer}
use vn_sdm.Header
use vn_sdm.Header.{Timeval, IsTime, IsClass, read, header_size}
use vn_sdm.Message.SdmHello
use vn_sdm.Message.SdmHello.{SdmHello}
use vn_sdm.Message.SdmAck
use vn_sdm.Message.SdmAck.{SdmAck}
use vn_sdm.Message.SdmReady
use vn_sdm.Message.SdmReady.{SdmReady}
use vn_sdm.Message.SdmHeartbeat
use vn_sdm.Message.SdmHeartbeat.{SdmHeartbeat}
use vn_sdm.Message.SdmId
use vn_sdm.Message.SdmId.{SdmId}

-- What `SDMHello::Marshal` writes, any object of the class reads back, to the last byte.
pub hello_round_trip :
    (now : Timeval) (m r : SdmHello) (buf : Buffer)
    → IsTime now
    → SdmHello.IsValid m
    → IsClass b'P' 11 r.header
    → let (m', buf', n) = SdmHello.marshal now m buf in
      (SdmHello.unmarshal r buf' ≡ (m', read n)) × (n ≡ header_size + 11)
unfolding SdmHello.marshal SdmHello.unmarshal Header.marshal_old_time_stamp
hello_round_trip now m r buf t v c = ground arith

-- What `SDMAck::Marshal` writes, any object of the class reads back, to the last byte.
pub ack_round_trip :
    (now : Timeval) (m r : SdmAck) (buf : Buffer)
    → IsTime now
    → SdmAck.IsValid m
    → IsClass b'G' 2 r.header
    → let (m', buf', n) = SdmAck.marshal now m buf in
      (SdmAck.unmarshal r buf' ≡ (m', read n)) × (n ≡ header_size + 2)
unfolding SdmAck.marshal SdmAck.unmarshal Header.marshal_old_time_stamp
ack_round_trip now m r buf t v c = ground arith

-- What `SDMReady::Marshal` writes, any object of the class reads back, to the last byte.
pub ready_round_trip :
    (now : Timeval) (m r : SdmReady) (buf : Buffer)
    → IsTime now
    → SdmReady.IsValid m
    → IsClass b'D' 20 r.header
    → let (m', buf', n) = SdmReady.marshal now m buf in
      (SdmReady.unmarshal r buf' ≡ (m', read n)) × (n ≡ header_size + 20)
unfolding SdmReady.marshal SdmReady.unmarshal Header.marshal_old_time_stamp
ready_round_trip now m r buf t v c = ground arith

-- What `SDMHeartbeat::Marshal` writes, any object of the class reads back, to the last byte.
pub heartbeat_round_trip :
    (now : Timeval) (m r : SdmHeartbeat) (buf : Buffer)
    → IsTime now
    → SdmHeartbeat.IsValid m
    → IsClass b'h' 10 r.header
    → let (m', buf', n) = SdmHeartbeat.marshal now m buf in
      (SdmHeartbeat.unmarshal r buf' ≡ (m', read n)) × (n ≡ header_size + 10)
unfolding SdmHeartbeat.marshal SdmHeartbeat.unmarshal Header.marshal_old_time_stamp
heartbeat_round_trip now m r buf t v c = ground arith

-- What `SDMID::Marshal` writes, any object of the class reads back, to the last byte.
pub id_round_trip :
    (now : Timeval) (m r : SdmId) (buf : Buffer)
    → IsTime now
    → SdmId.IsValid m
    → IsClass b'R' 10 r.header
    → let (m', buf', n) = SdmId.marshal now m buf in
      (SdmId.unmarshal r buf' ≡ (m', read n)) × (n ≡ header_size + 10)
unfolding SdmId.marshal SdmId.unmarshal Header.marshal_old_time_stamp
id_round_trip now m r buf t v c = ground arith
