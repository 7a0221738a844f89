-- ===== src/Message/RoundTrip/Payload.antt =====
-- Marshal followed by Unmarshal, for the classes that carry a payload.
use vn_sdm.Common.{◌≡◌, ◌+◌, fun_ext, arith}
use vn_sdm.Wire.{Buffer, memcpy}
use vn_sdm.Header
use vn_sdm.Header.{Timeval, IsTime, IsClass, read, header_size}
use vn_sdm.Message.SdmSerreqst
use vn_sdm.Message.SdmSerreqst.{SdmSerreqst}
use vn_sdm.Message.SdmData
use vn_sdm.Message.SdmData.{SdmData}
use vn_sdm.Message.SdmCommand
use vn_sdm.Message.SdmCommand.{SdmCommand}
use vn_sdm.Message.SdmService
use vn_sdm.Message.SdmService.{SdmService}

-- What `SDMSerreqst::Marshal` writes, any object of the class reads back: all fields, the length
-- and the payload. Behind the payload the receiver's array stays as it was.
pub serreqst_round_trip :
    (now : Timeval) (m r : SdmSerreqst) (buf : Buffer)
    → IsTime now
    → SdmSerreqst.IsValid m
    → IsClass b'y' 28 r.header
    → let (m', buf', n) = SdmSerreqst.marshal now m buf in
      (SdmSerreqst.unmarshal r buf'
        ≡ (record m' { payload = memcpy r.payload 0 m.payload 0 m.length }, read n))
      × (n ≡ 39 + m.length)
unfolding SdmSerreqst.marshal SdmSerreqst.unmarshal memcpy Header.marshal_old_time_stamp
serreqst_round_trip now m r buf t v c = ground (arith, payload)
  where
    payload :
        memcpy r.payload 0 (SdmSerreqst.marshal now m buf).1 39 m.length
        ≡ memcpy r.payload 0 m.payload 0 m.length
    payload = fun_ext (λ i. ground arith)

-- What `SDMData::Marshal` writes, any object of the class reads back: all fields, the length
-- and the payload. Behind the payload the receiver's array stays as it was.
pub data_round_trip :
    (now : Timeval) (m r : SdmData) (buf : Buffer)
    → IsTime now
    → SdmData.IsValid m
    → IsClass b't' 18 r.header
    → let (m', buf', n) = SdmData.marshal now m buf in
      (SdmData.unmarshal r buf' ≡ (record m' { msg = memcpy r.msg 0 m.msg 0 m.length }, read n))
      × (n ≡ 29 + m.length)
unfolding SdmData.marshal SdmData.unmarshal memcpy Header.marshal_old_time_stamp
data_round_trip now m r buf t v c = ground (arith, payload)
  where
    payload :
        memcpy r.msg 0 (SdmData.marshal now m buf).1 29 m.length ≡ memcpy r.msg 0 m.msg 0 m.length
    payload = fun_ext (λ i. ground arith)

-- What `SDMCommand::Marshal` writes, any object of the class reads back: all fields but the inherited
-- sequence number, which is not sent, the length and the payload. Behind the payload the receiver's
-- array stays as it was.
pub command_round_trip :
    (now : Timeval) (m r : SdmCommand) (buf : Buffer)
    → IsTime now
    → SdmCommand.IsValid m
    → IsClass b'z' 24 r.header
    → let (m', buf', n) = SdmCommand.marshal now m buf in
      (SdmCommand.unmarshal r buf' ≡ (
        record m' { seq_num = r.seq_num; payload = memcpy r.payload 0 m.payload 0 m.length },
        read n,
      ))
      × (n ≡ 35 + m.length)
unfolding SdmCommand.marshal SdmCommand.unmarshal memcpy Header.marshal_old_time_stamp
command_round_trip now m r buf t v c = ground (arith, payload)
  where
    payload :
        memcpy r.payload 0 (SdmCommand.marshal now m buf).1 35 m.length
        ≡ memcpy r.payload 0 m.payload 0 m.length
    payload = fun_ext (λ i. ground arith)

-- What `SDMService::Marshal` writes, any object of the class reads back: all fields, the length
-- and the payload. Behind the payload the receiver's array stays as it was.
pub service_round_trip :
    (now : Timeval) (m r : SdmService) (buf : Buffer)
    → IsTime now
    → SdmService.IsValid m
    → IsClass b'x' 24 r.header
    → let (m', buf', n) = SdmService.marshal now m buf in
      (SdmService.unmarshal r buf'
        ≡ (record m' { payload = memcpy r.payload 0 m.payload 0 m.length }, read n))
      × (n ≡ 35 + m.length)
unfolding SdmService.marshal SdmService.unmarshal memcpy Header.marshal_old_time_stamp
service_round_trip now m r buf t v c = ground (arith, payload)
  where
    payload :
        memcpy r.payload 0 (SdmService.marshal now m buf).1 35 m.length
        ≡ memcpy r.payload 0 m.payload 0 m.length
    payload = fun_ext (λ i. ground arith)
