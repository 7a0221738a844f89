-- ===== src/Message/RoundTrip/Legacy.antt =====
-- The two classes that still accept an older form: SDMKill and SDMCancelxTEDS.
use vn_sdm.Common.{◌≡◌, ◌+◌, ◌^◌, ◌<◌, ◌==◌, ◌||◌, not, Bool, true, false, arith}
use vn_sdm.Wire.{Buffer}
use vn_sdm.Header
use vn_sdm.Header.{Timeval, IsTime, IsClass, Result, read, invalid_message, header_size}
use vn_sdm.Message.SdmKill
use vn_sdm.Message.SdmKill.{SdmKill}
use vn_sdm.Message.SdmCancelXteds
use vn_sdm.Message.SdmCancelXteds.{SdmCancelXteds}

-- What `SDMKill::Marshal` writes, any object of the class reads back, to the last byte.
pub kill_round_trip :
    (now : Timeval) (m r : SdmKill) (buf : Buffer)
    → IsTime now
    → SdmKill.IsValid m
    → IsClass b'e' 5 r.header
    → let (m', buf', n) = SdmKill.marshal now m buf in
      (SdmKill.unmarshal r buf' ≡ (m', read n)) × (n ≡ header_size + 5)
unfolding SdmKill.marshal SdmKill.unmarshal Header.marshal_old_time_stamp
kill_round_trip now m r buf t v c = ground arith

cancel_xteds_round_trip :
    (now : Timeval) (m r : SdmCancelXteds) (buf : Buffer)
    → IsTime now
    → SdmCancelXteds.IsValid m
    → IsClass b'r' 11 r.header
    → let (m', buf', n) = SdmCancelXteds.marshal now (SdmCancelXteds.prepare_send m) buf in
      (SdmCancelXteds.unmarshal r buf' ≡ (m', read n)) × (n ≡ header_size + 11)
unfolding SdmCancelXteds.marshal SdmCancelXteds.unmarshal SdmCancelXteds.prepare_send
    Header.marshal_old_time_stamp
cancel_xteds_round_trip now m r buf t v c = ground arith

abbrev pub is_rejected : Result → Bool
is_rejected invalid_message = true
is_rejected (read n) = false

cancel_xteds_unprepared :
    (now : Timeval) (m r : SdmCancelXteds) (buf : Buffer)
    → SdmCancelXteds.IsValid m
    → IsClass b'r' 11 r.header
    → m.header.msg_length < 2 ^ 16
    → is_rejected (SdmCancelXteds.unmarshal r (SdmCancelXteds.marshal now m buf).1).1
      ≡ not (m.header.msg_length == 10 || m.header.msg_length == 11)
unfolding SdmCancelXteds.marshal SdmCancelXteds.unmarshal Header.marshal_old_time_stamp
cancel_xteds_unprepared now m r buf v c w = ground arith

-- A message sent through `SDMCancelxTEDS::Send` is read back whole, whatever length of two bytes the
-- object had. Marshalled without `Send`, as `SendTo` does, it is rejected by every receiver exactly when
-- the object's length field holds neither 10 nor 11 (a new one holds 0).
pub cancel_xteds_lem :
    (now : Timeval) (m r : SdmCancelXteds) (buf : Buffer)
    → IsTime now
    → SdmCancelXteds.IsValid m
    → IsClass b'r' 11 r.header
    → m.header.msg_length < 2 ^ 16
    → let (m', buf', n) = SdmCancelXteds.marshal now (SdmCancelXteds.prepare_send m) buf in
      (SdmCancelXteds.unmarshal r buf' ≡ (m', read n))
      × (n ≡ header_size + 11)
      × (is_rejected (SdmCancelXteds.unmarshal r (SdmCancelXteds.marshal now m buf).1).1
          ≡ not (m.header.msg_length == 10 || m.header.msg_length == 11))
cancel_xteds_lem now m r buf t v c w =
    let (whole, length_eq) = cancel_xteds_round_trip now m r buf t v c in
    (whole, length_eq, cancel_xteds_unprepared now m r buf v c w)
