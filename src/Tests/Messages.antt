-- ===== src/Tests/Messages.antt =====
-- Runs of common/message.
use vn_sdm.Common.{not, ◌||◌, ◌==◌, ℕ, zero, suc, ◌+◌, ◌<◌, ◌≡◌, ◌≢◌, refl, arith}
use vn_sdm.Wire.{Buffer, IsText}
use vn_sdm.ComponentId
use vn_sdm.ComponentId.{ComponentId}
use vn_sdm.Header.{Timeval, IsTime, invalid_message, read, header_size}
use vn_sdm.Message.SdmHello
use vn_sdm.Message.SdmHello.{SdmHello}
use vn_sdm.Message.SdmData
use vn_sdm.Message.SdmData.{SdmData}
use vn_sdm.Message.SdmPostTask
use vn_sdm.Message.SdmPostTask.{SdmPostTask}
use vn_sdm.Message.SdmCancelXteds
use vn_sdm.Message.SdmCancelXteds.{SdmCancelXteds}
use vn_sdm.Message.AnyMessage.{hello, data_msg, post_task, marshal, unmarshal, header_of}
use vn_sdm.Message.Forward.{unmarshal_wrong_name}
use vn_sdm.Message.Delivery.Fixed.{of_hello, fixed_round_trip}
use vn_sdm.Message.Delivery.Payload.{of_data_msg, received_payload, payload_round_trip}
use vn_sdm.Message.Delivery.Text.{of_post_task, received_text, text_round_trip}
use vn_sdm.Message.RoundTrip.Legacy.{is_rejected, cancel_xteds_lem}

abbrev host : ComponentId
host = record { sensor_id = 7; address = 0x0a00_0001; port = 3504 }

host-IsValid : ComponentId.IsValid host
host-IsValid = record {
  sensor_id_lt = omega arith;
  address_lt = omega arith;
  port_lt = omega arith;
}

abbrev now : Timeval
now = record { tv_sec = 1700000000; tv_usec = 250000 }

now-IsTime : IsTime now
now-IsTime = record { sec_lt = omega arith; usec_lt = omega arith }

abbrev empty : Buffer
empty _ = 0

abbrev greeting : SdmHello
greeting = record SdmHello.create { source = host }

greeting-IsValid : SdmHello.IsValid greeting
greeting-IsValid = record {
  is_class = record { name_eq = refl; total_eq = refl };
  source_valid = host-IsValid;
  type_lt = omega arith;
}

fixed_round_trip_example :
    let (m', buf', n) = marshal now (hello greeting) empty in
    (unmarshal (hello SdmHello.create) buf' ≡ (m', read n)) × (n ≡ header_size + 11)
unfolding header_of
fixed_round_trip_example =
    fixed_round_trip now (hello greeting) (hello SdmHello.create) empty now-IsTime
      (of_hello greeting-IsValid (record { name_eq = refl; total_eq = refl }))

abbrev sample : SdmData
sample = record (SdmData.create 4) {
  source = host;
  msg_id = record { interface = 1; message = 2 };
  msg = λ i. 9;
  length = 3;
}

sample-IsValid : SdmData.IsValid sample
sample-IsValid = record {
  is_class = record { name_eq = refl; total_eq = refl };
  source_valid = host-IsValid;
  msg_id_valid = record { interface_lt = omega arith; message_lt = omega arith };
  pid_lt = omega arith;
  seq_num_lt = omega arith;
  fits = omega arith;
}

payload_round_trip_example :
    let (m', buf', n) = marshal now (data_msg sample) empty in
    (unmarshal (data_msg (SdmData.create 8)) buf'
      ≡ (received_payload (data_msg (SdmData.create 8)) m', read n))
    × (n ≡ header_size + 18 + 3)
unfolding header_of
payload_round_trip_example =
    payload_round_trip now (data_msg sample) (data_msg (SdmData.create 8)) empty now-IsTime
      (of_data_msg sample-IsValid (record { name_eq = refl; total_eq = refl }))

-- The name of a task: "ls".
abbrev ls : Buffer
ls zero = b'l'
ls (suc zero) = b's'
ls (suc (suc i)) = 0

ls-IsText : IsText ls 0 2
ls-IsText = (nonzero, refl)
  where
    nonzero : (i : ℕ) → i < 2 → ls (0 + i) ≢ 0
    nonzero zero h = omega arith
    nonzero (suc zero) h = omega arith
    nonzero (suc (suc i)) h = absurd (omega arith)

abbrev posted : SdmPostTask
posted = record SdmPostTask.create { filename = ls }

posted-IsValid : SdmPostTask.IsValid posted 2
posted-IsValid = record {
  is_class = record { name_eq = refl; total_eq = refl };
  resources_lt = omega arith;
  priority_lt = omega arith;
  sched_interval_lt = omega arith;
  mode_lt = omega arith;
  version_lt = omega arith;
  text = ls-IsText;
  fits = omega arith;
}

text_round_trip_example :
    let (m', buf', k) = marshal now (post_task posted) empty in
    unmarshal (post_task SdmPostTask.create) buf'
    ≡ (received_text 2 (post_task SdmPostTask.create) m', read k)
text_round_trip_example =
    text_round_trip now 2 (post_task posted) (post_task SdmPostTask.create) empty now-IsTime
      (of_post_task posted-IsValid (record { name_eq = refl; total_eq = refl }))

-- A buffer of zeros is no hello message.
unmarshal_wrong_name_example : unmarshal (hello greeting) empty ≡ (hello greeting, invalid_message)
unfolding header_of
unmarshal_wrong_name_example = unmarshal_wrong_name (hello greeting) empty other
  where
    other : empty 0 ≢ (header_of (hello greeting)).msg_name
    other = omega arith

abbrev cancellation : SdmCancelXteds
cancellation = record SdmCancelXteds.create { source = host }

cancellation-IsValid : SdmCancelXteds.IsValid cancellation
cancellation-IsValid = record {
  is_class = record { name_eq = refl; total_eq = refl };
  source_valid = host-IsValid;
  full_cancel_lt = omega arith;
}

cancel_xteds_lem_example :
    let (m', buf', n) =
      SdmCancelXteds.marshal now (SdmCancelXteds.prepare_send cancellation) empty in
    (SdmCancelXteds.unmarshal SdmCancelXteds.create buf' ≡ (m', read n))
    × (n ≡ header_size + 11)
    × (is_rejected
          (SdmCancelXteds.unmarshal SdmCancelXteds.create
            (SdmCancelXteds.marshal now cancellation empty).1).1
        ≡ not (cancellation.header.msg_length == 10 || cancellation.header.msg_length == 11))
cancel_xteds_lem_example =
    cancel_xteds_lem now cancellation SdmCancelXteds.create empty now-IsTime cancellation-IsValid
      (record { name_eq = refl; total_eq = refl }) (omega arith)
