-- ===== src/Message/Delivery/Text.antt =====
-- Marshal followed by Unmarshal over the classes that end in a text.
use vn_sdm.Common.{ℕ, ◌≡◌, refl}
use vn_sdm.Wire.{Buffer, text_in}
use vn_sdm.Header.{Timeval, IsTime, IsClass, read}
use vn_sdm.Message.SdmTask
use vn_sdm.Message.SdmTask.{SdmTask}
use vn_sdm.Message.SdmTaskError
use vn_sdm.Message.SdmTaskError.{SdmTaskError}
use vn_sdm.Message.SdmTaskFinished
use vn_sdm.Message.SdmTaskFinished.{SdmTaskFinished}
use vn_sdm.Message.SdmReqCode
use vn_sdm.Message.SdmReqCode.{SdmReqCode}
use vn_sdm.Message.SdmPostTask
use vn_sdm.Message.SdmPostTask.{SdmPostTask}
use vn_sdm.Message.SdmError
use vn_sdm.Message.SdmError.{SdmError}
use vn_sdm.Message.SdmSearch
use vn_sdm.Message.SdmSearch.{SdmSearch}
use vn_sdm.Message.AnyMessage.{
  Message, marshal, unmarshal, task, task_error, task_finished, req_code, post_task, error, search,
}
use vn_sdm.Message.RoundTrip.Filename.{
  task_round_trip, task_error_round_trip, task_finished_round_trip, req_code_round_trip,
}
use vn_sdm.Message.RoundTrip.Text.{post_task_round_trip, error_round_trip, search_round_trip}

-- A valid message whose text has the given length, and an object of the same class.
pub data Ends : ℕ → Message → Message → Type 0 where
  of_task :
      {n : ℕ} {m r : SdmTask}
      → SdmTask.IsValid m n
      → IsClass b'b' 10 r.header
      → Ends n (task m) (task r)
  of_task_error :
      {n : ℕ} {m r : SdmTaskError}
      → SdmTaskError.IsValid m n
      → IsClass b'T' 19 r.header
      → Ends n (task_error m) (task_error r)
  of_task_finished :
      {n : ℕ} {m r : SdmTaskFinished}
      → SdmTaskFinished.IsValid m n
      → IsClass b'E' 19 r.header
      → Ends n (task_finished m) (task_finished r)
  of_req_code :
      {n : ℕ} {m r : SdmReqCode}
      → SdmReqCode.IsValid m n
      → IsClass b'c' 17 r.header
      → Ends n (req_code m) (req_code r)
  of_post_task :
      {n : ℕ} {m r : SdmPostTask}
      → SdmPostTask.IsValid m n
      → IsClass b'i' 16 r.header
      → Ends n (post_task m) (post_task r)
  of_error :
      {n : ℕ} {m r : SdmError}
      → SdmError.IsValid m n
      → IsClass b'C' 13 r.header
      → Ends n (error m) (error r)
  of_search :
      {n : ℕ} {m r : SdmSearch}
      → SdmSearch.IsValid m n
      → IsClass b'I' 24 r.header
      → Ends n (search m) (search r)

-- What an object of the class holds once it has received a message with a text of `n` bytes: the text
-- in its array, and zeros behind it.
abbrev pub received_text : ℕ → Message → Message → Message
received_text n (task r) (task m) =
    task (record m { filename = text_in n m.filename SdmTask.capacity r.filename })
received_text n (task_error r) (task_error m) =
    task_error (record m { filename = text_in n m.filename SdmTaskError.capacity r.filename })
received_text n (task_finished r) (task_finished m) =
    task_finished (record m { filename = text_in n m.filename SdmTaskFinished.capacity r.filename })
received_text n (req_code r) (req_code m) =
    req_code (record m { filename = text_in n m.filename SdmReqCode.capacity r.filename })
received_text n (post_task r) (post_task m) =
    post_task (record m { filename = text_in n m.filename SdmPostTask.capacity r.filename })
received_text n (error r) (error m) =
    error (record m { error_msg = text_in n m.error_msg SdmError.capacity r.error_msg })
received_text n (search r) (search m) =
    search (record m { reg_expr = text_in n m.reg_expr SdmSearch.capacity r.reg_expr })
received_text n _ m = m

-- A message that ends in a text of `n` bytes is read back by any object of its class: every field, and
-- the text, padded with zeros to the end of the object's array. The length that is read is the length
-- that was written.
pub text_round_trip :
    (now : Timeval) (n : ℕ) (m r : Message) (buf : Buffer)
    → IsTime now
    → Ends n m r
    → let (m', buf', k) = marshal now m buf in unmarshal r buf' ≡ (received_text n r m', read k)
unfolding marshal unmarshal SdmTask.marshal SdmTaskError.marshal SdmTaskFinished.marshal
    SdmReqCode.marshal SdmPostTask.marshal SdmError.marshal SdmSearch.marshal
text_round_trip now _ _ _ buf t (of_task {n} {m} {r} v c) =
    rw (task_round_trip now m r buf n v t c).0 refl
text_round_trip now _ _ _ buf t (of_task_error {n} {m} {r} v c) =
    rw (task_error_round_trip now m r buf n v t c).0 refl
text_round_trip now _ _ _ buf t (of_task_finished {n} {m} {r} v c) =
    rw (task_finished_round_trip now m r buf n v t c).0 refl
text_round_trip now _ _ _ buf t (of_req_code {n} {m} {r} v c) =
    rw (req_code_round_trip now m r buf n v t c).0 refl
text_round_trip now _ _ _ buf t (of_post_task {n} {m} {r} v c) =
    rw (post_task_round_trip now m r buf n v t c).0 refl
text_round_trip now _ _ _ buf t (of_error {n} {m} {r} v c) =
    rw (error_round_trip now m r buf n v t c).0 refl
text_round_trip now _ _ _ buf t (of_search {n} {m} {r} v c) =
    rw (search_round_trip now m r buf n v t c).0 refl
