-- ===== src/Message/RoundTrip/Filename.antt =====
-- Marshal followed by Unmarshal, for the task classes that end in a file name.
use vn_sdm.Common.{◌≡◌, ◌+◌, ◌<◌, ℕ, arith}
use vn_sdm.Wire.{Buffer, IsText, get_text_lem, text_in, strlen_lem, memcpy}
use vn_sdm.Header
use vn_sdm.Header.{Timeval, IsTime, IsClass, read, header_size}
use vn_sdm.Message.SdmTask
use vn_sdm.Message.SdmTask.{SdmTask}
use vn_sdm.Message.SdmTaskError
use vn_sdm.Message.SdmTaskError.{SdmTaskError}
use vn_sdm.Message.SdmTaskFinished
use vn_sdm.Message.SdmTaskFinished.{SdmTaskFinished}
use vn_sdm.Message.SdmReqCode
use vn_sdm.Message.SdmReqCode.{SdmReqCode}

module _ (now : Timeval) (m r : SdmTask) (buf : Buffer) (n : ℕ) (v : SdmTask.IsValid m n) where
  task-IsText : IsText (SdmTask.marshal now m buf).1 30 n
  unfolding SdmTask.marshal memcpy Header.marshal_old_time_stamp
  task-IsText = (
    λ i h. ground (arith, strlen_lem SdmTask.capacity m.filename 0 n v.fits v.text, v.text.0 i h),
    ground (arith, strlen_lem SdmTask.capacity m.filename 0 n v.fits v.text),
  )

  task_same : (i : ℕ) → i < n → (SdmTask.marshal now m buf).1 (30 + i) ≡ m.filename i
  unfolding SdmTask.marshal memcpy Header.marshal_old_time_stamp
  task_same i h = ground (arith, strlen_lem SdmTask.capacity m.filename 0 n v.fits v.text)

  -- What `SDMTask::Marshal` writes, any object of the class reads back: all fields and the text,
  -- padded with zeros to the end of the receiver's array.
  pub task_round_trip :
      IsTime now
      → IsClass b'b' 10 r.header
      → let (m', buf', k) = SdmTask.marshal now m buf in
        (SdmTask.unmarshal r buf'
          ≡ (record m' { filename = text_in n m.filename SdmTask.capacity r.filename }, read k))
        × (k ≡ 30 + n + 1)
  unfolding SdmTask.marshal SdmTask.unmarshal memcpy Header.marshal_old_time_stamp
  task_round_trip t c = ground (
    arith,
    strlen_lem SdmTask.capacity m.filename 0 n v.fits v.text,
    get_text_lem (SdmTask.marshal now m buf).1 30 SdmTask.capacity r.filename m.filename n v.fits
        (omega arith) task-IsText task_same,
  )

module _ (now : Timeval) (m r : SdmTaskError) (buf : Buffer) (n : ℕ)
    (v : SdmTaskError.IsValid m n) where
  task_error-IsText : IsText (SdmTaskError.marshal now m buf).1 29 n
  unfolding SdmTaskError.marshal memcpy Header.marshal_old_time_stamp
  task_error-IsText = (
    λ i h.
        ground (arith, strlen_lem SdmTaskError.capacity m.filename 0 n v.fits v.text, v.text.0 i h),
    ground (arith, strlen_lem SdmTaskError.capacity m.filename 0 n v.fits v.text),
  )

  task_error_same : (i : ℕ) → i < n → (SdmTaskError.marshal now m buf).1 (29 + i) ≡ m.filename i
  unfolding SdmTaskError.marshal memcpy Header.marshal_old_time_stamp
  task_error_same i h =
      ground (arith, strlen_lem SdmTaskError.capacity m.filename 0 n v.fits v.text)

  -- What `SDMTaskError::Marshal` writes, any object of the class reads back: all fields and the text,
  -- padded with zeros to the end of the receiver's array.
  pub task_error_round_trip :
      IsTime now
      → IsClass b'T' 19 r.header
      → let (m', buf', k) = SdmTaskError.marshal now m buf in
        (SdmTaskError.unmarshal r buf' ≡ (
          record m' { filename = text_in n m.filename SdmTaskError.capacity r.filename },
          read k,
        ))
        × (k ≡ 29 + n + 1)
  unfolding SdmTaskError.marshal SdmTaskError.unmarshal memcpy Header.marshal_old_time_stamp
  task_error_round_trip t c = ground (
    arith,
    strlen_lem SdmTaskError.capacity m.filename 0 n v.fits v.text,
    get_text_lem (SdmTaskError.marshal now m buf).1 29 SdmTaskError.capacity r.filename m.filename n
        v.fits (omega arith) task_error-IsText task_error_same,
  )

module _ (now : Timeval) (m r : SdmTaskFinished) (buf : Buffer) (n : ℕ)
    (v : SdmTaskFinished.IsValid m n) where
  task_finished-IsText : IsText (SdmTaskFinished.marshal now m buf).1 29 n
  unfolding SdmTaskFinished.marshal memcpy Header.marshal_old_time_stamp
  task_finished-IsText = (
    λ i h.
        ground
          (arith, strlen_lem SdmTaskFinished.capacity m.filename 0 n v.fits v.text, v.text.0 i h),
    ground (arith, strlen_lem SdmTaskFinished.capacity m.filename 0 n v.fits v.text),
  )

  task_finished_same :
      (i : ℕ) → i < n → (SdmTaskFinished.marshal now m buf).1 (29 + i) ≡ m.filename i
  unfolding SdmTaskFinished.marshal memcpy Header.marshal_old_time_stamp
  task_finished_same i h =
      ground (arith, strlen_lem SdmTaskFinished.capacity m.filename 0 n v.fits v.text)

  -- What `SDMTaskFinished::Marshal` writes, any object of the class reads back: all fields and the text,
  -- padded with zeros to the end of the receiver's array.
  pub task_finished_round_trip :
      IsTime now
      → IsClass b'E' 19 r.header
      → let (m', buf', k) = SdmTaskFinished.marshal now m buf in
        (SdmTaskFinished.unmarshal r buf' ≡ (
          record m' { filename = text_in n m.filename SdmTaskFinished.capacity r.filename },
          read k,
        ))
        × (k ≡ 29 + n + 1)
  unfolding SdmTaskFinished.marshal SdmTaskFinished.unmarshal memcpy Header.marshal_old_time_stamp
  task_finished_round_trip t c = ground (
    arith,
    strlen_lem SdmTaskFinished.capacity m.filename 0 n v.fits v.text,
    get_text_lem (SdmTaskFinished.marshal now m buf).1 29 SdmTaskFinished.capacity r.filename
        m.filename n v.fits (omega arith) task_finished-IsText task_finished_same,
  )

module _ (now : Timeval) (m r : SdmReqCode) (buf : Buffer) (n : ℕ)
    (v : SdmReqCode.IsValid m n) where
  req_code-IsText : IsText (SdmReqCode.marshal now m buf).1 27 n
  unfolding SdmReqCode.marshal memcpy Header.marshal_old_time_stamp
  req_code-IsText = (
    λ i h.
        ground (arith, strlen_lem SdmReqCode.capacity m.filename 0 n v.fits v.text, v.text.0 i h),
    ground (arith, strlen_lem SdmReqCode.capacity m.filename 0 n v.fits v.text),
  )

  req_code_same : (i : ℕ) → i < n → (SdmReqCode.marshal now m buf).1 (27 + i) ≡ m.filename i
  unfolding SdmReqCode.marshal memcpy Header.marshal_old_time_stamp
  req_code_same i h = ground (arith, strlen_lem SdmReqCode.capacity m.filename 0 n v.fits v.text)

  -- What `SDMReqCode::Marshal` writes, any object of the class reads back: all fields and the text,
  -- padded with zeros to the end of the receiver's array.
  pub req_code_round_trip :
      IsTime now
      → IsClass b'c' 17 r.header
      → let (m', buf', k) = SdmReqCode.marshal now m buf in
        (SdmReqCode.unmarshal r buf'
          ≡ (record m' { filename = text_in n m.filename SdmReqCode.capacity r.filename }, read k))
        × (k ≡ 27 + n + 1)
  unfolding SdmReqCode.marshal SdmReqCode.unmarshal memcpy Header.marshal_old_time_stamp
  req_code_round_trip t c = ground (
    arith,
    strlen_lem SdmReqCode.capacity m.filename 0 n v.fits v.text,
    get_text_lem (SdmReqCode.marshal now m buf).1 27 SdmReqCode.capacity r.filename m.filename n
        v.fits (omega arith) req_code-IsText req_code_same,
  )
