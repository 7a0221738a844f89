-- ===== src/Message/RoundTrip/Text.antt =====
-- Marshal followed by Unmarshal, for SDMPostTask, SDMError and SDMSearch, which end in a text.
use vn_sdm.Common.{◌≡◌, ◌+◌, ◌<◌, ℕ, arith}
use vn_sdm.Wire.{Buffer, IsText, get_text_lem, text_in, strlen_lem, memcpy, strncpy}
use vn_sdm.Header
use vn_sdm.Header.{Timeval, IsTime, IsClass, read, header_size}
use vn_sdm.Message.SdmPostTask
use vn_sdm.Message.SdmPostTask.{SdmPostTask}
use vn_sdm.Message.SdmError
use vn_sdm.Message.SdmError.{SdmError}
use vn_sdm.Message.SdmSearch
use vn_sdm.Message.SdmSearch.{SdmSearch}

module _ (now : Timeval) (m r : SdmPostTask) (buf : Buffer) (n : ℕ)
    (v : SdmPostTask.IsValid m n) where
  post_task-IsText : IsText (SdmPostTask.marshal now m buf).1 26 n
  unfolding SdmPostTask.marshal memcpy Header.marshal_old_time_stamp
  post_task-IsText = (
    λ i h.
        ground (arith, strlen_lem SdmPostTask.capacity m.filename 0 n v.fits v.text, v.text.0 i h),
    ground (arith, strlen_lem SdmPostTask.capacity m.filename 0 n v.fits v.text),
  )

  post_task_same : (i : ℕ) → i < n → (SdmPostTask.marshal now m buf).1 (26 + i) ≡ m.filename i
  unfolding SdmPostTask.marshal memcpy Header.marshal_old_time_stamp
  post_task_same i h = ground (arith, strlen_lem SdmPostTask.capacity m.filename 0 n v.fits v.text)

  -- What `SDMPostTask::Marshal` writes, any object of the class reads back: all fields and the text,
  -- padded with zeros to the end of the receiver's array.
  pub post_task_round_trip :
      IsTime now
      → IsClass b'i' 16 r.header
      → let (m', buf', k) = SdmPostTask.marshal now m buf in
        (SdmPostTask.unmarshal r buf'
          ≡ (record m' { filename = text_in n m.filename SdmPostTask.capacity r.filename }, read k))
        × (k ≡ 26 + n + 1)
  unfolding SdmPostTask.marshal SdmPostTask.unmarshal memcpy Header.marshal_old_time_stamp
  post_task_round_trip t c = ground (
    arith,
    strlen_lem SdmPostTask.capacity m.filename 0 n v.fits v.text,
    get_text_lem (SdmPostTask.marshal now m buf).1 26 SdmPostTask.capacity r.filename m.filename n
        v.fits (omega arith) post_task-IsText post_task_same,
  )

module _ (now : Timeval) (m r : SdmError) (buf : Buffer) (n : ℕ) (v : SdmError.IsValid m n) where
  error-IsText : IsText (SdmError.marshal now m buf).1 24 n
  unfolding SdmError.marshal strncpy Header.marshal_old_time_stamp
  error-IsText = (
    λ i h. ground (
      arith,
      strlen_lem SdmError.capacity m.error_msg 0 n v.fits v.text,
      strlen_lem (n + 1) m.error_msg 0 n (omega arith) v.text,
      v.text.0 i h,
    ),
    ground (
      arith,
      strlen_lem SdmError.capacity m.error_msg 0 n v.fits v.text,
      strlen_lem (n + 1) m.error_msg 0 n (omega arith) v.text,
    ),
  )

  error_same : (i : ℕ) → i < n → (SdmError.marshal now m buf).1 (24 + i) ≡ m.error_msg i
  unfolding SdmError.marshal strncpy Header.marshal_old_time_stamp
  error_same i h = ground (
    arith,
    strlen_lem SdmError.capacity m.error_msg 0 n v.fits v.text,
    strlen_lem (n + 1) m.error_msg 0 n (omega arith) v.text,
  )

  -- What `SDMError::Marshal` writes, any object of the class reads back: all fields and the text,
  -- padded with zeros to the end of the receiver's array.
  pub error_round_trip :
      IsTime now
      → IsClass b'C' 13 r.header
      → let (m', buf', k) = SdmError.marshal now m buf in
        (SdmError.unmarshal r buf'
          ≡ (record m' { error_msg = text_in n m.error_msg SdmError.capacity r.error_msg }, read k))
        × (k ≡ 24 + n + 1)
  unfolding SdmError.marshal SdmError.unmarshal strncpy Header.marshal_old_time_stamp
  error_round_trip t c = ground (
    arith,
    strlen_lem SdmError.capacity m.error_msg 0 n v.fits v.text,
    strlen_lem (n + 1) m.error_msg 0 n (omega arith) v.text,
    get_text_lem (SdmError.marshal now m buf).1 24 SdmError.capacity r.error_msg m.error_msg n
        v.fits (omega arith) error-IsText error_same,
  )

module _ (now : Timeval) (m r : SdmSearch) (buf : Buffer) (n : ℕ) (v : SdmSearch.IsValid m n) where
  search-IsText : IsText (SdmSearch.marshal now m buf).1 34 n
  unfolding SdmSearch.marshal memcpy Header.marshal_old_time_stamp
  search-IsText = (
    λ i h. ground (arith, strlen_lem SdmSearch.capacity m.reg_expr 0 n v.fits v.text, v.text.0 i h),
    ground (arith, strlen_lem SdmSearch.capacity m.reg_expr 0 n v.fits v.text),
  )

  search_same : (i : ℕ) → i < n → (SdmSearch.marshal now m buf).1 (34 + i) ≡ m.reg_expr i
  unfolding SdmSearch.marshal memcpy Header.marshal_old_time_stamp
  search_same i h = ground (arith, strlen_lem SdmSearch.capacity m.reg_expr 0 n v.fits v.text)

  -- What `SDMSearch::Marshal` writes, any object of the class reads back: all fields and the text,
  -- padded with zeros to the end of the receiver's array.
  pub search_round_trip :
      IsTime now
      → IsClass b'I' 24 r.header
      → let (m', buf', k) = SdmSearch.marshal now m buf in
        (SdmSearch.unmarshal r buf'
          ≡ (record m' { reg_expr = text_in n m.reg_expr SdmSearch.capacity r.reg_expr }, read k))
        × (k ≡ 34 + n + 1)
  unfolding SdmSearch.marshal SdmSearch.unmarshal memcpy Header.marshal_old_time_stamp
  search_round_trip t c =
      ground
        (
          arith,
          strlen_lem SdmSearch.capacity m.reg_expr 0 n v.fits v.text,
          get_text_lem (SdmSearch.marshal now m buf).1 34 SdmSearch.capacity r.reg_expr m.reg_expr n
              v.fits (omega arith) search-IsText search_same,
        )
        steps 10000000
