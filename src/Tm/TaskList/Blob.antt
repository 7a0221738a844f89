-- ===== src/Tm/TaskList/Blob.antt =====
-- `FillTaskListBlob` of tm/tasklist.cpp writes a line for each task, and stays within its buffer.
use vn_sdm.Common.{
  ℕ, ◌+◌, ◌-◌, ◌^◌, ◌%◌, ◌≤◌, ◌<◌, ◌≡◌, refl, arith, ltb, if◌then◌else◌, Bool, not, ◌&&◌, List, [],
  ◌∷◌, length,
}
use vn_sdm.Wire.{Buffer, poke, put_short}
use vn_sdm.Tm.Task.{inactive, scheduled, Task, has_state}
use vn_sdm.Tm.TaskList.{TaskList}

-- enum TaskSet
pub data TaskSet : Type 0 where
  tasks_all : TaskSet
  tasks_running : TaskSet

abbrev pub listed : TaskSet → Task → Bool
listed tasks_all t = not (has_state inactive t)
listed tasks_running t = has_state scheduled t

-- `strcpy` of a text to an offset
unfoldable pub put_text : Buffer → ℕ → List ℕ → Buffer
put_text buf p [] = poke buf p 0
put_text buf p (c ∷ s) = put_text (poke buf p c) (p + 1) s

-- What the loop of `FillTaskListBlob` changes.
pub record Progress : Type 0 where
  pub buffer : Buffer
  pub cur_offset : ℕ
  pub bytes_remaining : ℕ
  pub num_tasks_written : ℕ

-- The line of a task is not made here but by `snprintf`: `entry t`.
module _ (entry : Task → List ℕ) where
  -- A round of the loop.
  unfoldable pub put_entry : TaskSet → Task → Progress → Progress
  unfolding put_text
  put_entry set t b =
      let n = length (entry t) in
      if listed set t && ltb (b.cur_offset + n) b.bytes_remaining
      then record {
        buffer = put_text b.buffer b.cur_offset (entry t);
        cur_offset = b.cur_offset + n;
        bytes_remaining = b.bytes_remaining - n;
        num_tasks_written = b.num_tasks_written + 1;
      }
      else b

  unfoldable pub put_entries : TaskSet → TaskList → Progress → Progress
  put_entries set [] b = b
  put_entries set (t ∷ l) b = put_entries set l (put_entry set t b)

  -- `FillTaskListBlob`: the buffer, and the length. The size is an unsigned int, and its subtraction wraps.
  unfoldable pub fill_task_list_blob : TaskSet → TaskList → Buffer → ℕ → Buffer × ℕ
  unfolding put_entry put_entries put_short
  fill_task_list_blob set l buffer buffer_size =
      let b = put_entries set l (record {
        buffer = buffer;
        cur_offset = 2;
        bytes_remaining = (buffer_size + (2 ^ 32 - 2)) % 2 ^ 32;
        num_tasks_written = 0;
      }) in
      (poke (put_short b.buffer 0 b.num_tasks_written) b.cur_offset 0, b.cur_offset + 1)

put_text_outside :
    (buf : Buffer) (p : ℕ) (s : List ℕ) (i : ℕ) → p + length s < i → put_text buf p s i ≡ buf i
unfolding put_text
put_text_outside buf p [] i h = ground arith
put_text_outside buf p (c ∷ s) i h =
    ground (arith, put_text_outside (poke buf p c) (p + 1) s i (omega arith))

module _ (entry : Task → List ℕ) (buffer : Buffer) (size : ℕ) (big : 3 ≤ size)
    (fits : size < 2 ^ 32) where
  -- The loop has stayed within the buffer.
  record Within (b : Progress) (i : ℕ) : Type 0 where
    offset_lt : b.cur_offset + 1 ≤ size
    remaining_le : b.bytes_remaining + 2 ≤ size
    same : size ≤ i → b.buffer i ≡ buffer i

  put_entry-Within :
      (set : TaskSet) (t : Task) (b : Progress) (i : ℕ)
      → Within b i
      → Within (put_entry entry set t b) i
  unfolding put_entry
  put_entry-Within set t b i w = ground (arith, put_text_outside b.buffer b.cur_offset (entry t) i)

  put_entries-Within :
      (set : TaskSet) (l : TaskList) (b : Progress) (i : ℕ)
      → Within b i
      → Within (put_entries entry set l b) i
  unfolding put_entries
  put_entries-Within set [] b i w = w
  put_entries-Within set (t ∷ l) b i w =
      put_entries-Within set l (put_entry entry set t b) i (put_entry-Within set t b i w)

  -- With a buffer of at least three bytes, whatever the lines are, the length that `FillTaskListBlob` returns is at most that of the buffer,
  -- and no byte behind the buffer is written.
  pub fill_task_list_blob_bounded :
      (set : TaskSet) (l : TaskList) (i : ℕ)
      → size ≤ i
      → ((fill_task_list_blob entry set l buffer size).1 ≤ size)
        × ((fill_task_list_blob entry set l buffer size).0 i ≡ buffer i)
  unfolding fill_task_list_blob put_short
  fill_task_list_blob_bounded set l i h =
      let start : Progress = record {
        buffer = buffer;
        cur_offset = 2;
        bytes_remaining = (size + (2 ^ 32 - 2)) % 2 ^ 32;
        num_tasks_written = 0;
      } in
      let w =
        put_entries-Within set l start i
          (record { offset_lt = omega arith; remaining_le = omega arith; same = λ _. refl }) in
      (w.offset_lt, ground (arith, w.offset_lt, w.same h))
