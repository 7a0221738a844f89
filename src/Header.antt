-- ===== src/Header.antt =====
-- common/message/SDMmessage.{h,cpp}: the header that every message begins with.
use vn_sdm.Common.{ℕ, ◌^◌, ◌<◌, ◌≡◌, ◌==◌, if◌then◌else◌}
use vn_sdm.Wire.{Buffer, put_char, put_short, put_long, get_char, get_short, get_long}

-- The data members of class SDMmessage. `total_length` is the length that the class fixes, or the
-- smallest.
pub record Header : Type 0 where
  pub msg_name : ℕ
  pub sec : ℕ
  pub subsec : ℕ
  pub msg_length : ℕ
  pub total_length : ℕ

-- The constructor of SDMmessage, followed by what each subclass's own sets.
abbrev pub new_header : ℕ → ℕ → Header
new_header name total = record {
  msg_name = name;
  sec = 0;
  subsec = 0;
  msg_length = 0;
  total_length = total;
}

-- What the constructor of a class has set, and no method changes.
pub record IsClass (name total : ℕ) (h : Header) : Type 0 where
  pub name_eq : h.msg_name ≡ name
  pub total_eq : h.total_length ≡ total

-- What `gettimeofday` fills in.
pub record Timeval : Type 0 where
  pub tv_sec : ℕ
  pub tv_usec : ℕ

-- Both parts fit a four-byte `long`.
pub record IsTime (now : Timeval) : Type 0 where
  pub sec_lt : now.tv_sec < 2 ^ 32
  pub usec_lt : now.tv_usec < 2 ^ 32

-- The result of Unmarshal: SDM_INVALID_MESSAGE, or the number of bytes read.
pub data Result : Type 0 where
  invalid_message : Result
  read : ℕ → Result

-- HEADER_SIZE
abbrev pub header_size : ℕ
header_size = 11

-- `MarshalHeaderOldTimeStamp`
unfoldable pub marshal_old_time_stamp : Header → Buffer → Buffer
unfolding put_char put_short put_long
marshal_old_time_stamp h buf =
    let b1 = put_char buf 0 h.msg_name in
    let b2 = put_long b1 1 h.sec in let b3 = put_long b2 5 h.subsec in put_short b3 9 h.msg_length

-- `MarshalHeader`: the time stamp is taken at the call.
unfoldable pub marshal : Timeval → Header → Buffer → Header × Buffer
marshal now h buf =
    let h' : Header = record h { sec = now.tv_sec; subsec = now.tv_usec } in
    (h', marshal_old_time_stamp h' buf)

-- `UnmarshalHeader`, of a buffer that is there: the callers pass no null pointer.
unfoldable pub unmarshal : Header → Buffer → Header × Result
unfolding get_char get_short get_long
unmarshal h buf =
    if get_char buf 0 == h.msg_name
    then (
      record h { sec = get_long buf 1; subsec = get_long buf 5; msg_length = get_short buf 9 },
      read header_size,
    )
    else (h, invalid_message)
