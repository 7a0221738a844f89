-- ===== src/Wire.antt =====
-- The message buffer of common/marshall.h: GET_* and PUT_* over a little-endian host, and the
-- running offset `cur` of the Marshal and Unmarshal methods.
--
-- A buffer is a function from offsets to bytes. A signed C integer is carried as its
-- two's-complement bit pattern, so that `PUT_LONG` and `PUT_ULONG` store the same bytes.
use vn_sdm.Common.{
  ℕ, zero, suc, ◌+◌, ◌-◌, ◌*◌, ◌/◌, ◌%◌, ◌^◌, ltb, leb, ◌==◌, if◌then◌else◌, Bool, true, false,
  ◌&&◌, ◌<◌, ◌≤◌, ◌≡◌, ◌≢◌, fun_ext, arith,
}

abbrev pub Buffer : Type 0
Buffer = ℕ → ℕ

-- One byte of memory.
abbrev pub poke : Buffer → ℕ → ℕ → Buffer
poke buf p v = λ i. if i == p then v else buf i

abbrev pub byte_of : ℕ → ℕ → ℕ
byte_of v k = v / 2 ^ (8 * k) % 256

-- PUT_CHAR, PUT_UCHAR
unfoldable pub put_char : Buffer → ℕ → ℕ → Buffer
put_char buf p v = poke buf p (v % 256)

-- PUT_SHORT, PUT_USHORT
unfoldable pub put_short : Buffer → ℕ → ℕ → Buffer
put_short buf p v = poke (poke buf p (byte_of v 0)) (p + 1) (byte_of v 1)

-- PUT_INT, PUT_LONG and their unsigned versions: `long` has four bytes.
unfoldable pub put_long : Buffer → ℕ → ℕ → Buffer
put_long buf p v =
    poke (poke (poke (poke buf p (byte_of v 0)) (p + 1) (byte_of v 1)) (p + 2) (byte_of v 2))
      (p + 3) (byte_of v 3)

-- `a > b` of two shorts, on their bit patterns: a pattern of 2 ^ 15 or more is negative.
abbrev pub short_gt : ℕ → ℕ → Bool
short_gt a b = ltb ((b + 2 ^ 15) % 2 ^ 16) ((a + 2 ^ 15) % 2 ^ 16)

-- GET_CHAR, GET_UCHAR
unfoldable pub get_char : Buffer → ℕ → ℕ
get_char buf p = buf p

-- GET_SHORT, GET_USHORT
unfoldable pub get_short : Buffer → ℕ → ℕ
get_short buf p = buf p + buf (p + 1) * 2 ^ 8

-- GET_INT, GET_LONG and their unsigned versions
unfoldable pub get_long : Buffer → ℕ → ℕ
get_long buf p = buf p + buf (p + 1) * 2 ^ 8 + buf (p + 2) * 2 ^ 16 + buf (p + 3) * 2 ^ 24

-- `memcpy(dst + p, src + q, n)`
unfoldable pub memcpy : Buffer → ℕ → Buffer → ℕ → ℕ → Buffer
memcpy dst p src q n = λ i. if leb p i && ltb i (p + n) then src (q + (i - p)) else dst i

-- `strlen(src + q)`. The search stops after `limit` bytes, where C reads on: the callers pass the
-- size of what is allocated, in which a text has its terminator.
unfoldable pub strlen : ℕ → Buffer → ℕ → ℕ
strlen zero src q = 0
strlen (suc limit) src q = elim (src q == 0) [ true ↦ 0 | false ↦ suc (strlen limit src (q + 1)) ]

-- `strncpy(dst + p, src + q, n)`: the text, and zeros up to `n` bytes.
unfoldable pub strncpy : Buffer → ℕ → Buffer → ℕ → ℕ → Buffer
strncpy dst p src q n = λ i.
    if leb p i && ltb i (p + n)
    then if ltb (i - p) (strlen n src q) then src (q + (i - p)) else 0
    else dst i

-- BUFSIZE, the size of a message buffer.
abbrev pub bufsize : ℕ
bufsize = 24288

-- MAX_FILENAME_SIZE
abbrev pub max_filename_size : ℕ
max_filename_size = 128

-- How the Unmarshal methods take a text out of a message: `strlen`, `strncpy` into an array of
-- `size` bytes, and a terminator in the last byte if the text was too long. The result is the array
-- and the length found.
unfoldable pub get_text : Buffer → ℕ → ℕ → Buffer → Buffer × ℕ
unfolding strncpy
get_text buf cur size dst =
    let n = strlen bufsize buf cur in
    let copied = strncpy dst 0 buf cur size in
    (if ltb (size - 1) n then poke copied (size - 1) 0 else copied, n)

-- At `src + q` stands a text of `n` bytes and its terminator.
abbrev pub IsText : Buffer → ℕ → ℕ → Type 0
IsText src q n = ((i : ℕ) → i < n → src (q + i) ≢ 0) × (src (q + n) ≡ 0)

-- `strlen` finds the length of a text that ends within the limit.
pub strlen_lem :
    (limit : ℕ) (src : Buffer) (q n : ℕ) → n < limit → IsText src q n → strlen limit src q ≡ n
unfolding strlen
strlen_lem zero src q n h t = absurd (omega arith)
strlen_lem (suc limit) src q zero h t = ground arith
strlen_lem (suc limit) src q (suc n) h t =
    ground (arith, t.0 0 (omega arith), strlen_lem limit src (q + 1) n (omega arith) (shifted n t))
  where
    shifted : (k : ℕ) → IsText src q (suc k) → IsText src (q + 1) k
    shifted k u = (λ i l. ground (arith, u.0 (i + 1) (omega arith)), ground (arith, u.1))

-- The array after a text of `n` bytes has been copied into its `size` bytes.
abbrev pub text_in : ℕ → Buffer → ℕ → Buffer → Buffer
text_in n src size dst = λ i. if ltb i size then if ltb i n then src i else 0 else dst i

-- A text that fits is taken out whole, padded with zeros, and its length is found.
pub get_text_lem :
    (buf : Buffer) (cur size : ℕ) (dst src : Buffer) (n : ℕ)
    → n < size
    → size ≤ bufsize
    → IsText buf cur n
    → ((i : ℕ) → i < n → buf (cur + i) ≡ src i)
    → get_text buf cur size dst ≡ (text_in n src size dst, n)
unfolding get_text
get_text_lem buf cur size dst src n h k t same = rw whole (ground (arith, array))
  where
    whole : strlen bufsize buf cur ≡ n
    whole = strlen_lem bufsize buf cur n (omega arith) t

    short : strlen size buf cur ≡ n
    short = strlen_lem size buf cur n h t

    array : strncpy dst 0 buf cur size ≡ text_in n src size dst
    array = fun_ext (λ i. ground (arith, short, same i))
