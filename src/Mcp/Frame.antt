-- ===== src/Mcp/Frame.antt =====
-- pkg/mcp/frame.go, with `ReadSlice` of Go's `bufio`. The input is the bytes that are still to come;
-- how they arrive in pieces makes no difference to `ReadSlice`. Behind them the input ends, with
-- io.EOF or another error. A writer takes what it is given or fails, depending on what it took so far.
pub mod Lines
use garmx.Prelude.{
  ℕ, zero, suc, ◌+◌, ◌-◌, ◌*◌, Bool, true, false, ◌==◌, ltb, Option, none, some, List, [], ◌∷◌,
  ◌++◌, take, length, if◌then◌else◌,
}
use garmx.Prelude.Bytes.{Bytes}

abbrev pub max_line_bytes : ℕ
max_line_bytes = 16 * 1024 * 1024

abbrev pub newline : ℕ
newline = 10

abbrev pub carriage_return : ℕ
carriage_return = 13

-- Why `ReadSlice` stopped: at the delimiter, with bufio.ErrBufferFull, or where the input ended.
pub data Stop : Type 0 where
  delimiter : Stop
  buffer_full : Stop
  input_ended : Stop

-- `ReadSlice('\n')` with so many bytes of the buffer left, and what it leaves of the input.
unfoldable pub read_slice : ℕ → Bytes → Bytes × Stop × Bytes
read_slice zero input = ([], buffer_full, input)
read_slice (suc room) [] = ([], input_ended, [])
read_slice (suc room) (c ∷ cs) =
    let (chunk, stop, rest) = read_slice room cs in
    if c == newline then (c ∷ [], delimiter, cs) else (c ∷ chunk, stop, rest)

-- `n > 0 && b[n-1] == c`
unfoldable pub last_is : ℕ → Bytes → Bool
last_is c [] = false
last_is c (x ∷ []) = x == c
last_is c (x ∷ y ∷ ys) = last_is c (y ∷ ys)

-- `b[:n-1]`
abbrev pub all_but_last : Bytes → Bytes
all_but_last b = take (length b - 1) b

unfoldable pub trim_newline : Bytes → Bytes
unfolding last_is
trim_newline b =
    let shorter = all_but_last b in
    if last_is newline b
    then if last_is carriage_return shorter then all_but_last shorter else shorter
    else b

pub data ReadError : Type 0 where
  exceeds : ReadError
  ended : ReadError

-- A message, and the error that comes with it.
pub record Read : Type 0 where
  pub message : Bytes
  pub error : Option ReadError

-- The loop of `ReadMessage` with `buf` read so far; `none` is out of fuel.
unfoldable pub read_on : ℕ → ℕ → Bytes → Bytes → Option (Read × Bytes)
unfolding read_slice trim_newline
read_on size zero buf input = none
read_on size (suc fuel) buf input =
    let (chunk, stop, rest) = read_slice size input in
    let more = read_on size fuel (buf ++ chunk) rest in
    if ltb max_line_bytes (length buf + length chunk)
    then some (record { message = []; error = some exceeds }, rest)
    else elim stop [
      | buffer_full ↦ more
      | input_ended ↦
          some (record { message = trim_newline (buf ++ chunk); error = some ended }, rest)
      | delimiter ↦ some (record { message = trim_newline (buf ++ chunk); error = none }, rest)
    ]

-- `ReadMessage` with a buffer of `size` bytes. Every round takes a byte, but for the last one.
unfoldable pub read_message : ℕ → Bytes → Option (Read × Bytes)
unfolding read_on
read_message size input = read_on size (length input + 1) [] input

-- What was written, and whether the next write is taken.
pub record Sink : Type 0 where
  pub taken : Bytes
  pub takes : Bytes → Bytes → Bool

abbrev write : Bytes → Sink → Bool × Sink
write b w = if w.takes w.taken b then (true, record w { taken = w.taken ++ b }) else (false, w)

-- `WriteMessage` of a value that `json.Marshal` makes `payload` of; `none` is its error.
unfoldable pub write_message : Option Bytes → Sink → Bool × Sink
write_message none w = (false, w)
write_message (some payload) w =
    let (written, next) = write payload w in
    if written then write (newline ∷ []) next else (false, next)
