-- ===== src/LineBuffer.antt =====
-- src/line_buffer.cpp and include/gisland/line_buffer.hpp: the bytes of a module's output stream,
-- cut into lines of bounded length. A byte is a number, and a method returns the new buffer beside
-- its result: an `append` that fails has consumed the bytes before the one that it refuses.
pub mod Bounds
pub mod Stream
pub mod Lines
pub mod Truncation
mod Tests
use gisland.Prelude.{
  ltb, ◌==◌, if◌then◌else◌, is_empty, length, get_last?, drop_last, Expected, value, unexpected, ℕ,
  ◌*◌, Bool, true, false, not, ◌&&◌, Option, none, some, List, [], ◌∷◌, ◌++◌,
}

pub record BufferedLine : Type 0 where
  pub text : List ℕ
  pub truncated : Bool

pub data LineBufferErrorCode : Type 0 where
  embedded_nul line_too_long finished : LineBufferErrorCode

pub record LineBuffer : Type 0 where
  pub maximum_line_bytes : ℕ
  pub truncate : Bool
  pub reject_nul : Bool
  pub truncated : Bool
  pub finished : Bool
  pub current : List ℕ

abbrev pub default_protocol_limit : ℕ
default_protocol_limit = 8 * 1024 * 1024

abbrev pub default_stderr_limit : ℕ
default_stderr_limit = 64 * 1024

-- The private constructor.
abbrev pub make : ℕ → Bool → Bool → LineBuffer
make maximum_line_bytes truncate reject_nul = record {
  maximum_line_bytes = maximum_line_bytes;
  truncate = truncate;
  reject_nul = reject_nul;
  truncated = false;
  finished = false;
  current = [];
}

unfoldable pub protocol : ℕ → LineBuffer
protocol maximum_line_bytes = make maximum_line_bytes false true

unfoldable pub standard_error : ℕ → LineBuffer
standard_error maximum_line_bytes = make maximum_line_bytes true false

abbrev pub carriage_return : ℕ
carriage_return = 13

abbrev pub newline : ℕ
newline = 10

abbrev pub is_return : Option ℕ → Bool
is_return none = false
is_return (some byte) = byte == carriage_return

-- A carriage return before the end of the line is no part of it.
unfoldable pub strip_return : List ℕ → List ℕ
strip_return text = if is_return (get_last? text) then drop_last text else text

unfoldable pub take_line : LineBuffer → LineBuffer × BufferedLine
unfolding strip_return
take_line b = (
  record b { current = []; truncated = false },
  record { text = strip_return b.current; truncated = b.truncated },
)

abbrev pub Outcome : Type 0 → Type 0
Outcome A = LineBuffer × Expected A LineBufferErrorCode

-- One round of the loop of `append`: the line that the byte ends, if it ends one.
unfoldable pub append_byte : LineBuffer → ℕ → Outcome (Option BufferedLine)
unfolding take_line
append_byte b byte =
    if byte == 0 && b.reject_nul
    then (b, unexpected embedded_nul)
    else if byte == newline
    then (let (b', line) = take_line b in (b', value (some line)))
    else if ltb (length b.current) b.maximum_line_bytes
    then (record b { current = b.current ++ byte ∷ [] }, value none)
    else if not b.truncate
    then (b, unexpected line_too_long)
    else (record b { truncated = true }, value none)

-- What the loop does with the outcome of a round: the next rounds, or the early return.
abbrev pub proceed :
    (LineBuffer → List BufferedLine → Outcome (List BufferedLine))
    → List BufferedLine
    → Outcome (Option BufferedLine)
    → Outcome (List BufferedLine)
proceed rest lines (b, value none) = rest b lines
proceed rest lines (b, value (some line)) = rest b (lines ++ line ∷ [])
proceed rest lines (b, unexpected error) = (b, unexpected error)

unfoldable pub append_loop : LineBuffer → List BufferedLine → List ℕ → Outcome (List BufferedLine)
append_loop b lines [] = (b, value lines)
append_loop b lines (byte ∷ bytes) =
    proceed (λ b' lines'. append_loop b' lines' bytes) lines (append_byte b byte)

unfoldable pub append : LineBuffer → List ℕ → Outcome (List BufferedLine)
append b bytes = if b.finished then (b, unexpected finished) else append_loop b [] bytes

unfoldable pub finish : LineBuffer → Outcome (Option BufferedLine)
unfolding take_line
finish b =
    if b.finished
    then (b, value none)
    else (let ended = record b { finished = true } in
        if is_empty b.current && not b.truncated
        then (ended, value none)
        else (let (b', line) = take_line ended in (b', value (some line))))
