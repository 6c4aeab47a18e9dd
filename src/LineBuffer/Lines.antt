-- ===== src/LineBuffer/Lines.antt =====
-- What lines a protocol stream holds, and what becomes of the others.
use gisland.Prelude.{
  length, length-append, get_last?, All, value, unexpected, ℕ, ◌+◌, ◌≤◌, ◌<◌, ◌≡◌, ap, ◌∙◌, ◌≢◌,
  false, none, some, List, [], ◌∷◌, ◌++◌, map, arith,
}
use gisland.LineBuffer.{
  BufferedLine, LineBufferErrorCode, line_too_long, finished, LineBuffer, protocol, newline,
  is_return, strip_return, append_byte, proceed, append_loop, append, finish,
}
use mathlib.Core.List.{append-nil, append_assoc}

-- A byte that may stand in a line of the protocol.
abbrev pub IsPlain : ℕ → Type 0
IsPlain byte = (byte ≢ 0) × (byte ≢ newline)

-- A text that the buffer takes as one line: plain, not too long, and with no carriage return last.
abbrev pub IsLine : ℕ → List ℕ → Type 0
IsLine maximum text =
    All IsPlain text × (length text ≤ maximum) × (is_return (get_last? text) ≡ false)

-- The lines of a stream, each ended by a newline.
abbrev pub stream : List (List ℕ) → List ℕ
stream [] = []
stream (text ∷ texts) = text ++ newline ∷ stream texts

abbrev pub whole : List ℕ → BufferedLine
whole text = record { text = text; truncated = false }

-- A buffer that holds the beginning of a line.
abbrev pub holding : ℕ → List ℕ → LineBuffer
holding maximum text = record (protocol maximum) { current = text }

append_byte-plain :
    (maximum byte : ℕ) (text : List ℕ)
    → IsPlain byte
    → length text < maximum
    → append_byte (holding maximum text) byte ≡ (holding maximum (text ++ byte ∷ []), value none)
unfolding append_byte protocol
append_byte-plain maximum byte text p h = ground arith

append_byte-newline :
    (maximum : ℕ) (text : List ℕ)
    → is_return (get_last? text) ≡ false
    → append_byte (holding maximum text) newline ≡ (holding maximum [], value (some (whole text)))
unfolding append_byte protocol strip_return
append_byte-newline maximum text h = rw h

pub append_loop-none :
    (b b' : LineBuffer) (lines : List BufferedLine) (byte : ℕ) (bytes : List ℕ)
    → append_byte b byte ≡ (b', value none)
    → append_loop b lines (byte ∷ bytes) ≡ append_loop b' lines bytes
unfolding append_loop
append_loop-none b b' lines byte bytes e =
    ap (proceed (λ c lines'. append_loop c lines' bytes) lines) e

pub append_loop-some :
    (b b' : LineBuffer) (lines : List BufferedLine) (line : BufferedLine) (byte : ℕ)
    (bytes : List ℕ)
    → append_byte b byte ≡ (b', value (some line))
    → append_loop b lines (byte ∷ bytes) ≡ append_loop b' (lines ++ line ∷ []) bytes
unfolding append_loop
append_loop-some b b' lines line byte bytes e =
    ap (proceed (λ c lines'. append_loop c lines' bytes) lines) e

append_loop-unexpected :
    (b b' : LineBuffer) (lines : List BufferedLine) (error : LineBufferErrorCode) (byte : ℕ)
    (bytes : List ℕ)
    → append_byte b byte ≡ (b', unexpected error)
    → append_loop b lines (byte ∷ bytes) ≡ (b', unexpected error)
unfolding append_loop
append_loop-unexpected b b' lines error byte bytes e =
    ap (proceed (λ c lines'. append_loop c lines' bytes) lines) e

append_loop-plain :
    (maximum : ℕ) (text suffix bytes : List ℕ) (lines : List BufferedLine)
    → All IsPlain suffix
    → length text + length suffix ≤ maximum
    → append_loop (holding maximum text) lines (suffix ++ bytes)
      ≡ append_loop (holding maximum (text ++ suffix)) lines bytes
append_loop-plain maximum text [] bytes lines p h = rw append-nil
append_loop-plain maximum text (byte ∷ suffix) bytes lines p h =
    append_loop-none (holding maximum text) (holding maximum (text ++ byte ∷ [])) lines byte
      (suffix ++ bytes) (append_byte-plain maximum byte text p.0 (omega arith))
    ∙ append_loop-plain maximum (text ++ byte ∷ []) suffix bytes lines p.1
        (omega (arith, length-append text (byte ∷ [])))
    ∙ ap (λ t. append_loop (holding maximum t) lines bytes) (append_assoc text (byte ∷ []) suffix)

append_loop-stream :
    (maximum : ℕ) (lines : List BufferedLine) (texts : List (List ℕ))
    → All (IsLine maximum) texts
    → append_loop (holding maximum []) lines (stream texts)
      ≡ (holding maximum [], value (lines ++ map whole texts))
append_loop-stream maximum lines [] h = unfold append_loop in rw append-nil
append_loop-stream maximum lines (text ∷ texts) h =
    append_loop-plain maximum [] text (newline ∷ stream texts) lines h.0.0 (omega arith)
    ∙ append_loop-some (holding maximum text) (holding maximum []) lines (whole text) newline
        (stream texts) (append_byte-newline maximum text h.0.2)
    ∙ append_loop-stream maximum (lines ++ whole text ∷ []) texts h.1
    ∙ ap (λ l. (holding maximum [], value l))
        (append_assoc lines (whole text ∷ []) (map whole texts))

-- A protocol buffer takes a stream of lines apart into exactly these lines, none truncated, and
-- is then as it was. The lines are plain, not longer than the maximum and end in no carriage
-- return.
pub append-stream :
    (maximum : ℕ) (texts : List (List ℕ))
    → All (IsLine maximum) texts
    → append (protocol maximum) (stream texts) ≡ (protocol maximum, value (map whole texts))
unfolding append protocol
append-stream maximum texts h = append_loop-stream maximum [] texts h

append_byte-too_long :
    (maximum byte : ℕ) (text : List ℕ)
    → IsPlain byte
    → length text ≡ maximum
    → append_byte (holding maximum text) byte ≡ (holding maximum text, unexpected line_too_long)
unfolding append_byte protocol
append_byte-too_long maximum byte text p h = ground arith

-- A line that outgrows a protocol buffer is refused at its first byte too many, whatever follows.
pub append-too_long :
    (maximum byte : ℕ) (text bytes : List ℕ)
    → All IsPlain text
    → length text ≡ maximum
    → IsPlain byte
    → append (protocol maximum) (text ++ byte ∷ bytes)
      ≡ (holding maximum text, unexpected line_too_long)
unfolding append protocol
append-too_long maximum byte text bytes p h q =
    append_loop-plain maximum [] text (byte ∷ bytes) [] p (omega arith)
    ∙ append_loop-unexpected (holding maximum text) (holding maximum text) [] line_too_long byte
        bytes (append_byte-too_long maximum byte text q h)

-- The end of the stream hands out what is left, once, and closes the buffer: a second `finish` has
-- nothing, and `append` is refused.
pub finish-finished :
    (b : LineBuffer) (bytes : List ℕ)
    → let b' = (finish b).0 in
      (finish b' ≡ (b', value none))
      × (append b' bytes ≡ (b', unexpected finished))
      × (b.finished ≡ false → b'.current ≡ [])
unfolding finish append
finish-finished b bytes = (ground arith, ground arith, λ e. ground arith)
