-- ===== src/LineBuffer/Tests.antt =====
-- Runs of the line buffers on short streams, and the theorems at concrete inputs.
use gisland.Prelude.{value, unexpected, ◌≡◌, refl, true, false, [], ◌∷◌, arith}
use gisland.LineBuffer.{
  line_too_long, LineBuffer, make, protocol, standard_error, strip_return, append_byte, append_loop,
  append,
}
use gisland.LineBuffer.Bounds.{IsBounded, SameSettings, AllFit, append-IsBounded}
use gisland.LineBuffer.Stream.{then_append, append-then_append}
use gisland.LineBuffer.Lines.{whole, holding, append-stream, append-too_long}
use gisland.LineBuffer.Truncation.{append-truncates}

abbrev small : LineBuffer
small = make 4 false true

small-protocol : protocol 4 ≡ small
unfolding protocol
small-protocol = refl

-- "ab\r\nc" leaves "c" behind and hands out "ab".
two_lines :
    append small (97 ∷ 98 ∷ 13 ∷ 10 ∷ 99 ∷ [])
    ≡ (record small { current = 99 ∷ [] }, value (whole (97 ∷ 98 ∷ []) ∷ []))
unfolding append append_loop append_byte
two_lines = refl

append-IsBounded_example :
    let (b', result) = append small (97 ∷ 98 ∷ 10 ∷ []) in
    IsBounded b' × SameSettings small b' × AllFit 4 result
append-IsBounded_example = append-IsBounded small (97 ∷ 98 ∷ 10 ∷ []) (omega arith)

append-then_append_example :
    append small (97 ∷ 98 ∷ 10 ∷ 99 ∷ []) ≡ then_append (append small (97 ∷ [])) (98 ∷ 10 ∷ 99 ∷ [])
append-then_append_example = append-then_append small (97 ∷ []) (98 ∷ 10 ∷ 99 ∷ []) refl

append-stream_example :
    append (protocol 4) (97 ∷ 98 ∷ 10 ∷ 10 ∷ [])
    ≡ (protocol 4, value (whole (97 ∷ 98 ∷ []) ∷ whole [] ∷ []))
append-stream_example = append-stream 4 ((97 ∷ 98 ∷ []) ∷ [] ∷ []) (ground arith)

append-too_long_example :
    append (protocol 1) (97 ∷ 98 ∷ 10 ∷ []) ≡ (holding 1 (97 ∷ []), unexpected line_too_long)
append-too_long_example =
    append-too_long 1 98 (97 ∷ []) (10 ∷ []) (ground arith) refl (ground arith)

append-truncates_example :
    append (standard_error 1) (97 ∷ 98 ∷ 10 ∷ [])
    ≡ (standard_error 1, value (record { text = 97 ∷ []; truncated = true } ∷ []))
unfolding strip_return
append-truncates_example = append-truncates 1 (97 ∷ 98 ∷ []) (ground arith)
