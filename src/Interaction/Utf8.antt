-- ===== src/Interaction/Utf8.antt =====
-- src/interaction.cpp: the UTF-8 of a text, as bytes. A byte is a number below 256; the masks and
-- shifts of the source are written as division and remainder by powers of two.
use gisland.Prelude.{
  ltb, leb, ◌==◌, if◌then◌else◌, length, take, drop, ℕ, zero, suc, ◌+◌, ◌-◌, ◌/◌, ◌%◌, Bool, true,
  false, not, ◌&&◌, ◌||◌, List, [], ◌∷◌,
}

-- `(byte & 0xC0) == 0x80`.
abbrev pub is_continuation : ℕ → Bool
is_continuation byte = byte / 64 == 2

-- `text[index]`, which is 0 at the end.
abbrev pub byte_at : List ℕ → ℕ → ℕ
byte_at [] index = 0
byte_at (byte ∷ bytes) zero = byte
byte_at (byte ∷ bytes) (suc index) = byte_at bytes index

-- The length of the sequence that a byte begins; 0 where it begins none.
unfoldable pub sequence_length : ℕ → ℕ
sequence_length first =
    if leb first 127
    then 1
    else if leb 194 first && leb first 223
    then 2
    else if leb 224 first && leb first 239
    then 3
    else if leb 240 first && leb first 244
    then 4
    else 0

abbrev pub all_continuations : List ℕ → Bool
all_continuations [] = true
all_continuations (byte ∷ bytes) = is_continuation byte && all_continuations bytes

-- The checks on the second byte, which refuse what is too long, surrogates and what is too large.
unfoldable pub second_allowed : ℕ → ℕ → ℕ → Bool
second_allowed size first second =
    if size == 3
    then not (first == 224 && ltb second 160 || first == 237 && leb 160 second)
    else if size == 4
    then not (first == 240 && ltb second 144 || first == 244 && ltb 143 second)
    else true

-- One round of the loop, at a byte and the bytes after it.
unfoldable pub valid_sequence : ℕ → List ℕ → Bool
unfolding sequence_length second_allowed
valid_sequence first rest =
    let size = sequence_length first in
    ltb 0 size
    && leb size (suc (length rest))
    && all_continuations (take (size - 1) rest)
    && second_allowed size first (byte_at rest 0)

-- A sequence has at least one byte, so that the number of bytes is fuel enough.
unfoldable pub valid_loop : ℕ → List ℕ → Bool
unfolding valid_sequence
valid_loop fuel [] = true
valid_loop zero (first ∷ rest) = false
valid_loop (suc fuel) (first ∷ rest) =
    let valid = valid_loop fuel (drop (sequence_length first - 1) rest) in
    valid_sequence first rest && valid

unfoldable pub valid_utf8 : List ℕ → Bool
valid_utf8 text = valid_loop (length text) text

unfoldable pub back_over : List ℕ → ℕ → ℕ
back_over text zero = zero
back_over text (suc previous) =
    let before = back_over text previous in
    if is_continuation (byte_at text (suc previous)) then before else suc previous

unfoldable pub previous_codepoint : List ℕ → ℕ → ℕ
unfolding back_over
previous_codepoint text zero = 0
previous_codepoint text (suc caret) = back_over text caret

-- The fuel is the number of bytes from `next` on.
unfoldable pub forward_over : ℕ → List ℕ → ℕ → ℕ
forward_over zero text next = next
forward_over (suc fuel) text next =
    let after = forward_over fuel text (next + 1) in
    if ltb next (length text) && is_continuation (byte_at text next) then after else next

unfoldable pub next_codepoint : List ℕ → ℕ → ℕ
unfolding forward_over
next_codepoint text caret =
    if leb (length text) caret
    then length text
    else forward_over (length text - (caret + 1)) text (caret + 1)

unfoldable pub word_codepoint : List ℕ → ℕ → Bool
word_codepoint text offset =
    let first = byte_at text offset in
    leb 128 first
    || leb 48 first && leb first 57
    || leb 65 first && leb first 90
    || leb 97 first && leb first 122
    || first == 95

-- The loops of `previous_word`: back while the code point before passes a test. A
-- code point has a byte, so that the position is fuel enough.
unfoldable pub back_while : (ℕ → Bool) → ℕ → List ℕ → ℕ → ℕ
back_while test zero text position = position
back_while test (suc fuel) text position =
    let previous = previous_codepoint text position in
    let rest = back_while test fuel text previous in
    if ltb 0 position && test previous then rest else position

unfoldable pub previous_word : List ℕ → ℕ → ℕ
unfolding back_while
previous_word text caret =
    let position = back_while (λ i. not (word_codepoint text i)) caret text caret in
    back_while (word_codepoint text) position text position

-- The loops of `next_word`, with the number of bytes from the position on as fuel.
unfoldable pub forward_while : (ℕ → Bool) → ℕ → List ℕ → ℕ → ℕ
forward_while test zero text position = position
forward_while test (suc fuel) text position =
    let rest = forward_while test fuel text (next_codepoint text position) in
    if ltb position (length text) && test position then rest else position

unfoldable pub next_word : List ℕ → ℕ → ℕ
unfolding forward_while
next_word text caret =
    let position = forward_while (word_codepoint text) (length text - caret) text caret in
    forward_while (λ i. not (word_codepoint text i)) (length text - position) text position

unfoldable pub encode_utf8 : ℕ → List ℕ
encode_utf8 codepoint =
    if leb codepoint 127
    then codepoint ∷ []
    else if leb codepoint 2047
    then (192 + codepoint / 64) ∷ (128 + codepoint % 64) ∷ []
    else if leb codepoint 65535 && not (leb 55296 codepoint && leb codepoint 57343)
    then (224 + codepoint / 4096) ∷ (128 + codepoint / 64 % 64) ∷ (128 + codepoint % 64) ∷ []
    else if leb 65536 codepoint && leb codepoint 1114111
    then (240 + codepoint / 262144)
      ∷ (128 + codepoint / 4096 % 64)
      ∷ (128 + codepoint / 64 % 64)
      ∷ (128 + codepoint % 64)
      ∷ []
    else []
