-- ===== src/Interaction.antt =====
-- src/interaction.cpp and include/gisland/interaction.hpp: `TextInputEditor`, the editor of a line
-- of text. The caret is an offset in bytes.
-- The text is far shorter than 2 ^ 64 bytes, so that no sum of sizes wraps around.
-- `Gate` has `KeyboardActivationGate`. The pointer and the keyboard navigation are not modelled.
pub mod Utf8
pub mod Bounds
pub mod Edits
pub mod Typing
pub mod Gate
pub mod Encoding
mod Tests
use gisland.Prelude.{
  ltb, leb, ◌==◌, if◌then◌else◌, is_empty, length, take, drop, value, ℕ, ◌+◌, ◌-◌, Bool, true,
  false, not, ◌&&◌, List, [], ◌++◌,
}
use gisland.Interaction.Utf8.{
  valid_utf8, previous_codepoint, next_codepoint, previous_word, next_word, encode_utf8,
}

pub record TextInputEditor : Type 0 where
  pub value : List ℕ
  pub caret : ℕ
  pub maximum_bytes : ℕ
  pub all_selected : Bool

-- `std::string::insert`, and `std::string::erase` with a position and a count.
abbrev pub insert_at : ℕ → List ℕ → List ℕ → List ℕ
insert_at position inserted text = take position text ++ inserted ++ drop position text

abbrev pub erase_at : ℕ → ℕ → List ℕ → List ℕ
erase_at position count text = take position text ++ drop (position + count) text

-- The constructor: an initial value that is not valid or too long is dropped.
unfoldable pub make : List ℕ → ℕ → TextInputEditor
make initial_value maximum_bytes =
    let value =
      if valid_utf8 initial_value && leb (length initial_value) maximum_bytes
      then initial_value
      else [] in
    record {
      value = value;
      caret = length value;
      maximum_bytes = maximum_bytes;
      all_selected = false;
    }

unfoldable pub replace_selection : TextInputEditor → List ℕ → TextInputEditor × Bool
replace_selection e utf8 =
    if not (valid_utf8 utf8)
    then (e, false)
    else if ltb e.maximum_bytes ((if e.all_selected then 0 else length e.value) + length utf8)
    then (e, false)
    else if e.all_selected
    then (record e { value = utf8; caret = length utf8; all_selected = false }, true)
    else (
      record e { value = insert_at e.caret utf8 e.value; caret = e.caret + length utf8 },
      not (is_empty utf8),
    )

unfoldable pub insert : TextInputEditor → ℕ → TextInputEditor × Bool
unfolding replace_selection
insert e codepoint =
    let encoded = encode_utf8 codepoint in
    if is_empty encoded then (e, false) else replace_selection e encoded

unfoldable pub paste : TextInputEditor → List ℕ → TextInputEditor × Bool
unfolding replace_selection
paste e utf8 = replace_selection e utf8

-- Erases the bytes from one position to the caret, or from the caret to one position.
abbrev pub erase_back : TextInputEditor → ℕ → TextInputEditor × Bool
erase_back e previous = if previous == e.caret then (e, false) else (
  record e { value = erase_at previous (e.caret - previous) e.value; caret = previous },
  true,
)

abbrev pub erase_forward : TextInputEditor → ℕ → TextInputEditor × Bool
erase_forward e next =
    if next == e.caret
    then (e, false)
    else (record e { value = erase_at e.caret (next - e.caret) e.value }, true)

-- What every deletion does where all is selected.
abbrev pub clear : TextInputEditor → TextInputEditor × Bool
clear e = (record e { value = []; caret = 0; all_selected = false }, not (is_empty e.value))

unfoldable pub backspace : TextInputEditor → TextInputEditor × Bool
backspace e = if e.all_selected then clear e else erase_back e (previous_codepoint e.value e.caret)

unfoldable pub delete_forward : TextInputEditor → TextInputEditor × Bool
delete_forward e =
    if e.all_selected then clear e else erase_forward e (next_codepoint e.value e.caret)

unfoldable pub delete_word_backward : TextInputEditor → TextInputEditor × Bool
delete_word_backward e =
    if e.all_selected then clear e else erase_back e (previous_word e.value e.caret)

unfoldable pub delete_word_forward : TextInputEditor → TextInputEditor × Bool
delete_word_forward e =
    if e.all_selected then clear e else erase_forward e (next_word e.value e.caret)

unfoldable pub delete_to_start : TextInputEditor → TextInputEditor × Bool
delete_to_start e = if e.all_selected then clear e else erase_back e 0

unfoldable pub delete_to_end : TextInputEditor → TextInputEditor × Bool
delete_to_end e = if e.all_selected then clear e else erase_forward e (length e.value)

-- The movements, and what `home`, `end` and `select_all` do.
abbrev pub move_to : TextInputEditor → ℕ → TextInputEditor
move_to e caret = record e { caret = caret; all_selected = false }

unfoldable pub move_left : TextInputEditor → TextInputEditor
move_left e = move_to e (previous_codepoint e.value e.caret)

unfoldable pub move_right : TextInputEditor → TextInputEditor
move_right e = move_to e (next_codepoint e.value e.caret)

unfoldable pub move_word_left : TextInputEditor → TextInputEditor
move_word_left e = move_to e (previous_word e.value e.caret)

unfoldable pub move_word_right : TextInputEditor → TextInputEditor
move_word_right e = move_to e (next_word e.value e.caret)

unfoldable pub home : TextInputEditor → TextInputEditor
home e = move_to e 0

unfoldable pub end : TextInputEditor → TextInputEditor
end e = move_to e (length e.value)

unfoldable pub select_all : TextInputEditor → TextInputEditor
select_all e = record e { caret = length e.value; all_selected = true }
