-- ===== src/Interaction/Tests.antt =====
-- The editor on a text with a letter of two bytes, and the theorems at it.
use gisland.Prelude.{
  ltb, leb, is_empty, length, All, ◌≤◌, ◌≡◌, refl, true, false, ◌&&◌, ◌||◌, [], ◌∷◌, arith,
}
use gisland.Prelude.Int.{pos}
use gisland.Interaction.Utf8.{
  sequence_length, second_allowed, valid_sequence, valid_loop, valid_utf8, back_over,
  previous_codepoint, encode_utf8,
}
use gisland.Interaction.{TextInputEditor, make, replace_selection, insert, backspace}
use gisland.Interaction.Edits.{inserted, erased_word_back, moved_left, run, run-make-IsBounded}
use gisland.Interaction.Typing.{insert-backspace}
use gisland.Interaction.Gate.{
  KeyboardActivationGate, Frame, update, updates, Bounces, update-debounces,
}
use gisland.Interaction.Encoding.{encode_utf8-valid}

-- `é` is 195 169 in UTF-8.
abbrev cafe : TextInputEditor
cafe = make (99 ∷ 97 ∷ 102 ∷ 195 ∷ 169 ∷ []) 8

deletes_letter : (backspace cafe).0.value ≡ 99 ∷ 97 ∷ 102 ∷ []
unfolding make valid_utf8 valid_loop valid_sequence sequence_length second_allowed backspace
    previous_codepoint back_over
deletes_letter = refl

refuses_lone_byte : (make (195 ∷ []) 8).value ≡ []
unfolding make valid_utf8 valid_loop valid_sequence sequence_length second_allowed
refuses_lone_byte = refl

run-make-IsBounded_example :
    ((run cafe (inserted 233 ∷ erased_word_back ∷ moved_left ∷ [])).caret
      ≤ length (run cafe (inserted 233 ∷ erased_word_back ∷ moved_left ∷ [])).value)
    × (length (run cafe (inserted 233 ∷ erased_word_back ∷ moved_left ∷ [])).value ≤ 8)
run-make-IsBounded_example =
    run-make-IsBounded (99 ∷ 97 ∷ 102 ∷ 195 ∷ 169 ∷ []) 8
      (inserted 233 ∷ erased_word_back ∷ moved_left ∷ [])

insert-backspace_example : backspace (insert cafe 233).0 ≡ (cafe, true)
unfolding make valid_utf8 valid_loop valid_sequence sequence_length second_allowed insert
    encode_utf8 replace_selection
insert-backspace_example = insert-backspace cafe 233 refl (omega arith) refl

abbrev fresh_gate : KeyboardActivationGate
fresh_gate = record { armed = true; release_observed = false; released_for = 0 }

abbrev press : Frame
press = record { down = true; pressed = true; elapsed = pos 16 }

abbrev release : Frame
release = record { down = false; pressed = false; elapsed = pos 40 }

-- A bounce of the key does not activate twice, a second press does.
bounce : updates fresh_gate (press ∷ release ∷ press ∷ []) ≡ true ∷ false ∷ false ∷ []
unfolding updates update
bounce = refl

second_press :
    updates fresh_gate (press ∷ release ∷ release ∷ release ∷ release ∷ press ∷ [])
    ≡ true ∷ false ∷ false ∷ false ∷ false ∷ true ∷ []
unfolding updates update
second_press = refl

-- Two times of 80 ms, between which the key is down, do not add up to a release.
update-debounces_example :
    All
      (λ activated. activated ≡ false)
      (updates
        (update fresh_gate press).0
        (release ∷ release ∷ press ∷ release ∷ release ∷ press ∷ []))
unfolding update Bounces
update-debounces_example =
    update-debounces fresh_gate press (release ∷ release ∷ press ∷ release ∷ release ∷ press ∷ [])
      refl (omega arith)

encode_utf8-valid_example :
    (valid_utf8 (encode_utf8 8364) ≡ true)
    × (is_empty (encode_utf8 8364) ≡ (ltb 1114111 8364 || leb 55296 8364 && leb 8364 57343))
encode_utf8-valid_example = encode_utf8-valid 8364
