-- ===== src/Interaction/Edits.antt =====
-- The calls of the editor, and what they keep.
use gisland.Prelude.{
  if◌then◌else◌, length, length-append, take, drop, length-drop, ℕ, zero, suc, ◌+◌, ◌-◌, ◌≤◌, ◌≡◌,
  refl, ◌∙◌, List, [], ◌∷◌, ◌++◌, arith,
}
use gisland.Interaction.Utf8.{encode_utf8}
use gisland.Interaction.Bounds.{
  previous_codepoint-bound, next_codepoint-bound, previous_word-bound, next_word-bound,
}
use gisland.Interaction.{
  TextInputEditor, insert_at, erase_at, make, replace_selection, insert, paste, erase_back,
  erase_forward, clear, backspace, delete_forward, delete_word_backward, delete_word_forward,
  delete_to_start, delete_to_end, move_left, move_right, move_word_left, move_word_right, home, end,
  select_all,
}

pub data Edit : Type 0 where
  inserted : ℕ → Edit
  pasted : List ℕ → Edit
  erased_back erased_forward erased_word_back erased_word_forward : Edit
  erased_to_start erased_to_end : Edit
  moved_left moved_right moved_word_left moved_word_right : Edit
  moved_home moved_end selected : Edit

unfoldable pub perform : TextInputEditor → Edit → TextInputEditor
perform e (inserted codepoint) = (insert e codepoint).0
perform e (pasted utf8) = (paste e utf8).0
perform e erased_back = (backspace e).0
perform e erased_forward = (delete_forward e).0
perform e erased_word_back = (delete_word_backward e).0
perform e erased_word_forward = (delete_word_forward e).0
perform e erased_to_start = (delete_to_start e).0
perform e erased_to_end = (delete_to_end e).0
perform e moved_left = move_left e
perform e moved_right = move_right e
perform e moved_word_left = move_word_left e
perform e moved_word_right = move_word_right e
perform e moved_home = home e
perform e moved_end = end e
perform e selected = select_all e

unfoldable pub run : TextInputEditor → List Edit → TextInputEditor
unfolding perform
run e [] = e
run e (edit ∷ edits) = run (perform e edit) edits

-- The caret is in the text, and the text is no longer than the maximum.
abbrev pub IsBounded : TextInputEditor → Type 0
IsBounded e = (e.caret ≤ length e.value) × (length e.value ≤ e.maximum_bytes)

pub length-take : (n : ℕ) (text : List ℕ) → n ≤ length text → length (take n text) ≡ n
length-take zero text h = refl
length-take (suc n) [] h = omega arith
length-take (suc n) (x ∷ xs) h = omega (arith, length-take n xs (omega arith))

length-insert_at :
    (position : ℕ) (bytes text : List ℕ)
    → position ≤ length text
    → length (insert_at position bytes text) ≡ length text + length bytes
length-insert_at position bytes text h = omega (
  arith,
  length-append (take position text ++ bytes) (drop position text),
  length-append (take position text) bytes,
  length-take position text h,
  length-drop position text,
)

length-erase_at :
    (position count : ℕ) (text : List ℕ)
    → position + count ≤ length text
    → length (erase_at position count text) ≡ length text - count
length-erase_at position count text h = omega (
  arith,
  length-append (take position text) (drop (position + count) text),
  length-take position text (omega arith),
  length-drop (position + count) text,
)

replace_selection-IsBounded :
    (e : TextInputEditor) (utf8 : List ℕ) → IsBounded e → IsBounded (replace_selection e utf8).0
unfolding replace_selection
replace_selection-IsBounded e utf8 (h, k) = ground (arith, length-insert_at e.caret utf8 e.value h)

erase_back-IsBounded :
    (e : TextInputEditor) (previous : ℕ)
    → previous ≤ e.caret
    → IsBounded e
    → IsBounded (if e.all_selected then clear e else erase_back e previous).0
erase_back-IsBounded e previous p (h, k) =
    ground (arith, length-erase_at previous (e.caret - previous) e.value (omega arith))

erase_forward-IsBounded :
    (e : TextInputEditor) (next : ℕ)
    → (e.caret ≤ next) × (next ≤ length e.value)
    → IsBounded e
    → IsBounded (if e.all_selected then clear e else erase_forward e next).0
erase_forward-IsBounded e next (p, q) (h, k) =
    ground (arith, length-erase_at e.caret (next - e.caret) e.value (omega arith))

perform-IsBounded : (e : TextInputEditor) (edit : Edit) → IsBounded e → IsBounded (perform e edit)
unfolding perform
perform-IsBounded e (inserted codepoint) h =
    unfold insert in ground (arith, replace_selection-IsBounded e (encode_utf8 codepoint) h)
perform-IsBounded e (pasted utf8) h = unfold paste in replace_selection-IsBounded e utf8 h
perform-IsBounded e erased_back h =
    unfold backspace in erase_back-IsBounded e _ (previous_codepoint-bound e.value e.caret) h
perform-IsBounded e erased_forward h =
    unfold delete_forward in
    erase_forward-IsBounded e _ (next_codepoint-bound e.value e.caret h.0) h
perform-IsBounded e erased_word_back h =
    unfold delete_word_backward in erase_back-IsBounded e _ (previous_word-bound e.value e.caret) h
perform-IsBounded e erased_word_forward h =
    unfold delete_word_forward in
    erase_forward-IsBounded e _ (next_word-bound e.value e.caret h.0) h
perform-IsBounded e erased_to_start h =
    unfold delete_to_start in erase_back-IsBounded e 0 (omega arith) h
perform-IsBounded e erased_to_end h =
    unfold delete_to_end in erase_forward-IsBounded e _ (h.0, omega arith) h
perform-IsBounded e moved_left h =
    unfold move_left in (omega (arith, previous_codepoint-bound e.value e.caret, h), h.1)
perform-IsBounded e moved_right h =
    unfold move_right in ((next_codepoint-bound e.value e.caret h.0).1, h.1)
perform-IsBounded e moved_word_left h =
    unfold move_word_left in (omega (arith, previous_word-bound e.value e.caret, h), h.1)
perform-IsBounded e moved_word_right h =
    unfold move_word_right in ((next_word-bound e.value e.caret h.0).1, h.1)
perform-IsBounded e moved_home h = unfold home in (omega arith, h.1)
perform-IsBounded e moved_end h = unfold end in (omega arith, h.1)
perform-IsBounded e selected h = unfold select_all in (omega arith, h.1)

make-IsBounded :
    (initial_value : List ℕ) (maximum_bytes : ℕ) → IsBounded (make initial_value maximum_bytes)
unfolding make
make-IsBounded initial_value maximum_bytes = ground arith

run-IsBounded : (e : TextInputEditor) (edits : List Edit) → IsBounded e → IsBounded (run e edits)
unfolding run
run-IsBounded e [] h = h
run-IsBounded e (edit ∷ edits) h = run-IsBounded (perform e edit) edits (perform-IsBounded e edit h)

perform-maximum_bytes :
    (e : TextInputEditor) (edit : Edit) → (perform e edit).maximum_bytes ≡ e.maximum_bytes
unfolding perform insert paste replace_selection backspace delete_forward delete_word_backward
    delete_word_forward delete_to_start delete_to_end move_left move_right move_word_left
    move_word_right home end select_all
perform-maximum_bytes e (inserted codepoint) = ground arith
perform-maximum_bytes e (pasted utf8) = ground arith
perform-maximum_bytes e erased_back = ground arith
perform-maximum_bytes e erased_forward = ground arith
perform-maximum_bytes e erased_word_back = ground arith
perform-maximum_bytes e erased_word_forward = ground arith
perform-maximum_bytes e erased_to_start = ground arith
perform-maximum_bytes e erased_to_end = ground arith
perform-maximum_bytes e moved_left = refl
perform-maximum_bytes e moved_right = refl
perform-maximum_bytes e moved_word_left = refl
perform-maximum_bytes e moved_word_right = refl
perform-maximum_bytes e moved_home = refl
perform-maximum_bytes e moved_end = refl
perform-maximum_bytes e selected = refl

run-maximum_bytes :
    (e : TextInputEditor) (edits : List Edit) → (run e edits).maximum_bytes ≡ e.maximum_bytes
unfolding run
run-maximum_bytes e [] = refl
run-maximum_bytes e (edit ∷ edits) =
    run-maximum_bytes (perform e edit) edits ∙ perform-maximum_bytes e edit

make-maximum_bytes :
    (initial_value : List ℕ) (maximum_bytes : ℕ)
    → (make initial_value maximum_bytes).maximum_bytes ≡ maximum_bytes
unfolding make
make-maximum_bytes initial_value maximum_bytes = refl

-- Whatever an editor is made with, and whatever is typed, pasted, deleted, moved and selected, the
-- caret stays in the text, and the text stays within the maximum that the editor was made with.
pub run-make-IsBounded :
    (initial_value : List ℕ) (maximum_bytes : ℕ) (edits : List Edit)
    → let e = run (make initial_value maximum_bytes) edits in
      (e.caret ≤ length e.value) × (length e.value ≤ maximum_bytes)
run-make-IsBounded initial_value maximum_bytes edits =
    let (h, k) =
      run-IsBounded (make initial_value maximum_bytes) edits
        (make-IsBounded initial_value maximum_bytes) in
    (
      h,
      omega (
        arith,
        k,
        run-maximum_bytes (make initial_value maximum_bytes) edits,
        make-maximum_bytes initial_value maximum_bytes,
      ),
    )
