-- ===== src/Interaction/Typing.antt =====
-- What is typed can be taken back.
use gisland.Prelude.{
  leb, if◌then◌else◌, Bool-cases, is_empty, length, length-append, take, drop, take-append-drop, ℕ,
  zero, suc, ◌+◌, ◌-◌, ◌≤◌, ◌<◌, ◌≡◌, refl, sym, ap, ◌∙◌, subst, ◌⊎◌, inl, inr, true, false, not,
  ◌&&◌, List, [], ◌∷◌, ◌++◌, arith,
}
use gisland.Interaction.Utf8.{
  is_continuation, byte_at, all_continuations, back_over, previous_codepoint, encode_utf8,
}
use gisland.Interaction.{TextInputEditor, insert_at, erase_at, replace_selection, insert, backspace}
use gisland.Interaction.Edits.{length-take}
use mathlib.Core.List.{append_assoc}
use native.Mathlib.Nat.{suc-add}

byte_at-append :
    (xs ys : List ℕ) (index : ℕ) → byte_at (xs ++ ys) (length xs + index) ≡ byte_at ys index
byte_at-append [] ys index = ground arith
byte_at-append (x ∷ xs) ys index = simp (suc-add (length xs) index) (byte_at-append xs ys index)

continuation-byte_at :
    (conts rest : List ℕ) (index : ℕ)
    → all_continuations conts ≡ true
    → index < length conts
    → is_continuation (byte_at (conts ++ rest) index) ≡ true
continuation-byte_at [] rest index h k = ground arith
continuation-byte_at (c ∷ cs) rest zero h k = ground (arith, h)
continuation-byte_at (c ∷ cs) rest (suc index) h k =
    continuation-byte_at cs rest index (ground (arith, h)) (omega arith)

-- The walk back over continuation bytes ends at the byte that is none.
back_over-lead :
    (text : List ℕ) (start k position : ℕ)
    → position ≡ start + k
    → is_continuation (byte_at text start) ≡ false
    → ((j : ℕ) → j < k → is_continuation (byte_at text (start + suc j)) ≡ true)
    → back_over text position ≡ start
unfolding back_over
back_over-lead text start k zero e l h = omega (arith, e)
back_over-lead text start zero (suc q) e l h =
    let same : suc q ≡ start = omega (arith, e) in
    rw (subst (λ i. is_continuation (byte_at text i) ≡ false) (sym same) l) same
back_over-lead text start (suc k) (suc q) e l h =
    rw (subst (λ i. is_continuation (byte_at text i) ≡ true) (sym e) (h k (omega arith)))
      (back_over-lead text start k q (omega (arith, e)) l (λ j b. h j (omega arith)))

previous_codepoint-typed :
    (pre conts rest : List ℕ) (lead : ℕ)
    → is_continuation lead ≡ false
    → all_continuations conts ≡ true
    → previous_codepoint (pre ++ (lead ∷ conts) ++ rest) (length pre + suc (length conts))
      ≡ length pre
unfolding previous_codepoint
previous_codepoint-typed pre conts rest lead l h =
    ap (previous_codepoint text) caret
    ∙ back_over-lead text (length pre) (length conts) (length pre + length conts) refl
        (ap is_continuation (at_byte 0 (length pre) (omega arith)) ∙ l)
        (λ j b.
          ap is_continuation (at_byte (suc j) (length pre + suc j) refl)
          ∙ continuation-byte_at conts rest j h b)
  where
    text : List ℕ
    text = pre ++ (lead ∷ conts) ++ rest

    caret : length pre + suc (length conts) ≡ suc (length pre + length conts)
    caret = omega arith

    at_byte :
        (index position : ℕ)
        → position ≡ length pre + index
        → byte_at text position ≡ byte_at (lead ∷ (conts ++ rest)) index
    at_byte index position e =
        ap (byte_at text) e
        ∙ ap (λ t. byte_at t (length pre + index)) (append_assoc pre (lead ∷ conts) rest)
        ∙ byte_at-append pre (lead ∷ (conts ++ rest)) index

encode_utf8-shape :
    (codepoint : ℕ)
    → (encode_utf8 codepoint ≡ [])
      ⊎ ((lead : ℕ) × (conts : List ℕ) × (encode_utf8 codepoint ≡ lead ∷ conts)
          × (is_continuation lead ≡ false)
          × (all_continuations conts ≡ true))
unfolding encode_utf8
encode_utf8-shape codepoint = elim (Bool-cases (leb codepoint 127)) [
  | inl a ↦ rw a (inr (codepoint, [], refl, ground (arith, a), refl))
  | inr a ↦ elim (Bool-cases (leb codepoint 2047)) [
    | inl b ↦ rw (a, b) (inr (_, _, refl, ground (arith, b), ground arith))
    | inr b ↦
        elim (Bool-cases
          (leb codepoint 65535 && not (leb 55296 codepoint && leb codepoint 57343))) [
            | inl c ↦ rw (a, b, c) (inr (_, _, refl, ground (arith, c), ground arith))
            | inr c ↦ elim (Bool-cases (leb 65536 codepoint && leb codepoint 1114111)) [
              | inl d ↦ rw (a, b, c, d) (inr (_, _, refl, ground (arith, d), ground arith))
              | inr d ↦ rw (a, b, c, d) (inl refl)
            ]
          ]
  ]
]

take-prefix : (n : ℕ) (xs ys : List ℕ) → n ≡ length xs → take n (xs ++ ys) ≡ xs
take-prefix zero [] ys e = refl
take-prefix zero (x ∷ xs) ys e = absurd (omega (arith, e))
take-prefix (suc n) [] ys e = absurd (omega (arith, e))
take-prefix (suc n) (x ∷ xs) ys e = ap (λ l. x ∷ l) (take-prefix n xs ys (omega (arith, e)))

drop-prefix : (n : ℕ) (xs ys : List ℕ) → n ≡ length xs → drop n (xs ++ ys) ≡ ys
drop-prefix zero [] ys e = refl
drop-prefix zero (x ∷ xs) ys e = absurd (omega (arith, e))
drop-prefix (suc n) [] ys e = absurd (omega (arith, e))
drop-prefix (suc n) (x ∷ xs) ys e = drop-prefix n xs ys (omega (arith, e))

-- What was put between two parts is what is erased there.
erase_at-typed :
    (position : ℕ) (pre bytes rest : List ℕ)
    → position ≡ length pre
    → erase_at position (position + length bytes - position) (pre ++ bytes ++ rest) ≡ pre ++ rest
erase_at-typed position pre bytes rest e =
    ap (λ l. l ++ drop (position + (position + length bytes - position)) (pre ++ bytes ++ rest))
      (ap (take position) (append_assoc pre bytes rest)
        ∙ take-prefix position pre (bytes ++ rest) e)
    ∙ ap (λ l. pre ++ l)
        (drop-prefix (position + (position + length bytes - position)) (pre ++ bytes) rest
          (omega (arith, e, length-append pre bytes)))

typed : TextInputEditor → List ℕ → TextInputEditor
typed e bytes = record e { value = insert_at e.caret bytes e.value; caret = e.caret + length bytes }

replace_selection-typed :
    (e : TextInputEditor) (bytes : List ℕ)
    → e.all_selected ≡ false
    → (replace_selection e bytes).1 ≡ true
    → (replace_selection e bytes).0 ≡ typed e bytes
unfolding replace_selection typed
replace_selection-typed e bytes a ok = ground (arith, a, ok)

-- A deletion of the bytes from a position to the caret.
backspace-erase_at :
    (e : TextInputEditor) (previous : ℕ) (rest : List ℕ)
    → e.all_selected ≡ false
    → previous_codepoint e.value e.caret ≡ previous
    → previous < e.caret
    → erase_at previous (e.caret - previous) e.value ≡ rest
    → backspace e ≡ (record e { value = rest; caret = previous }, true)
unfolding backspace
backspace-erase_at e previous rest a p h r = ground (arith, a, p, h, r)

backspace-typed :
    (e : TextInputEditor) (lead : ℕ) (conts : List ℕ)
    → e.all_selected ≡ false
    → e.caret ≤ length e.value
    → is_continuation lead ≡ false
    → all_continuations conts ≡ true
    → backspace (typed e (lead ∷ conts)) ≡ (e, true)
unfolding typed
backspace-typed e lead conts a h l k =
    backspace-erase_at (typed e (lead ∷ conts)) e.caret e.value a
      (ap (λ n. previous_codepoint text (n + suc (length conts))) start
        ∙ previous_codepoint-typed pre conts rest lead l k
        ∙ sym start)
      (omega arith)
      (erase_at-typed e.caret pre (lead ∷ conts) rest start ∙ take-append-drop e.caret e.value)
  where
    pre : List ℕ
    pre = take e.caret e.value

    rest : List ℕ
    rest = drop e.caret e.value

    text : List ℕ
    text = pre ++ (lead ∷ conts) ++ rest

    start : e.caret ≡ length pre
    start = sym (length-take e.caret e.value h)

-- A code point that was typed is what `backspace` deletes: the text and the caret are as before.
-- Nothing is selected, and the caret is in the text.
pub insert-backspace :
    (e : TextInputEditor) (codepoint : ℕ)
    → e.all_selected ≡ false
    → e.caret ≤ length e.value
    → (insert e codepoint).1 ≡ true
    → backspace (insert e codepoint).0 ≡ (e, true)
unfolding insert
insert-backspace e codepoint a h ok =
    by_shape (encode_utf8 codepoint) (encode_utf8-shape codepoint) ok
  where
    by_shape :
        (bytes : List ℕ)
        → (bytes ≡ [])
          ⊎ ((lead : ℕ) × (conts : List ℕ) × (bytes ≡ lead ∷ conts)
              × (is_continuation lead ≡ false)
              × (all_continuations conts ≡ true))
        → (if is_empty bytes then (e, false) else replace_selection e bytes).1 ≡ true
        → backspace (if is_empty bytes then (e, false) else replace_selection e bytes).0 ≡ (e, true)
    by_shape [] shape t = cc
    by_shape (x ∷ xs) (inl p) t = cc
    by_shape (x ∷ xs) (inr (lead, conts, p, l, k)) t =
        ap backspace (replace_selection-typed e (x ∷ xs) a t ∙ ap (typed e) p)
        ∙ backspace-typed e lead conts a h l k
