-- ===== src/WriteQueue/Records.antt =====
-- What a valid record is: what the reader of a stream takes as one plain line.
use gisland.Prelude.{
  Option-cases, is_empty, length, length-append, take, get_last?, All, value, ℕ, zero, suc, ◌+◌,
  ◌-◌, ◌≤◌, ◌<◌, ◌≡◌, refl, ap, ◌∙◌, ◌↔◌, true, not, ◌&&◌, none, some, List, [], ◌∷◌, ◌++◌, arith,
}
use gisland.WriteQueue.{WriteQueue, find, is_byte, valid_record, push}
use gisland.WriteQueue.Contents.{IsValid, contents, push_iff}
use gisland.LineBuffer.Lines.{IsPlain}

-- The text of a record, up to its newline.
abbrev pub text_of : List ℕ → List ℕ
text_of bytes = take (length bytes - 1) bytes

find-text :
    (n : ℕ) (bytes : List ℕ)
    → find 10 bytes ≡ some n
    → length bytes ≡ suc n
    → find 0 bytes ≡ none
    → (bytes ≡ take n bytes ++ 10 ∷ []) × All IsPlain (take n bytes)
find-text n [] f h z = cc
find-text zero (x ∷ []) f h z = (ground arith, tt)
find-text zero (x ∷ y ∷ bytes) f h z = absurd (omega arith)
find-text (suc n) (x ∷ bytes) f h z =
    let rest =
      find-text n bytes (ground (arith, Option-cases (find 10 bytes))) (omega arith)
        (ground (arith, Option-cases (find 0 bytes))) in
    (ap (λ t. x ∷ t) rest.0, ((ground arith, ground arith), rest.1))

valid_record-find :
    (bytes : List ℕ)
    → valid_record bytes ≡ true
    → (find 10 bytes ≡ some (length bytes - 1)) × (find 0 bytes ≡ none) × (0 < length bytes)
unfolding valid_record
valid_record-find [] h = cc
valid_record-find (x ∷ bytes) h = (ground arith, ground arith, omega arith)

find-plain :
    (text : List ℕ)
    → All IsPlain text
    → (find 10 (text ++ 10 ∷ []) ≡ some (length text))
      × (find 0 (text ++ 10 ∷ []) ≡ none)
      × (get_last? (text ++ 10 ∷ []) ≡ some 10)
find-plain [] p = (refl, refl, refl)
find-plain (x ∷ []) p = (ground arith, ground arith, refl)
find-plain (x ∷ y ∷ text) p =
    let rest = find-plain (y ∷ text) p.1 in (ground (arith, rest), ground (arith, rest), rest.2)

valid_record-plain : (text : List ℕ) → All IsPlain text → valid_record (text ++ 10 ∷ []) ≡ true
unfolding valid_record
valid_record-plain text p =
    let found = find-plain text p in
    let size : length (text ++ 10 ∷ []) - 1 ≡ length text =
      omega (arith, length-append text (10 ∷ [])) in
    rw (found.0, found.1, found.2, size) (nonempty text)
  where
    nonempty :
        (xs : List ℕ)
        → not (is_empty (xs ++ 10 ∷ []))
            && true
            && is_byte (length text) (some (length text))
            && true
          ≡ true
    nonempty [] = ground arith
    nonempty (x ∷ xs) = ground arith

-- The queue takes for valid exactly the records that are one text with no newline and no NUL,
-- and a newline after it.
pub valid_record_iff :
    (bytes : List ℕ)
    → (valid_record bytes ≡ true) ↔ ((text : List ℕ) × (bytes ≡ text ++ 10 ∷ []) × All IsPlain text)
valid_record_iff bytes = (there, back)
  where
    there :
        valid_record bytes ≡ true → (text : List ℕ) × (bytes ≡ text ++ 10 ∷ []) × All IsPlain text
    there h =
        let (newline_last, no_nul, some_bytes) = valid_record-find bytes h in
        let found = find-text (length bytes - 1) bytes newline_last (omega arith) no_nul in
        (text_of bytes, found.0, found.1)

    back :
        (text : List ℕ) × (bytes ≡ text ++ 10 ∷ []) × All IsPlain text → valid_record bytes ≡ true
    back (text, e, p) = ap valid_record e ∙ valid_record-plain text p

-- A record is taken exactly when it is one text with no newline and no NUL and a newline after it,
-- there is room for one more record, and its bytes fit beside those that wait.
pub push-taken_iff :
    (q : WriteQueue) (bytes : List ℕ)
    → IsValid q
    → ((push q bytes).1 ≡ value tt) ↔ (
        ((text : List ℕ) × (bytes ≡ text ++ 10 ∷ []) × All IsPlain text)
        × (length q.records < q.maximum_messages)
        × (length (contents q) + length bytes ≤ q.maximum_bytes))
push-taken_iff q bytes v = (
  λ taken.
      let (line, room, fits) = (push_iff q bytes v).0 taken in
      ((valid_record_iff bytes).0 line, room, fits),
  λ (line, room, fits). (push_iff q bytes v).1 ((valid_record_iff bytes).1 line, room, fits),
)
