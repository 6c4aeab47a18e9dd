-- ===== src/Interaction/Bounds.antt =====
-- Where the caret may stand, and how long the text may be.
use gisland.Prelude.{
  ltb, leb, Bool-cases, length, ℕ, zero, suc, ◌+◌, ◌-◌, ◌≤◌, inl, inr, Bool, not, ◌&&◌, List, arith,
}
use gisland.Interaction.Utf8.{
  is_continuation, byte_at, back_over, previous_codepoint, forward_over, next_codepoint,
  word_codepoint, back_while, previous_word, forward_while, next_word,
}

pub back_over-bound : (text : List ℕ) (previous : ℕ) → back_over text previous ≤ previous
unfolding back_over
back_over-bound text zero = omega arith
back_over-bound text (suc previous) = ground (arith, back_over-bound text previous)

pub previous_codepoint-bound : (text : List ℕ) (caret : ℕ) → previous_codepoint text caret ≤ caret
unfolding previous_codepoint
previous_codepoint-bound text zero = omega arith
previous_codepoint-bound text (suc caret) = omega (arith, back_over-bound text caret)

forward_over-bound :
    (fuel : ℕ) (text : List ℕ) (next : ℕ)
    → next ≤ length text
    → (next ≤ forward_over fuel text next) × (forward_over fuel text next ≤ length text)
unfolding forward_over
forward_over-bound zero text next h = (omega arith, h)
forward_over-bound (suc fuel) text next h =
    elim (Bool-cases (ltb next (length text) && is_continuation (byte_at text next))) [
      | inl e ↦
          let (low, high) = forward_over-bound fuel text (next + 1) (ground (arith, e)) in
          rw e (omega (arith, low), high)
      | inr e ↦ rw e (omega arith, h)
    ]

-- For a caret in the text, the next code point is not before it and is in the text.
pub next_codepoint-bound :
    (text : List ℕ) (caret : ℕ)
    → caret ≤ length text
    → (caret ≤ next_codepoint text caret) × (next_codepoint text caret ≤ length text)
unfolding next_codepoint
next_codepoint-bound text caret h = elim (Bool-cases (leb (length text) caret)) [
  | inl e ↦ rw e (h, omega arith)
  | inr e ↦
      let (low, high) =
        forward_over-bound (length text - (caret + 1)) text (caret + 1) (ground (arith, e)) in
      rw e (omega (arith, low), high)
]

back_while-bound :
    (test : ℕ → Bool) (fuel : ℕ) (text : List ℕ) (position : ℕ)
    → back_while test fuel text position ≤ position
unfolding back_while
back_while-bound test zero text position = omega arith
back_while-bound test (suc fuel) text position = ground (
  arith,
  back_while-bound test fuel text (previous_codepoint text position),
  previous_codepoint-bound text position,
)

pub previous_word-bound : (text : List ℕ) (caret : ℕ) → previous_word text caret ≤ caret
unfolding previous_word
previous_word-bound text caret = omega (
  arith,
  back_while-bound (λ i. not (word_codepoint text i)) caret text caret,
  back_while-bound (word_codepoint text)
      (back_while (λ i. not (word_codepoint text i)) caret text caret) text
      (back_while (λ i. not (word_codepoint text i)) caret text caret),
)

forward_while-bound :
    (test : ℕ → Bool) (fuel : ℕ) (text : List ℕ) (position : ℕ)
    → position ≤ length text
    → (position ≤ forward_while test fuel text position)
      × (forward_while test fuel text position ≤ length text)
unfolding forward_while
forward_while-bound test zero text position h = (omega arith, h)
forward_while-bound test (suc fuel) text position h =
    let (low, high) = next_codepoint-bound text position h in
    let (above, below) = forward_while-bound test fuel text (next_codepoint text position) high in
    elim (Bool-cases (ltb position (length text) && test position)) [
      | inl e ↦ rw e (omega (arith, low, above), below)
      | inr e ↦ rw e (omega arith, h)
    ]

pub next_word-bound :
    (text : List ℕ) (caret : ℕ)
    → caret ≤ length text
    → (caret ≤ next_word text caret) × (next_word text caret ≤ length text)
unfolding next_word
next_word-bound text caret h =
    let fuel = length text - caret in
    let middle = forward_while (word_codepoint text) fuel text caret in
    let (low, high) = forward_while-bound (word_codepoint text) fuel text caret h in
    let (above, below) =
      forward_while-bound (λ i. not (word_codepoint text i)) (length text - middle) text middle
        high in
    (omega (arith, low, above), below)
