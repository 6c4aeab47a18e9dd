-- ===== src/Interaction/Encoding.antt =====
-- src/interaction.cpp: `encode_utf8` against `valid_utf8`.
use gisland.Prelude.{
  ltb, leb, Bool-cases, is_empty, ℕ, ◌≡◌, refl, inl, inr, true, not, ◌&&◌, ◌||◌, arith,
}
use gisland.Interaction.Utf8.{
  sequence_length, second_allowed, valid_sequence, valid_loop, valid_utf8, encode_utf8,
}

-- What a code point is encoded as is valid UTF-8, and it is empty exactly where the code point is a
-- surrogate or above the last one of Unicode.
pub encode_utf8-valid :
    (codepoint : ℕ)
    → (valid_utf8 (encode_utf8 codepoint) ≡ true)
      × (is_empty (encode_utf8 codepoint)
          ≡ (ltb 1114111 codepoint || leb 55296 codepoint && leb codepoint 57343))
unfolding encode_utf8 valid_utf8 valid_loop valid_sequence sequence_length second_allowed
encode_utf8-valid codepoint = elim (Bool-cases (leb codepoint 127)) [
  | inl a ↦ rw a (ground (arith, a), ground (arith, a))
  | inr a ↦ elim (Bool-cases (leb codepoint 2047)) [
    | inl b ↦ rw (a, b) (ground (arith, a, b), ground (arith, a, b))
    | inr b ↦
        elim (Bool-cases
          (leb codepoint 65535 && not (leb 55296 codepoint && leb codepoint 57343))) [
            | inl c ↦ rw (a, b, c) (ground (arith, b, c), ground (arith, b, c))
            | inr c ↦ elim (Bool-cases (leb 65536 codepoint && leb codepoint 1114111)) [
              | inl d ↦ rw (a, b, c, d) (ground (arith, d), ground (arith, d))
              | inr d ↦ rw (a, b, c, d) (refl, ground (arith, b, c, d))
            ]
          ]
  ]
]
