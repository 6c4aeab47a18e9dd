-- ===== src/LineBuffer/Bounds.antt =====
-- The length of what a buffer holds and hands out.
use gisland.Prelude.{
  Bool-cases, length, length-append, length-drop_last, All, All-append, Expected, value, unexpected,
  ℕ, ◌≤◌, ◌≡◌, refl, sym, ◌∙◌, subst, inl, inr, Option, none, some, List, [], ◌∷◌, ◌++◌, arith,
}
use gisland.LineBuffer.{
  BufferedLine, LineBufferErrorCode, LineBuffer, strip_return, Outcome, append_byte, proceed,
  append_loop, append,
}

pub record IsBounded (b : LineBuffer) : Type 0 where
  pub within : length b.current ≤ b.maximum_line_bytes

-- The length of a line that was handed out.
abbrev pub Fits : ℕ → BufferedLine → Type 0
Fits maximum line = length line.text ≤ maximum

abbrev pub FitsOutcome : ℕ → Expected (Option BufferedLine) LineBufferErrorCode → Type 0
FitsOutcome maximum (value none) = Unit
FitsOutcome maximum (value (some line)) = Fits maximum line
FitsOutcome maximum (unexpected error) = Unit

-- The settings of a buffer, which no operation changes.
abbrev pub SameSettings : LineBuffer → LineBuffer → Type 0
SameSettings b b' =
    (b'.maximum_line_bytes ≡ b.maximum_line_bytes)
    × (b'.truncate ≡ b.truncate)
    × (b'.reject_nul ≡ b.reject_nul)

length-strip_return : (text : List ℕ) → length (strip_return text) ≤ length text
unfolding strip_return
length-strip_return text = ground (arith, length-drop_last text)

pub append_byte-IsBounded :
    (b : LineBuffer) (byte : ℕ)
    → IsBounded b
    → let (b', result) = append_byte b byte in
      IsBounded b'
      × (SameSettings b b' × (b'.finished ≡ b.finished))
      × FitsOutcome b.maximum_line_bytes result
unfolding append_byte
append_byte-IsBounded b byte v = (
  ground (arith, length-append b.current (byte ∷ [])),
  ground arith,
  ground (arith, length-strip_return b.current),
)

abbrev pub AllFit : ℕ → Expected (List BufferedLine) LineBufferErrorCode → Type 0
AllFit maximum (value lines) = All (Fits maximum) lines
AllFit maximum (unexpected error) = Unit

-- A buffer that is bounded, has the settings of another, and has handed out fitting lines.
abbrev Keeps : LineBuffer → Outcome (List BufferedLine) → Type 0
Keeps b (b', result) = IsBounded b' × SameSettings b b' × AllFit b.maximum_line_bytes result

Keeps-change :
    (b c : LineBuffer) (o : Outcome (List BufferedLine)) → SameSettings b c → Keeps c o → Keeps b o
Keeps-change b c (d, value lines) s k = (
  k.0,
  (k.1.0 ∙ s.0, k.1.1 ∙ s.1, k.1.2 ∙ s.2),
  subst (λ maximum. All (Fits maximum) lines) s.0 k.2,
)
Keeps-change b c (d, unexpected error) s k = (k.0, (k.1.0 ∙ s.0, k.1.1 ∙ s.1, k.1.2 ∙ s.2), tt)

module _ (b : LineBuffer) (lines : List BufferedLine)
    (rest : LineBuffer → List BufferedLine → Outcome (List BufferedLine))
    (h : All (Fits b.maximum_line_bytes) lines)
    (ih : (c : LineBuffer) (lines' : List BufferedLine)
      → IsBounded c
      → All (Fits c.maximum_line_bytes) lines'
      → Keeps c (rest c lines')) where
  proceed-Keeps :
      (o : Outcome (Option BufferedLine))
      → IsBounded o.0
      → SameSettings b o.0
      → FitsOutcome b.maximum_line_bytes o.1
      → Keeps b (proceed rest lines o)
  proceed-Keeps (c, value none) v s f =
      Keeps-change b c (rest c lines) s
        (ih c lines v (subst (λ maximum. All (Fits maximum) lines) (sym s.0) h))
  proceed-Keeps (c, value (some line)) v s f = Keeps-change b c (rest c (lines ++ line ∷ [])) s (
      ih c (lines ++ line ∷ []) v (
        subst (λ maximum. All (Fits maximum) (lines ++ line ∷ [])) (sym s.0)
          (All-append (Fits b.maximum_line_bytes) lines (line ∷ []) h (f, tt))))
  proceed-Keeps (c, unexpected error) v s f = (v, s, tt)

append_loop-Keeps :
    (b : LineBuffer) (lines : List BufferedLine) (bytes : List ℕ)
    → IsBounded b
    → All (Fits b.maximum_line_bytes) lines
    → Keeps b (append_loop b lines bytes)
unfolding append_loop
append_loop-Keeps b lines [] v h = (v, (refl, refl, refl), h)
append_loop-Keeps b lines (byte ∷ bytes) v h =
    let (bounded, same, fits) = append_byte-IsBounded b byte v in
    proceed-Keeps b lines (λ b' lines'. append_loop b' lines' bytes) h
      (λ c lines' w k. append_loop-Keeps c lines' bytes w k) (append_byte b byte) bounded same.0
      fits

-- `append`, whatever the bytes and also where it fails, keeps the buffer within its maximum and
-- its settings, and no line that it hands out is longer than the maximum.
pub append-IsBounded :
    (b : LineBuffer) (bytes : List ℕ)
    → IsBounded b
    → let (b', result) = append b bytes in
      IsBounded b' × SameSettings b b' × AllFit b.maximum_line_bytes result
unfolding append
append-IsBounded b bytes v = elim (Bool-cases b.finished) [
  | inl ended ↦ simp ended (v, (refl, refl, refl), tt)
  | inr going ↦ simp going (append_loop-Keeps b [] bytes v tt)
]
