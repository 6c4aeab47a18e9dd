-- ===== src/LineBuffer/Stream.antt =====
-- How the bytes of a stream are handed over does not matter.
use gisland.Prelude.{
  value, unexpected, ℕ, ◌≡◌, refl, sym, ap, ◌∙◌, Bool, false, Option, none, some, List, [], ◌∷◌,
  ◌++◌, arith,
}
use gisland.LineBuffer.{
  BufferedLine, LineBuffer, Outcome, append_byte, proceed, append_loop, append,
}
use mathlib.Core.List.{append-nil, append_assoc}

-- An outcome of the loop, continued with more bytes.
abbrev pub continue : Outcome (List BufferedLine) → List ℕ → Outcome (List BufferedLine)
continue (b, value lines) bytes = append_loop b lines bytes
continue (b, unexpected error) bytes = (b, unexpected error)

proceed-continue :
    (lines : List BufferedLine) (xs ys : List ℕ)
    → ((b : LineBuffer) (lines' : List BufferedLine)
        → append_loop b lines' (xs ++ ys) ≡ continue (append_loop b lines' xs) ys)
    → (o : Outcome (Option BufferedLine))
    → proceed (λ b lines'. append_loop b lines' (xs ++ ys)) lines o
      ≡ continue (proceed (λ b lines'. append_loop b lines' xs) lines o) ys
proceed-continue lines xs ys ih (b, value none) = ih b lines
proceed-continue lines xs ys ih (b, value (some line)) = ih b (lines ++ line ∷ [])
proceed-continue lines xs ys ih (b, unexpected error) = refl

append_loop-append :
    (b : LineBuffer) (lines : List BufferedLine) (xs ys : List ℕ)
    → append_loop b lines (xs ++ ys) ≡ continue (append_loop b lines xs) ys
unfolding append_loop
append_loop-append b lines [] ys = refl
append_loop-append b lines (x ∷ xs) ys =
    proceed-continue lines xs ys (λ b' lines'. append_loop-append b' lines' xs ys) (append_byte b x)

-- The lines found before stand in front of those that the loop finds.
abbrev pub after_lines :
    List BufferedLine → Outcome (List BufferedLine) → Outcome (List BufferedLine)
after_lines lines (b, value more) = (b, value (lines ++ more))
after_lines lines (b, unexpected error) = (b, unexpected error)

after_lines-append :
    (xs ys : List BufferedLine) (o : Outcome (List BufferedLine))
    → after_lines (xs ++ ys) o ≡ after_lines xs (after_lines ys o)
after_lines-append xs ys (b, value more) = rw append_assoc
after_lines-append xs ys (b, unexpected error) = refl

proceed-after_lines :
    (lines : List BufferedLine) (bytes : List ℕ)
    → ((b : LineBuffer) (lines' : List BufferedLine)
        → append_loop b lines' bytes ≡ after_lines lines' (append_loop b [] bytes))
    → (o : Outcome (Option BufferedLine))
    → proceed (λ b lines'. append_loop b lines' bytes) lines o
      ≡ after_lines lines (proceed (λ b lines'. append_loop b lines' bytes) [] o)
proceed-after_lines lines bytes ih (b, value none) = ih b lines
proceed-after_lines lines bytes ih (b, value (some line)) =
    ih b (lines ++ line ∷ [])
    ∙ after_lines-append lines (line ∷ []) (append_loop b [] bytes)
    ∙ ap (after_lines lines) (sym (ih b (line ∷ [])))
proceed-after_lines lines bytes ih (b, unexpected error) = refl

pub append_loop-after_lines :
    (b : LineBuffer) (lines : List BufferedLine) (bytes : List ℕ)
    → append_loop b lines bytes ≡ after_lines lines (append_loop b [] bytes)
unfolding append_loop
append_loop-after_lines b lines [] = rw append-nil
append_loop-after_lines b lines (x ∷ bytes) =
    proceed-after_lines lines bytes (λ b' lines'. append_loop-after_lines b' lines' bytes)
      (append_byte b x)

proceed-finished :
    (ended : Bool) (lines : List BufferedLine) (bytes : List ℕ)
    → ((b : LineBuffer) (lines' : List BufferedLine)
        → b.finished ≡ ended
        → (append_loop b lines' bytes).0.finished ≡ ended)
    → (o : Outcome (Option BufferedLine)) → o.0.finished ≡ ended
    → (proceed (λ b lines'. append_loop b lines' bytes) lines o).0.finished ≡ ended
proceed-finished ended lines bytes ih (b, value none) e = ih b lines e
proceed-finished ended lines bytes ih (b, value (some line)) e = ih b (lines ++ line ∷ []) e
proceed-finished ended lines bytes ih (b, unexpected error) e = e

append_byte-finished : (b : LineBuffer) (byte : ℕ) → (append_byte b byte).0.finished ≡ b.finished
unfolding append_byte
append_byte-finished b byte = ground arith

append_loop-finished :
    (ended : Bool) (b : LineBuffer) (lines : List BufferedLine) (bytes : List ℕ)
    → b.finished ≡ ended
    → (append_loop b lines bytes).0.finished ≡ ended
unfolding append_loop
append_loop-finished ended b lines [] e = e
append_loop-finished ended b lines (x ∷ bytes) e =
    proceed-finished ended lines bytes
      (λ b' lines' e'. append_loop-finished ended b' lines' bytes e') (append_byte b x)
      (append_byte-finished b x ∙ e)

-- `append` again, on the buffer that an `append` left behind; after an error nothing is appended.
abbrev pub then_append : Outcome (List BufferedLine) → List ℕ → Outcome (List BufferedLine)
then_append (b, value lines) bytes = after_lines lines (append b bytes)
then_append (b, unexpected error) bytes = (b, unexpected error)

continue-then_append :
    (o : Outcome (List BufferedLine)) (bytes : List ℕ)
    → o.0.finished ≡ false
    → continue o bytes ≡ then_append o bytes
unfolding append
continue-then_append (b, value lines) bytes e = simp e (append_loop-after_lines b lines bytes)
continue-then_append (b, unexpected error) bytes e = refl

-- To append two pieces of a stream one after the other is to append them at once: the same lines,
-- the same error, the same buffer. The buffer is not finished.
pub append-then_append :
    (b : LineBuffer) (xs ys : List ℕ)
    → b.finished ≡ false
    → append b (xs ++ ys) ≡ then_append (append b xs) ys
append-then_append b xs ys e =
    append-loop (xs ++ ys)
    ∙ append_loop-append b [] xs ys
    ∙ continue-then_append (append_loop b [] xs) ys (append_loop-finished false b [] xs e)
    ∙ ap (λ o. then_append o ys) (sym (append-loop xs))
  where
    append-loop : (bytes : List ℕ) → append b bytes ≡ append_loop b [] bytes
    append-loop bytes = unfold append in rw e
