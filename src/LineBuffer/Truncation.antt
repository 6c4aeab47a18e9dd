-- ===== src/LineBuffer/Truncation.antt =====
-- The standard error of a module: nothing is refused, long lines are cut.
use gisland.Prelude.{
  ltb, ltb-zero, ltb-suc, ltb-none, length, length-append, take, All, value, ℕ, zero, suc, ◌+◌, ◌≤◌,
  ◌<◌, ◌≡◌, refl, sym, ◌∙◌, ◌≢◌, Bool, true, false, none, some, List, [], ◌∷◌, ◌++◌, arith,
}
use gisland.LineBuffer.{
  BufferedLine, LineBuffer, standard_error, newline, strip_return, append_byte, append_loop, append,
}
use gisland.LineBuffer.Lines.{append_loop-none, append_loop-some}
use mathlib.Core.Path.{ap₂}
use mathlib.Core.List.{append-nil, append_assoc}

-- A buffer in the middle of a line of which it holds `text`.
abbrev cut : ℕ → List ℕ → Bool → LineBuffer
cut maximum text truncated = record (standard_error maximum) {
  current = text;
  truncated = truncated;
}

append_byte-fits :
    (maximum byte : ℕ) (text : List ℕ) (truncated : Bool)
    → byte ≢ newline
    → length text < maximum
    → append_byte (cut maximum text truncated) byte
      ≡ (cut maximum (text ++ byte ∷ []) truncated, value none)
unfolding append_byte standard_error
append_byte-fits maximum byte text truncated p h = ground arith

append_byte-full :
    (maximum byte : ℕ) (text : List ℕ) (truncated : Bool)
    → byte ≢ newline
    → maximum ≤ length text
    → append_byte (cut maximum text truncated) byte ≡ (cut maximum text true, value none)
unfolding append_byte standard_error
append_byte-full maximum byte text truncated p h = ground arith

append_loop-full :
    (maximum : ℕ) (text suffix bytes : List ℕ) (lines : List BufferedLine)
    → All (λ byte. byte ≢ newline) suffix
    → maximum ≤ length text
    → append_loop (cut maximum text true) lines (suffix ++ bytes)
      ≡ append_loop (cut maximum text true) lines bytes
append_loop-full maximum text [] bytes lines p h = refl
append_loop-full maximum text (byte ∷ suffix) bytes lines p h =
    append_loop-none (cut maximum text true) (cut maximum text true) lines byte (suffix ++ bytes)
      (append_byte-full maximum byte text true p.0 h)
    ∙ append_loop-full maximum text suffix bytes lines p.1 h

-- `room` bytes of the maximum are left.
append_loop-cut :
    (maximum room : ℕ) (text suffix bytes : List ℕ) (lines : List BufferedLine)
    → All (λ byte. byte ≢ newline) suffix
    → length text + room ≡ maximum
    → append_loop (cut maximum text false) lines (suffix ++ bytes)
      ≡ append_loop (cut maximum (text ++ take room suffix) (ltb room (length suffix))) lines bytes
append_loop-cut maximum zero text [] bytes lines p h =
    ap₂ (λ t u. append_loop (cut maximum t u) lines bytes) (sym (append-nil text))
      (sym (ltb-none 0))
append_loop-cut maximum (suc room) text [] bytes lines p h =
    ap₂ (λ t u. append_loop (cut maximum t u) lines bytes) (sym (append-nil text))
      (sym (ltb-none (suc room)))
append_loop-cut maximum zero text (byte ∷ suffix) bytes lines p h =
    append_loop-none (cut maximum text false) (cut maximum text true) lines byte (suffix ++ bytes)
      (append_byte-full maximum byte text false p.0 (omega arith))
    ∙ append_loop-full maximum text suffix bytes lines p.1 (omega arith)
    ∙ ap₂ (λ t u. append_loop (cut maximum t u) lines bytes) (sym (append-nil text))
        (sym (ltb-zero (length suffix)))
append_loop-cut maximum (suc room) text (byte ∷ suffix) bytes lines p h =
    append_loop-none (cut maximum text false) (cut maximum (text ++ byte ∷ []) false) lines byte
      (suffix ++ bytes) (append_byte-fits maximum byte text false p.0 (omega arith))
    ∙ append_loop-cut maximum room (text ++ byte ∷ []) suffix bytes lines p.1
        (omega (arith, length-append text (byte ∷ [])))
    ∙ ap₂ (λ t u. append_loop (cut maximum t u) lines bytes)
        (append_assoc text (byte ∷ []) (take room suffix)) (sym (ltb-suc room (length suffix)))

append_byte-end :
    (maximum : ℕ) (text : List ℕ) (truncated : Bool)
    → append_byte (cut maximum text truncated) newline ≡ (
      standard_error maximum,
      value (some (record { text = strip_return text; truncated = truncated })),
    )
unfolding append_byte standard_error
append_byte-end maximum text truncated = refl

-- A standard error buffer takes a line of any length: it hands out the first bytes, up to the
-- maximum and less a carriage return, and says whether there were more. It goes on as it was. The
-- bytes before the end of the line may be any but a newline.
pub append-truncates :
    (maximum : ℕ) (text : List ℕ)
    → All (λ byte. byte ≢ newline) text
    → append (standard_error maximum) (text ++ newline ∷ []) ≡ (
      standard_error maximum,
      value (
          record { text = strip_return (take maximum text); truncated = ltb maximum (length text) }
          ∷ []),
    )
unfolding append standard_error
append-truncates maximum text p =
    append_loop-cut maximum maximum [] text (newline ∷ []) [] p (omega arith)
    ∙ append_loop-some (cut maximum (take maximum text) (ltb maximum (length text)))
        (standard_error maximum) []
        (record { text = strip_return (take maximum text); truncated = ltb maximum (length text) })
        newline [] (append_byte-end maximum (take maximum text) (ltb maximum (length text)))
    ∙ done
  where
    done :
        append_loop
          (standard_error maximum)
          (record { text = strip_return (take maximum text); truncated = ltb maximum (length text) }
            ∷ [])
          []
        ≡ (
          standard_error maximum,
          value (
              record {
                text = strip_return (take maximum text);
                truncated = ltb maximum (length text);
              }
              ∷ []),
        )
    done = unfold append_loop in refl
