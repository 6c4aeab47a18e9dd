-- ===== src/WriteQueue/Stream.antt =====
-- Writing: the bytes leave in the order in which they were pushed, each once.
use gisland.Prelude.{
  length, length-append, take, drop, length-drop, take-append-drop, drop-append, drop-drop, All,
  value, unexpected, ℕ, zero, suc, ◌+◌, ◌-◌, ◌≤◌, ◌<◌, ◌≡◌, refl, sym, ap, ◌∙◌, subst, List, [],
  ◌∷◌, ◌++◌, arith,
}
use gisland.WriteQueue.{
  invalid_consume, WriteQueue, size_limit, Outcome, front_span, advance, consume,
}
use gisland.WriteQueue.Contents.{
  IsValid, flatten, contents, IsSized, OffsetFits, contents-front, size_sub-le, size_add-lt,
}
use mathlib.Core.List.{append_assoc}

-- The queue with its records apart, so that a proof may split on them.
abbrev queue : ℕ → ℕ → List (List ℕ) → ℕ → ℕ → WriteQueue
queue messages bytes records offset pending = record {
  maximum_messages = messages;
  maximum_bytes = bytes;
  records = records;
  front_offset = offset;
  pending_bytes = pending;
}

drop-all : (xs ys : List ℕ) → drop (length xs) (xs ++ ys) ≡ ys
drop-all [] ys = refl
drop-all (x ∷ xs) ys = drop-all xs ys

advance-contents :
    (messages bytes offset pending total : ℕ) (front : List ℕ) (records : List (List ℕ))
    → contents
        (advance (queue messages bytes (front ∷ records) offset pending) (front ∷ records) total)
      ≡ drop total (front ++ flatten records)
unfolding contents
advance-contents messages bytes offset pending total front records =
    ground (arith, drop-all front (flatten records))

advance-IsValid :
    (messages bytes offset pending total : ℕ) (front : List ℕ) (records : List (List ℕ))
    → bytes < size_limit
    → length (front ∷ records) ≤ messages
    → All (IsSized bytes) (front ∷ records)
    → total ≤ length front
    → pending ≡ length (drop total (front ++ flatten records))
    → pending ≤ bytes
    → IsValid
        (advance (queue messages bytes (front ∷ records) offset pending) (front ∷ records) total)
advance-IsValid messages bytes offset pending total front records limit count sized h p w = record {
  limit_fits = ground arith;
  counted = ground arith;
  sized = ground arith;
  offset_fits = ground (arith, first-fits records sized.1);
  pending = ground (arith, advance-contents messages bytes offset pending total front records);
  within = ground arith;
}
  where
    first-fits : (rest : List (List ℕ)) → All (IsSized bytes) rest → OffsetFits rest 0
    first-fits [] h = refl
    first-fits (x ∷ rest) h = h.0.0

take-front :
    (offset count : ℕ) (front rest : List ℕ)
    → offset + count ≤ length front
    → drop offset front ++ rest
      ≡ take count (drop offset front) ++ drop (offset + count) (front ++ rest)
take-front offset count front rest h =
    ap (λ t. t ++ rest) (sym (take-append-drop count (drop offset front)))
    ∙ append_assoc (take count (drop offset front)) (drop count (drop offset front)) rest
    ∙ ap (λ t. take count (drop offset front) ++ (t ++ rest)) (drop-drop count offset front)
    ∙ ap (λ t. take count (drop offset front) ++ t)
        (sym (drop-append (offset + count) front rest h))

-- What `consume` promises of a queue and of what it leaves behind.
abbrev pub Consumed : WriteQueue → ℕ → Outcome → Type 0
Consumed q count (q', result) =
    (result ≡ value tt) × (contents q ≡ take count (front_span q) ++ contents q') × IsValid q'

module _ (messages bytes offset pending count : ℕ) (front : List ℕ) (records : List (List ℕ))
    (v : IsValid (queue messages bytes (front ∷ records) offset pending))
    (h : offset + count ≤ length front) where
  abbrev before : WriteQueue
  before = queue messages bytes (front ∷ records) offset pending

  abbrev left : WriteQueue
  left =
      advance (queue messages bytes (front ∷ records) offset (pending - count)) (front ∷ records)
        (offset + count)

  waiting : pending ≡ length (drop offset (front ++ flatten records))
  waiting = v.pending ∙ ap length (unfold contents in refl)

  enough : count ≤ pending
  enough = omega (
    arith,
    waiting,
    length-drop offset (front ++ flatten records),
    length-append front (flatten records),
  )

  consume-left : consume before count ≡ (left, value tt)
  unfolding consume front_span
  consume-left = ground (
    arith,
    length-drop offset front,
    size_sub-le pending count enough (omega arith),
    size_add-lt offset count (omega (arith, v.sized.0, v.limit_fits)),
  )

  left-Consumed : Consumed before count (left, value tt)
  unfolding front_span
  left-Consumed = (
    refl,
    contents-front before front records v refl
        ∙ take-front offset count front (flatten records) h
        ∙ ap (λ t. take count (drop offset front) ++ t)
            (sym (
              advance-contents messages bytes offset (pending - count) (offset + count) front
                records)),
    advance-IsValid messages bytes offset (pending - count) (offset + count) front records
        v.limit_fits v.counted v.sized h
        (omega (
          arith,
          waiting,
          length-drop offset (front ++ flatten records),
          length-drop (offset + count) (front ++ flatten records),
        ))
        (omega (arith, v.within)),
  )

consume-empty :
    (messages bytes offset pending count : ℕ)
    → count ≤ 0
    → consume (queue messages bytes [] offset pending) count
      ≡ (queue messages bytes [] offset pending, value tt)
unfolding consume front_span
consume-empty messages bytes offset pending count h = ground arith

take-nil : (n : ℕ) → take {A = ℕ} n [] ≡ []
take-nil zero = refl
take-nil (suc n) = refl

Consumed-records :
    (messages bytes offset pending count : ℕ) (records : List (List ℕ))
    → let q = queue messages bytes records offset pending in
      IsValid q → count ≤ length (front_span q) → Consumed q count (consume q count)
unfolding front_span
Consumed-records messages bytes offset pending count [] v h =
    let q = queue messages bytes [] offset pending in
    subst (Consumed q count) (sym (consume-empty messages bytes offset pending count h))
      (refl, ap (λ t. t ++ contents q) (sym (take-nil count)), v)
Consumed-records messages bytes offset pending count (front ∷ records) v h =
    let fits : offset + count ≤ length front =
      omega (arith, length-drop offset front, v.offset_fits) in
    subst (Consumed (queue messages bytes (front ∷ records) offset pending) count)
      (sym (consume-left messages bytes offset pending count front records v fits))
      (left-Consumed messages bytes offset pending count front records v fits)

-- To consume bytes of the span in front succeeds, and takes these bytes and no others off the
-- contents; what was taken is what was in front. The queue stays valid.
pub consume-Consumed :
    (q : WriteQueue) (count : ℕ)
    → IsValid q
    → count ≤ length (front_span q)
    → Consumed q count (consume q count)
consume-Consumed q count v h =
    Consumed-records q.maximum_messages q.maximum_bytes q.front_offset q.pending_bytes count
      q.records v h

-- More than the span in front cannot be consumed, and nothing is then.
pub consume-refused :
    (q : WriteQueue) (count : ℕ)
    → length (front_span q) < count
    → consume q count ≡ (q, unexpected invalid_consume)
unfolding consume
consume-refused q count h = ground arith
