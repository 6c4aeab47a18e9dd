-- ===== src/WriteQueue/Contents.antt =====
-- The queue as a stream of bytes: what waits to be written, in order.
use gisland.Prelude.{
  length, length-append, drop, drop-append, All, All-append, value, ℕ, ◌+◌, ◌-◌, ◌≤◌, ◌<◌, ◌≡◌,
  refl, sym, ap, ◌∙◌, subst, ◌≢◌, ◌↔◌, ◌⊎◌, inl, inr, true, List, [], ◌∷◌, ◌++◌, arith,
}
use gisland.WriteQueue.{
  WriteQueue, size_limit, size_add, size_sub, make, valid_record, push, rest_of, front_span,
}
use mathlib.Core.List.{append-nil, append_assoc}

abbrev pub flatten : List (List ℕ) → List ℕ
flatten [] = []
flatten (bytes ∷ records) = bytes ++ flatten records

unfoldable pub contents : WriteQueue → List ℕ
contents q = drop q.front_offset (flatten q.records)

-- A record of a size that may stand in the queue.
abbrev pub IsSized : ℕ → List ℕ → Type 0
IsSized maximum bytes = (0 < length bytes) × (length bytes ≤ maximum)

-- The offset lies within the record in front.
abbrev pub OffsetFits : List (List ℕ) → ℕ → Type 0
OffsetFits [] offset = offset ≡ 0
OffsetFits (front ∷ _) offset = offset < length front

pub record IsValid (q : WriteQueue) : Type 0 where
  pub limit_fits : q.maximum_bytes < size_limit
  pub counted : length q.records ≤ q.maximum_messages
  pub sized : All (IsSized q.maximum_bytes) q.records
  pub offset_fits : OffsetFits q.records q.front_offset
  pub pending : q.pending_bytes ≡ length (contents q)
  pub within : q.pending_bytes ≤ q.maximum_bytes

pub make-IsValid : (messages bytes : ℕ) → bytes < size_limit → IsValid (make messages bytes)
unfolding make contents
make-IsValid messages bytes h = ground arith

flatten-append : (xs ys : List (List ℕ)) → flatten (xs ++ ys) ≡ flatten xs ++ flatten ys
flatten-append [] ys = refl
flatten-append (x ∷ xs) ys =
    rw (flatten-append xs ys) (sym (append_assoc x (flatten xs) (flatten ys)))

flatten-snoc :
    (xs : List (List ℕ)) (bytes : List ℕ) → flatten (xs ++ bytes ∷ []) ≡ flatten xs ++ bytes
flatten-snoc xs bytes = flatten-append xs (bytes ∷ []) ∙ ap (◌++◌ (flatten xs)) (append-nil bytes)

offset-le-flatten :
    (records : List (List ℕ)) (offset : ℕ)
    → OffsetFits records offset
    → offset ≤ length (flatten records)
offset-le-flatten [] offset h = omega arith
offset-le-flatten (front ∷ records) offset h = omega (arith, length-append front (flatten records))

pub contents-front :
    (q : WriteQueue) (front : List ℕ) (records : List (List ℕ))
    → IsValid q
    → q.records ≡ front ∷ records
    → contents q ≡ front_span q ++ flatten records
unfolding contents front_span
contents-front q front records v e =
    ap (λ r. drop q.front_offset (flatten r)) e
    ∙ drop-append q.front_offset front (flatten records)
        (let fits = subst (λ r. OffsetFits r q.front_offset) e v.offset_fits in omega arith)
    ∙ ap (λ r. rest_of r q.front_offset ++ flatten records) (sym e)

pub size_sub-le : (a b : ℕ) → b ≤ a → a < size_limit → size_sub a b ≡ a - b
size_sub-le a b h k = omega arith

pub size_add-lt : (a b : ℕ) → a + b < size_limit → size_add a b ≡ a + b
size_add-lt a b h = omega arith

-- What the guards of `push` let through.
abbrev pub Admits : WriteQueue → List ℕ → Type 0
Admits q bytes =
    (valid_record bytes ≡ true)
    × (length q.records < q.maximum_messages)
    × (length (contents q) + length bytes ≤ q.maximum_bytes)

-- A record is taken exactly when the guards of `push` let it through.
pub push_iff :
    (q : WriteQueue) (bytes : List ℕ) → IsValid q → ((push q bytes).1 ≡ value tt) ↔ Admits q bytes
unfolding push
push_iff q bytes v = (there, back)
  where
    room : size_sub q.maximum_bytes q.pending_bytes ≡ q.maximum_bytes - q.pending_bytes
    room = size_sub-le q.maximum_bytes q.pending_bytes v.within v.limit_fits

    there : (push q bytes).1 ≡ value tt → Admits q bytes
    there h = ground (arith, room)

    back : Admits q bytes → (push q bytes).1 ≡ value tt
    back h = ground (arith, room)

-- A record that is taken stands behind the others; one that is refused changes nothing.
pub push-queue :
    (q : WriteQueue) (bytes : List ℕ)
    → let (q', result) = push q bytes in
      ((result ≡ value tt) × (q'.records ≡ q.records ++ bytes ∷ []))
      ⊎ ((result ≢ value tt) × (q' ≡ q))
unfolding push
push-queue q bytes = ground arith

-- The queue behind which `bytes` were put.
abbrev pub pushed : WriteQueue → List ℕ → WriteQueue
pushed q bytes = record q {
  records = q.records ++ bytes ∷ [];
  pending_bytes = size_add q.pending_bytes (length bytes);
}

pub push-pushed :
    (q : WriteQueue) (bytes : List ℕ)
    → IsValid q
    → Admits q bytes
    → push q bytes ≡ (pushed q bytes, value tt)
unfolding push
push-pushed q bytes v h =
    ground (arith, size_sub-le q.maximum_bytes q.pending_bytes v.within v.limit_fits)

pub pushed-contents :
    (q : WriteQueue) (bytes : List ℕ) → IsValid q → contents (pushed q bytes) ≡ contents q ++ bytes
unfolding contents
pushed-contents q bytes v =
    ap (drop q.front_offset) (flatten-snoc q.records bytes)
    ∙ drop-append q.front_offset (flatten q.records) bytes
        (offset-le-flatten q.records q.front_offset v.offset_fits)

valid_record-pos : (bytes : List ℕ) → valid_record bytes ≡ true → 0 < length bytes
unfolding valid_record
valid_record-pos [] h = cc
valid_record-pos (x ∷ bytes) h = omega arith

OffsetFits-snoc :
    (records : List (List ℕ)) (bytes : List ℕ) (offset : ℕ)
    → 0 < length bytes
    → OffsetFits records offset
    → OffsetFits (records ++ bytes ∷ []) offset
OffsetFits-snoc [] bytes offset h k = omega arith
OffsetFits-snoc (front ∷ records) bytes offset h k = k

pushed-IsValid :
    (q : WriteQueue) (bytes : List ℕ) → IsValid q → Admits q bytes → IsValid (pushed q bytes)
pushed-IsValid q bytes v h = record {
  limit_fits = v.limit_fits;
  counted = omega (arith, length-append q.records (bytes ∷ []));
  sized =
      All-append (IsSized q.maximum_bytes) q.records (bytes ∷ []) v.sized
        ((valid_record-pos bytes h.0, omega arith), tt);
  offset_fits =
      OffsetFits-snoc q.records bytes q.front_offset (valid_record-pos bytes h.0) v.offset_fits;
  pending = sum ∙ sym longer;
  within = omega (arith, sum);
}
  where
    sum : size_add q.pending_bytes (length bytes) ≡ length (contents q) + length bytes
    sum = omega (arith, v.pending, v.limit_fits, h.2)

    longer : length (contents (pushed q bytes)) ≡ length (contents q) + length bytes
    longer = ap length (pushed-contents q bytes v) ∙ length-append (contents q) bytes

pub push-IsValid : (q : WriteQueue) (bytes : List ℕ) → IsValid q → IsValid (push q bytes).0
push-IsValid q bytes v = elim (push-queue q bytes) [
  | inl taken ↦
      let admitted = (push_iff q bytes v).0 taken.0 in
      subst (λ o. IsValid o.0) (sym (push-pushed q bytes v admitted))
        (pushed-IsValid q bytes v admitted)
  | inr refused ↦ subst IsValid (sym refused.1) v
]
