-- ===== src/WriteQueue/Session.antt =====
-- A queue and its client over any sequence of pushes and writes.
use gisland.Prelude.{
  length, take, Expected, value, unexpected, ℕ, ◌≡◌, refl, sym, ap, ◌∙◌, subst, ◌≢◌, inl, inr, List,
  [], ◌∷◌, ◌++◌, arith, dec_le,
}
use gisland.WriteQueue.{WriteQueueError, WriteQueue, push, front_span, consume}
use gisland.WriteQueue.Contents.{
  IsValid, contents, push_iff, push-queue, push-pushed, pushed-contents, push-IsValid,
}
use gisland.WriteQueue.Stream.{consume-Consumed, consume-refused}
use mathlib.Core.List.{append_assoc, append-nil}

-- A client of the queue: it pushes records, and reports how many bytes of the front the pipe took.
pub data Event : Type 0 where
  pushes : List ℕ → Event
  writes : ℕ → Event

-- The queue, all bytes that it took and all that left it.
pub record Session : Type 0 where
  pub waiting : WriteQueue
  pub accepted : List ℕ
  pub written : List ℕ

abbrev if_taken : Expected (Unit {0}) WriteQueueError → List ℕ → List ℕ
if_taken (value _) bytes = bytes
if_taken (unexpected _) bytes = []

unfoldable pub session_step : Session → Event → Session
session_step s (pushes bytes) =
    let (q, result) = push s.waiting bytes in
    record s { waiting = q; accepted = s.accepted ++ if_taken result bytes }
session_step s (writes count) =
    let (q, result) = consume s.waiting count in
    record s {
      waiting = q;
      written = s.written ++ if_taken result (take count (front_span s.waiting));
    }

unfoldable pub session : Session → List Event → Session
session s [] = s
session s (e ∷ events) = session (session_step s e) events

-- The queue is valid, and what was accepted is what was written and then what still waits.
pub record IsFaithful (s : Session) : Type 0 where
  pub valid : IsValid s.waiting
  pub in_order : s.accepted ≡ s.written ++ contents s.waiting

if_taken-refused :
    (result : Expected (Unit {0}) WriteQueueError) (bytes : List ℕ)
    → result ≢ value tt
    → if_taken result bytes ≡ []
if_taken-refused (value tt) bytes h = absurd (h refl)
if_taken-refused (unexpected error) bytes h = refl

push-contents :
    (q : WriteQueue) (bytes : List ℕ)
    → IsValid q
    → contents (push q bytes).0 ≡ contents q ++ if_taken (push q bytes).1 bytes
push-contents q bytes v = elim (push-queue q bytes) [
  | inl taken ↦
      let done = push-pushed q bytes v ((push_iff q bytes v).0 taken.0) in
      subst (λ o. contents o.0 ≡ contents q ++ if_taken o.1 bytes) (sym done)
        (pushed-contents q bytes v)
  | inr refused ↦
      ap contents refused.1
      ∙ sym (append-nil (contents q))
      ∙ ap (λ t. contents q ++ t) (sym (if_taken-refused (push q bytes).1 bytes refused.0))
]

consume-contents :
    (q : WriteQueue) (count : ℕ)
    → IsValid q
    → let (q', result) = consume q count in
      (contents q ≡ if_taken result (take count (front_span q)) ++ contents q') × IsValid q'
consume-contents q count v = elim (dec_le count (length (front_span q))) [
  | yes fits ↦
      let (done, split, valid) = consume-Consumed q count v fits in
      (
        subst
            (λ r.
              contents q ≡ if_taken r (take count (front_span q)) ++ contents (consume q count).0)
            (sym done) split,
        valid,
      )
  | no excess ↦
      let refused = consume-refused q count (omega arith) in
      subst
        (λ o. (contents q ≡ if_taken o.1 (take count (front_span q)) ++ contents o.0) × IsValid o.0)
        (sym refused) (refl, v)
]

session_step-IsFaithful : (s : Session) (e : Event) → IsFaithful s → IsFaithful (session_step s e)
unfolding session_step
session_step-IsFaithful s (pushes bytes) f = record {
  valid = push-IsValid s.waiting bytes f.valid;
  in_order =
      ap (λ t. t ++ if_taken (push s.waiting bytes).1 bytes) f.in_order
      ∙ append_assoc s.written (contents s.waiting) (if_taken (push s.waiting bytes).1 bytes)
      ∙ ap (λ t. s.written ++ t) (sym (push-contents s.waiting bytes f.valid));
}
session_step-IsFaithful s (writes count) f =
    let (split, valid) = consume-contents s.waiting count f.valid in
    record {
      valid = valid;
      in_order =
          f.in_order
          ∙ ap (λ t. s.written ++ t) split
          ∙ sym (append_assoc s.written _ (contents (consume s.waiting count).0));
    }

-- Over any pushes and writes, granted or refused: the queue stays valid, and the bytes that were
-- accepted are those that were written followed by those that wait, in order. None is lost,
-- repeated or made up.
pub session-IsFaithful :
    (s : Session) (events : List Event) → IsFaithful s → IsFaithful (session s events)
unfolding session
session-IsFaithful s [] f = f
session-IsFaithful s (e ∷ events) f =
    session-IsFaithful (session_step s e) events (session_step-IsFaithful s e f)
