-- ===== src/WriteQueue/Tests.antt =====
-- Runs of a small queue, and the theorems at concrete inputs.
use gisland.Prelude.{
  length, All, value, unexpected, ℕ, ◌+◌, ◌≤◌, ◌<◌, ◌≡◌, refl, sym, ◌↔◌, List, [], ◌∷◌, ◌++◌, arith,
}
use gisland.LineBuffer.Lines.{IsPlain}
use gisland.WriteQueue.{invalid_record, WriteQueue, make, valid_record, push}
use gisland.WriteQueue.Contents.{IsValid, contents}
use gisland.WriteQueue.Session.{pushes, writes, Session, IsFaithful, session, session-IsFaithful}
use gisland.WriteQueue.Records.{push-taken_iff}

abbrev ready_line : List ℕ
ready_line = 97 ∷ 98 ∷ 10 ∷ []

abbrev one_waiting : WriteQueue
one_waiting = record {
  maximum_messages = 2;
  maximum_bytes = 8;
  records = ready_line ∷ [];
  front_offset = 1;
  pending_bytes = 2;
}

one_waiting-contents : contents one_waiting ≡ 98 ∷ 10 ∷ []
unfolding contents
one_waiting-contents = refl

one_waiting-IsValid : IsValid one_waiting
unfolding contents
one_waiting-IsValid = omega arith

push_one : (push (make 2 8) ready_line).1 ≡ value tt
unfolding push valid_record make
push_one = refl

push_unended : (push (make 2 8) (97 ∷ [])).1 ≡ unexpected invalid_record
unfolding push valid_record make
push_unended = refl

push-taken_iff_example : ((push one_waiting ready_line).1 ≡ value tt) ↔ (
    ((text : List ℕ) × (ready_line ≡ text ++ 10 ∷ []) × All IsPlain text)
    × (length one_waiting.records < one_waiting.maximum_messages)
    × (length (contents one_waiting) + length ready_line ≤ one_waiting.maximum_bytes))
push-taken_iff_example = push-taken_iff one_waiting ready_line one_waiting-IsValid

abbrev opened : Session
opened = record { waiting = one_waiting; accepted = 98 ∷ 10 ∷ []; written = [] }

session-IsFaithful_example :
    IsFaithful (session opened (writes 1 ∷ pushes ready_line ∷ writes 9 ∷ writes 1 ∷ []))
session-IsFaithful_example =
    session-IsFaithful opened (writes 1 ∷ pushes ready_line ∷ writes 9 ∷ writes 1 ∷ [])
      (record { valid = one_waiting-IsValid; in_order = sym one_waiting-contents })
