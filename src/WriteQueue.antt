-- ===== src/WriteQueue.antt =====
-- src/write_queue.cpp and include/gisland/write_queue.hpp: the records that wait to be written to
-- a module. Sizes are `std::size_t` of 64 bits: the sums and differences of the source wrap.
pub mod Contents
pub mod Stream
pub mod Session
pub mod Records
mod Tests
use gisland.Prelude.{
  ltb, leb, ◌==◌, if◌then◌else◌, is_some, is_empty, length, drop, get_last?, Expected, value,
  unexpected, ℕ, suc, ◌+◌, ◌-◌, ◌*◌, ◌%◌, ◌^◌, Bool, false, not, ◌&&◌, Option, none, some, List, [],
  ◌∷◌, ◌++◌,
}
use mathlib.Core.Option

pub data WriteQueueError : Type 0 where
  invalid_record message_limit byte_limit invalid_consume : WriteQueueError

pub record WriteQueue : Type 0 where
  pub maximum_messages : ℕ
  pub maximum_bytes : ℕ
  pub records : List (List ℕ)
  pub front_offset : ℕ
  pub pending_bytes : ℕ

abbrev pub default_message_limit : ℕ
default_message_limit = 256

abbrev pub default_byte_limit : ℕ
default_byte_limit = 1024 * 1024

abbrev pub size_limit : ℕ
size_limit = 2 ^ 64

abbrev pub size_add : ℕ → ℕ → ℕ
size_add a b = (a + b) % size_limit

abbrev pub size_sub : ℕ → ℕ → ℕ
size_sub a b = (a + size_limit - b) % size_limit

unfoldable pub make : ℕ → ℕ → WriteQueue
make maximum_messages maximum_bytes = record {
  maximum_messages = maximum_messages;
  maximum_bytes = maximum_bytes;
  records = [];
  front_offset = 0;
  pending_bytes = 0;
}

-- `std::string::find` of a byte: its first position, or `npos`.
abbrev pub find : ℕ → List ℕ → Option ℕ
find byte [] = none
find byte (x ∷ xs) = if x == byte then some 0 else Option.map suc (find byte xs)

abbrev pub is_byte : ℕ → Option ℕ → Bool
is_byte byte none = false
is_byte byte (some x) = x == byte

-- One line, ended by its only newline, with no NUL.
unfoldable pub valid_record : List ℕ → Bool
valid_record bytes =
    not (is_empty bytes)
    && is_byte 10 (get_last? bytes)
    && is_byte (length bytes - 1) (find 10 bytes)
    && not (is_some (find 0 bytes))

abbrev pub Outcome : Type 0
Outcome = WriteQueue × Expected (Unit {0}) WriteQueueError

unfoldable pub push : WriteQueue → List ℕ → Outcome
push q bytes =
    if not (valid_record bytes)
    then (q, unexpected invalid_record)
    else if leb q.maximum_messages (length q.records)
    then (q, unexpected message_limit)
    else if ltb (size_sub q.maximum_bytes q.pending_bytes) (length bytes)
    then (q, unexpected byte_limit)
    else (
      record q {
        pending_bytes = size_add q.pending_bytes (length bytes);
        records = q.records ++ bytes ∷ [];
      },
      value tt,
    )

-- What is left of the record in front.
abbrev pub rest_of : List (List ℕ) → ℕ → List ℕ
rest_of [] offset = []
rest_of (front ∷ _) offset = drop offset front

unfoldable pub front_span : WriteQueue → List ℕ
front_span q = rest_of q.records q.front_offset

-- The record in front leaves when its last byte is written.
abbrev pub advance : WriteQueue → List (List ℕ) → ℕ → WriteQueue
advance q [] offset = q
advance q (front ∷ records) offset =
    if offset == length front
    then record q { records = records; front_offset = 0 }
    else record q { front_offset = offset }

unfoldable pub consume : WriteQueue → ℕ → Outcome
unfolding front_span
consume q byte_count =
    if ltb (length (front_span q)) byte_count
    then (q, unexpected invalid_consume)
    else if is_empty q.records
    then (q, value tt)
    else (
      advance (record q { pending_bytes = size_sub q.pending_bytes byte_count }) q.records
          (size_add q.front_offset byte_count),
      value tt,
    )

unfoldable pub wants_write : WriteQueue → Bool
wants_write q = not (is_empty q.records)

unfoldable pub message_count : WriteQueue → ℕ
message_count q = length q.records
