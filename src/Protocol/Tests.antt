-- ===== src/Protocol/Tests.antt =====
-- Concrete identifiers, frames and connections of internal/protocol.
use cablecheck.Base.{
  ℕ, ◌+◌, ◌%◌, ◌^◌, ◌≡◌, ◌≢◌, ◌&&◌, ◌==◌, if◌then◌else◌, inl, refl, false, Option, none, some, List,
  [], ◌∷◌, ◌++◌, arith,
}
use cablecheck.Protocol.MessageId.{
  split_last, parse_digits, parse_uint, split_message_id, MessageIdMaker, next,
}
use cablecheck.Protocol.MessageId.RoundTrip.{split_message_id-next}
use cablecheck.Protocol.Dedup.{
  last_seq, new_duplicate_detector, fresh, duplicate, is_fresh, seen_in, observe_seq, observe,
  observe_all,
}
use cablecheck.Protocol.Dedup.Laws.{observe_all-stale}
use cablecheck.Protocol.Dedup.Ring.{observe_all-repeat}
use cablecheck.Protocol.Frame.{
  max_frame_size, eof, io, bad_length, poisoned, Codec, Conn, put_uint32, uint32, read_bytes,
  failed, read_full, read_body, read_header, read_frame, read_envelope, write_body, write_envelope,
  write_all, read_all,
}
use cablecheck.Protocol.Frame.Laws.{
  read_envelope-poisoned, read_envelope-bad_length, read_envelope-missing_body,
}
use cablecheck.Protocol.Frame.RoundTrip.{IsLawful, read_all-write_all}

-- A maker in the middle of a session.
abbrev coordinator : MessageIdMaker
coordinator = record { role = "pc1"; seq = 41 }

split_message_id-next_example :
    ((next coordinator).0.seq ≡ (coordinator.seq + 1) % 2 ^ 64)
    × (split_message_id (next coordinator).1 ≡ some (coordinator.role, (next coordinator).0.seq))
split_message_id-next_example = split_message_id-next coordinator refl

-- Two identifiers of one role, and one without a number.
pc1_7 : split_message_id "pc1-00000007" ≡ some ("pc1", 7)
unfolding split_message_id split_last parse_uint parse_digits
pc1_7 = refl

pc1_3 : split_message_id "pc1-00000003" ≡ some ("pc1", 3)
unfolding split_message_id split_last parse_uint parse_digits
pc1_3 = refl

first_fresh : (observe new_duplicate_detector "pc1-00000007").1 ≡ fresh
unfolding observe seen_in observe_seq last_seq split_message_id split_last parse_uint parse_digits
first_fresh = refl

observe_all-stale_example :
    let d = observe_all (observe new_duplicate_detector "pc1-00000007").0 ("hello" ∷ []) in
    ((observe d "pc1-00000003").0 ≡ d) × (is_fresh (observe d "pc1-00000003").1 ≡ false)
observe_all-stale_example =
    observe_all-stale new_duplicate_detector "pc1-00000007" "pc1-00000003" "pc1" ("hello" ∷ []) 7 3
      pc1_7 first_fresh pc1_3 (omega arith)

hello_fresh : (observe (observe_all new_duplicate_detector []) "hello").1 ≡ fresh
unfolding observe_all observe seen_in observe_seq split_message_id split_last
hello_fresh = refl

observe_all-repeat_example :
    let d =
      observe_all
        (observe (observe_all new_duplicate_detector []) "hello").0
        ("pc1-00000007" ∷ []) in
    observe d "hello" ≡ (d, duplicate)
observe_all-repeat_example =
    observe_all-repeat [] ("pc1-00000007" ∷ []) "hello" refl hello_fresh (omega arith)

-- Envelopes of one number, encoded as the number between two braces; 13 cannot be encoded.
abbrev marshal_number : ℕ → Option (List ℕ)
marshal_number n = if n == 13 then none else some (123 ∷ n ∷ 125 ∷ [])

abbrev unmarshal_number : List ℕ → Option ℕ
unmarshal_number (a ∷ n ∷ b ∷ []) = if a == 123 && b == 125 then some n else none
unmarshal_number _ = none

abbrev numbers : Codec ℕ
numbers = record { marshal = marshal_number; unmarshal = unmarshal_number }

numbers-IsLawful : IsLawful numbers
numbers-IsLawful = record {
  unmarshal-marshal = λ env body h. ground arith;
  min-le-length = λ env body h. ground arith;
}

-- A connection without errors, on which the bytes arrive before it is closed.
abbrev receiving : List ℕ → Conn
receiving bytes = record {
  input = bytes;
  ending = eof;
  read_deadline_error = none;
  write_deadline_error = none;
  write_error = none;
  output = [];
  read_err = none;
  max_frame = max_frame_size;
}

-- The frames of 5 and of 9, and the next byte.
abbrev two_frames : List ℕ
two_frames = 0 ∷ 0 ∷ 0 ∷ 3 ∷ 123 ∷ 5 ∷ 125 ∷ 0 ∷ 0 ∷ 0 ∷ 3 ∷ 123 ∷ 9 ∷ 125 ∷ 42 ∷ []

two_written : (write_all numbers (5 ∷ 9 ∷ []) (receiving [])).1 ≡ none
unfolding write_all write_envelope write_body put_uint32
two_written = refl

two_arrive : two_frames ≡ (write_all numbers (5 ∷ 9 ∷ []) (receiving [])).0.output ++ 42 ∷ []
unfolding write_all write_envelope write_body put_uint32
two_arrive = refl

read_all-write_all_example :
    read_all numbers 2 (receiving two_frames) ≡ (receiving (42 ∷ []), 5 ∷ 9 ∷ [])
read_all-write_all_example =
    read_all-write_all numbers numbers-IsLawful (5 ∷ 9 ∷ []) (receiving []) (receiving two_frames)
      (42 ∷ []) two_written refl (omega arith) (omega arith) refl refl two_arrive

-- A header that declares one byte.
short_fails : (read_envelope numbers (receiving (0 ∷ 0 ∷ 0 ∷ 1 ∷ []))).1 ≡ failed (bad_length 1)
unfolding read_envelope read_frame read_header read_full read_bytes read_body uint32
short_fails = refl

read_envelope-poisoned_example :
    let c' = (read_envelope numbers (receiving (0 ∷ 0 ∷ 0 ∷ 1 ∷ []))).0 in
    ((read_envelope numbers c').0 ≡ c')
    × ((read_envelope numbers c').1 ≡ failed (poisoned (bad_length 1)))
read_envelope-poisoned_example =
    read_envelope-poisoned numbers (receiving (0 ∷ 0 ∷ 0 ∷ 1 ∷ [])) (bad_length 1) short_fails

read_envelope-bad_length_example :
    ((read_envelope numbers (receiving (put_uint32 1 ++ 7 ∷ []))).1 ≡ failed (bad_length 1))
    × ((read_envelope numbers (receiving (put_uint32 1 ++ 7 ∷ []))).0.input ≡ 7 ∷ [])
read_envelope-bad_length_example =
    read_envelope-bad_length numbers (receiving (put_uint32 1 ++ 7 ∷ [])) 1 (7 ∷ []) refl refl
      (omega arith) (inl (omega arith)) refl

refused : (write_envelope numbers 13 (receiving [])).1 ≢ none
unfolding write_envelope
refused h = cc

read_envelope-missing_body_example :
    (read_envelope numbers (receiving (put_uint32 5))).1 ≡ failed (io eof)
read_envelope-missing_body_example =
    read_envelope-missing_body numbers (receiving (put_uint32 5)) 5 refl refl (omega arith)
      (omega arith) (omega arith) refl refl
