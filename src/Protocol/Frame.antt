-- ===== src/Protocol/Frame.antt =====
-- internal/protocol/framing.go: length-prefixed envelopes over a byte stream. encoding/json and the
-- Envelope struct behind it are a parameter. Of the connection the model has the bytes that will
-- arrive and the error that ends them (a fired deadline is such an error), the bytes written, and
-- the errors that setting a deadline and writing may return, a write after some of its bytes; the locks are not modelled, each call
-- is one step. The nil check of WriteEnvelope has no counterpart.
pub mod Laws
pub mod RoundTrip
use cablecheck.Base.{
  ℕ, zero, suc, ◌+◌, ◌*◌, ◌/◌, ◌%◌, ◌^◌, ◌≡◌, Bool, ◌||◌, Option, none, some, List, [], ◌∷◌, ◌++◌,
  length, take, drop, is_empty, ltb, if◌then◌else◌,
}

abbrev pub max_frame_size : ℕ
max_frame_size = 2 ^ 20

abbrev pub min_frame_size : ℕ
min_frame_size = 2

-- An error of the connection.
pub data IoError : Type 0 where
  eof unexpected_eof deadline_exceeded closed : IoError

pub data FrameError : Type 0 where
  io : IoError → FrameError
  -- a declared length outside the bounds; a body that is no envelope, with its length
  bad_length invalid_json : ℕ → FrameError
  -- an outbound body that is too large, with its length; an envelope that json refuses
  too_large : ℕ → FrameError
  marshal_failed : FrameError
  -- a read after an earlier failure, with that failure
  poisoned : FrameError → FrameError

-- encoding/json on envelopes.
pub record Codec (E : Type 0) : Type 0 where
  pub marshal : E → Option (List ℕ)
  pub unmarshal : List ℕ → Option E

pub record Conn : Type 0 where
  -- the bytes still to be read, and the error behind them
  pub input : List ℕ
  pub ending : IoError
  -- the error of SetReadDeadline and of SetWriteDeadline, if any
  pub read_deadline_error : Option IoError
  pub write_deadline_error : Option IoError
  -- the error of Write, if any, and the number of bytes that get out before it
  pub write_error : Option (ℕ × IoError)
  pub output : List ℕ
  pub read_err : Option FrameError
  pub max_frame : ℕ

-- binary.BigEndian.PutUint32 and Uint32.
unfoldable pub put_uint32 : ℕ → List ℕ
put_uint32 n = n / 2 ^ 24 % 256 ∷ n / 2 ^ 16 % 256 ∷ n / 2 ^ 8 % 256 ∷ n % 256 ∷ []

unfoldable pub uint32 : List ℕ → ℕ
uint32 (a ∷ b ∷ c ∷ d ∷ []) = a * 2 ^ 24 + b * 2 ^ 16 + c * 2 ^ 8 + d
uint32 _ = 0

-- The next n bytes and what is behind them; nothing if there are fewer.
unfoldable pub read_bytes : ℕ → List ℕ → Option (List ℕ × List ℕ)
read_bytes zero xs = some ([], xs)
read_bytes (suc n) [] = none
read_bytes (suc n) (x ∷ xs) = elim (read_bytes n xs) [
  | none ↦ none
  | some (bs, rest) ↦ some (x ∷ bs, rest)
]

-- The error of io.ReadFull on an input that is too short: a plain end of file after some bytes
-- becomes an unexpected one.
abbrev short_read : List ℕ → IoError → IoError
short_read [] e = e
short_read (_ ∷ _) eof = unexpected_eof
short_read (_ ∷ _) e = e

pub data Read (A : Type 0) : Type 0 where
  got : A → Read A
  failed : FrameError → Read A

-- io.ReadFull of n bytes; a short read consumes what there is.
unfoldable pub read_full : ℕ → Conn → Conn × Read (List ℕ)
read_full n c = elim (read_bytes n c.input) [
  | none ↦ (record c { input = [] }, failed (io (short_read c.input c.ending)))
  | some (bs, rest) ↦ (record c { input = rest }, got bs)
]

module _ {E : Type 0} (json : Codec E) where
  open json use {marshal, unmarshal}

  -- `json.Unmarshal` on a body of n bytes.
  unfoldable pub decode_body : ℕ → Conn × Read (List ℕ) → Conn × Read E
  decode_body n (c, failed e) = (c, failed e)
  decode_body n (c, got body) = elim (unmarshal body) [
    | none ↦ (c, failed (invalid_json n))
    | some env ↦ (c, got env)
  ]

  -- `readEnvelope` behind its header, on the declared length.
  unfoldable pub read_body : ℕ → Conn → Conn × Read E
  read_body n c =
      if ltb n min_frame_size || ltb c.max_frame n
      then (c, failed (bad_length n))
      else decode_body n (read_full n c)

  -- `readEnvelope` on the header's bytes.
  unfoldable pub read_header : Conn × Read (List ℕ) → Conn × Read E
  read_header (c, failed e) = (c, failed e)
  read_header (c, got header) = read_body (uint32 header) c

  unfoldable pub read_frame : Conn → Conn × Read E
  read_frame c = elim c.read_deadline_error [
    | some e ↦ (c, failed (io e))
    | none ↦ read_header (read_full 4 c)
  ]

  -- `ReadEnvelope`: a failure poisons the connection.
  unfoldable pub read_envelope : Conn → Conn × Read E
  read_envelope c = elim c.read_err [
    | some e ↦ (c, failed (poisoned e))
    | none ↦
        (let (c', r) = read_frame c in
          elim r [
            | failed e ↦ (record c' { read_err = some e }, failed e)
            | got env ↦ (c', got env)
          ])
  ]

  -- The wire part of `WriteEnvelope`.
  unfoldable pub write_body : List ℕ → Conn → Conn × Option FrameError
  write_body body c =
      if ltb c.max_frame (length body)
      then (c, some (too_large (length body)))
      else (let buf = put_uint32 (length body) ++ body in
          elim c.write_deadline_error [
            | some e ↦ (c, some (io e))
            | none ↦ elim c.write_error [
              | some (n, e) ↦ (record c { output = c.output ++ take n buf }, some (io e))
              | none ↦ (record c { output = c.output ++ buf }, none)
            ]
          ])

  unfoldable pub write_envelope : E → Conn → Conn × Option FrameError
  write_envelope env c = elim (marshal env) [
    | none ↦ (c, some marshal_failed)
    | some body ↦ write_body body c
  ]

  -- Envelopes written one after another; the first error stops.
  unfoldable pub write_all : List E → Conn → Conn × Option FrameError
  write_all [] c = (c, none)
  write_all (env ∷ envs) c =
      let (c', r) = write_envelope env c in
      let rest = write_all envs c' in elim r [ some e ↦ (c', some e) | none ↦ rest ]

  -- n envelopes read one after another; the first error stops.
  unfoldable pub read_all : ℕ → Conn → Conn × List E
  read_all zero c = (c, [])
  read_all (suc n) c =
      let (c', r) = read_envelope c in
      let rest = read_all n c' in elim r [ failed e ↦ (c', []) | got env ↦ (rest.0, env ∷ rest.1) ]
