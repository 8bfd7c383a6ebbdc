-- ===== src/Protocol/Frame/Laws.antt =====
-- Reading one frame and the error paths of internal/protocol/framing.go.
use cablecheck.Base.{
  ℕ, zero, suc, ◌^◌, ◌≤◌, ◌<◌, ◌≡◌, ◌⊎◌, refl, Option, none, some, List, [], ◌∷◌, ◌++◌, length, ◌≢◌,
  arith, ◌∙◌, sym,
}
use mathlib.Core.List.{append-nil}
use cablecheck.Protocol.Frame.{
  min_frame_size, eof, FrameError, io, bad_length, poisoned, Codec, Conn, put_uint32, uint32,
  read_bytes, got, failed, read_full, decode_body, read_body, read_header, read_frame,
  read_envelope, write_body, write_envelope,
}

abbrev pub if_none : FrameError → Option FrameError → FrameError
if_none e none = e
if_none e (some d) = d

pub uint32-put_uint32 : (n : ℕ) → n < 2 ^ 32 → uint32 (put_uint32 n) ≡ n
unfolding uint32 put_uint32
uint32-put_uint32 n h = omega arith

pub read_bytes-append : (xs rest : List ℕ) → read_bytes (length xs) (xs ++ rest) ≡ some (xs, rest)
unfolding read_bytes
read_bytes-append [] rest = refl
read_bytes-append (x ∷ xs) rest = rw (read_bytes-append xs rest)

pub read_full-append :
    (c : Conn) (xs rest : List ℕ)
    → c.input ≡ xs ++ rest
    → read_full (length xs) c ≡ (record c { input = rest }, got xs)
unfolding read_full
read_full-append c xs rest h = ground (arith, read_bytes-append xs rest)

pub read_full-header :
    (c : Conn) (n : ℕ) (rest : List ℕ)
    → c.input ≡ put_uint32 n ++ rest
    → read_full 4 c ≡ (record c { input = rest }, got (put_uint32 n))
unfolding put_uint32
read_full-header c n rest h = read_full-append c (put_uint32 n) rest h

module _ {E : Type 0} (json : Codec E) where
  open json use {marshal, unmarshal}

  -- After a failed read every later read fails at once, naming a failure that came before, and
  -- nothing of the connection changes, the input included.
  pub read_envelope-poisoned :
      (c : Conn) (e : FrameError)
      → (read_envelope json c).1 ≡ failed e
      → let c' = (read_envelope json c).0 in
        ((read_envelope json c').0 ≡ c')
        × ((read_envelope json c').1 ≡ failed (poisoned (if_none e c.read_err)))
  unfolding read_envelope
  read_envelope-poisoned c e h = ground arith

  pub read_frame-header :
      (c : Conn) (n : ℕ) (rest : List ℕ)
      → c.read_deadline_error ≡ none
      → n < 2 ^ 32
      → c.input ≡ put_uint32 n ++ rest
      → read_frame json c ≡ read_body json n (record c { input = rest })
  unfolding read_frame read_header
  read_frame-header c n rest d l i =
      ground (arith, read_full-header c n rest i, uint32-put_uint32 n l)

  -- On a connection that has not failed before and can set its read deadline, a header that
  -- declares a length outside the bounds fails the read, and only the four bytes of the header are
  -- consumed.
  pub read_envelope-bad_length :
      (c : Conn) (n : ℕ) (rest : List ℕ)
      → c.read_err ≡ none
      → c.read_deadline_error ≡ none
      → n < 2 ^ 32
      → (n < min_frame_size) ⊎ (c.max_frame < n)
      → c.input ≡ put_uint32 n ++ rest
      → ((read_envelope json c).1 ≡ failed (bad_length n)) × ((read_envelope json c).0.input ≡ rest)
  unfolding read_envelope read_body
  read_envelope-bad_length c n rest p d l b i = ground (arith, read_frame-header c n rest d l i)

  -- An envelope that could not be sent, on a connection whose Write does not fail, leaves the
  -- connection as it was: nothing of it is written.
  pub write_envelope-output :
      (env : E) (c : Conn)
      → c.write_error ≡ none
      → (write_envelope json env c).1 ≢ none
      → (write_envelope json env c).0 ≡ c
  unfolding write_envelope write_body
  write_envelope-output env c w h = ground arith

  -- On a connection that has not failed before, can set its read deadline and has a limit that
  -- fits 32 bits: if the peer closes it right behind a header with a length in the bounds, the
  -- read fails with the plain end of file.
  pub read_envelope-missing_body :
      (c : Conn) (n : ℕ)
      → c.read_err ≡ none
      → c.read_deadline_error ≡ none
      → min_frame_size ≤ n
      → n ≤ c.max_frame
      → c.max_frame < 2 ^ 32
      → c.ending ≡ eof
      → c.input ≡ put_uint32 n
      → (read_envelope json c).1 ≡ failed (io eof)
  unfolding read_envelope read_body decode_body read_full read_bytes
  read_envelope-missing_body c zero p d l u m e i = absurd (omega (arith, l))
  read_envelope-missing_body c (suc n) p d l u m e i = ground (
    arith,
    read_frame-header c (suc n) [] d (omega arith) (i ∙ sym (append-nil (put_uint32 (suc n)))),
  )
