-- ===== src/Protocol/Frame/RoundTrip.antt =====
-- Writing and reading frames, internal/protocol/framing.go: the two sides together.
use cablecheck.Base.{
  ℕ, suc, ◌^◌, ◌≤◌, ◌<◌, ◌≡◌, refl, none, some, List, [], ◌∷◌, ◌++◌, length, arith, Option-cases,
  inl, inr, ◌∙◌, ap, sym,
}
use mathlib.Core.List.{append_assoc, append-nil}
use cablecheck.Protocol.Frame.{
  min_frame_size, Codec, Conn, put_uint32, got, decode_body, read_body, read_frame, read_envelope,
  write_body, write_envelope, write_all, read_all,
}
use cablecheck.Protocol.Frame.Laws.{read_full-append, read_frame-header}

-- What the code relies on of encoding/json: an envelope that was encoded is decoded again, and its
-- body has at least the two bytes of an empty object.
pub record IsLawful {E : Type 0} (json : Codec E) : Type 0 where
  pub unmarshal-marshal :
      (env : E) (body : List ℕ) → json.marshal env ≡ some body → json.unmarshal body ≡ some env
  pub min-le-length :
      (env : E) (body : List ℕ) → json.marshal env ≡ some body → min_frame_size ≤ length body

module _ {E : Type 0} (json : Codec E) where
  open json use {marshal, unmarshal}

  -- One frame: the length prefix and the body of an envelope that fits.
  pub record IsFrame (env : E) (limit : ℕ) (frame : List ℕ) : Type 0 where
    pub body : List ℕ
    pub encoded : marshal env ≡ some body
    pub fits : length body ≤ limit
    pub framed : frame ≡ put_uint32 (length body) ++ body

  write_envelope-IsFrame :
      (env : E) (c : Conn)
      → (write_envelope json env c).1 ≡ none
      → (frame : List ℕ) × IsFrame env c.max_frame frame
        × ((write_envelope json env c).0 ≡ record c { output = c.output ++ frame })
  unfolding write_envelope write_body
  write_envelope-IsFrame env c h = elim (Option-cases (marshal env)) [
    | inl e ↦ absurd (ground arith)
    | inr (body, e) ↦ (
      put_uint32 (length body) ++ body,
      record { body = body; encoded = e; fits = ground arith; framed = refl },
      ground arith,
    )
  ]

  read_body-got :
      (n : ℕ) (body rest : List ℕ) (env : E) (c : Conn)
      → min_frame_size ≤ length body
      → length body ≤ c.max_frame
      → unmarshal body ≡ some env
      → c.input ≡ body ++ rest
      → n ≡ length body
      → read_body json n c ≡ (record c { input = rest }, got env)
  unfolding read_body decode_body
  read_body-got n body rest env c l u e i k = ground (arith, read_full-append c body rest i)

  read_frame-got :
      (body rest : List ℕ) (env : E) (c : Conn)
      → min_frame_size ≤ length body
      → length body ≤ c.max_frame
      → c.max_frame < 2 ^ 32
      → c.read_deadline_error ≡ none
      → unmarshal body ≡ some env
      → c.input ≡ put_uint32 (length body) ++ (body ++ rest)
      → read_frame json c ≡ (record c { input = rest }, got env)
  read_frame-got body rest env c l u m d e i =
      read_frame-header json c (length body) (body ++ rest) d (omega arith) i
      ∙ read_body-got (length body) body rest env (record c { input = body ++ rest }) l u e refl
          refl

  read_envelope-got :
      (c c' : Conn) (env : E)
      → c.read_err ≡ none
      → read_frame json c ≡ (c', got env)
      → read_envelope json c ≡ (c', got env)
  unfolding read_envelope
  read_envelope-got c c' env p h = ground arith

  read_envelope-IsFrame :
      IsLawful json
      → (env : E) (limit : ℕ) (frame rest : List ℕ) (c : Conn) → IsFrame env limit frame
      → limit ≤ c.max_frame
      → c.max_frame < 2 ^ 32
      → c.read_err ≡ none
      → c.read_deadline_error ≡ none
      → c.input ≡ frame ++ rest
      → read_envelope json c ≡ (record c { input = rest }, got env)
  read_envelope-IsFrame law env limit frame rest c f l m p d i =
      read_envelope-got c (record c { input = rest }) env p
        (read_frame-got f.body rest env c (law.min-le-length env f.body f.encoded)
          (omega (arith, f.fits)) m d (law.unmarshal-marshal env f.body f.encoded)
          (i
            ∙ (ap (λ xs. xs ++ rest) f.framed
                ∙ append_assoc (put_uint32 (length f.body)) f.body rest)))

  -- The frames of a list of envelopes, one after another.
  abbrev pub Stream : List E → ℕ → List ℕ → Type 0
  Stream [] limit bytes = bytes ≡ []
  Stream (env ∷ envs) limit bytes =
      (frame tail : List ℕ) × IsFrame env limit frame
      × Stream envs limit tail
      × (bytes ≡ frame ++ tail)

  write_all-cons :
      (env : E) (envs : List E) (c : Conn)
      → (write_envelope json env c).1 ≡ none
      → write_all json (env ∷ envs) c ≡ write_all json envs (write_envelope json env c).0
  unfolding write_all
  write_all-cons env envs c h = rw (h, write_all)

  write_all-first :
      (env : E) (envs : List E) (c : Conn)
      → (write_all json (env ∷ envs) c).1 ≡ none
      → (write_envelope json env c).1 ≡ none
  unfolding write_all
  write_all-first env envs c h = ground arith

  write_all-Stream :
      (envs : List E) (c : Conn)
      → (write_all json envs c).1 ≡ none
      → (bytes : List ℕ) × Stream envs c.max_frame bytes
        × ((write_all json envs c).0 ≡ record c { output = c.output ++ bytes })
  unfolding write_all
  write_all-Stream [] c h =
      ([], refl, sym (ap (λ o. record c { output = o }) (append-nil c.output)))
  write_all-Stream (env ∷ envs) c h =
      let first = write_all-first env envs c h in
      let (frame, is_frame, sent) = write_envelope-IsFrame env c first in
      let c1 : Conn = record c { output = c.output ++ frame } in
      let step = write_all-cons env envs c first ∙ ap (write_all json envs) sent in
      let (tail, stream, all_sent) = write_all-Stream envs c1 (ap (λ r. r.1) (sym step) ∙ h) in
      (
        frame ++ tail,
        (frame, tail, is_frame, stream, refl),
        ap (λ r. r.0) step
            ∙ (all_sent ∙ ap (λ o. record c { output = o }) (append_assoc c.output frame tail)),
      )

  read_all-cons :
      (n : ℕ) (env : E) (c c' : Conn)
      → read_envelope json c ≡ (c', got env)
      → read_all json (suc n) c ≡ ((read_all json n c').0, env ∷ (read_all json n c').1)
  unfolding read_all
  read_all-cons n env c c' h = ground arith

  read_all-Stream :
      IsLawful json
      → (envs : List E) (limit : ℕ) (bytes rest : List ℕ) (c : Conn) → Stream envs limit bytes
      → limit ≤ c.max_frame
      → c.max_frame < 2 ^ 32
      → c.read_err ≡ none
      → c.read_deadline_error ≡ none
      → c.input ≡ bytes ++ rest
      → read_all json (length envs) c ≡ (record c { input = rest }, envs)
  unfolding read_all
  read_all-Stream law [] limit bytes rest c s l m p d i =
      let same : c.input ≡ rest = i ∙ ap (λ b. b ++ rest) s in
      ap (λ b. (record c { input = b }, [])) same
  read_all-Stream law (env ∷ envs) limit bytes rest c (frame, tail, f, s, e) l m p d i =
      let input = i ∙ (ap (λ b. b ++ rest) e ∙ append_assoc frame tail rest) in
      let c1 : Conn = record c { input = tail ++ rest } in
      let first = read_envelope-IsFrame law env limit frame (tail ++ rest) c f l m p d input in
      let later = read_all-Stream law envs limit tail rest c1 s l m p d refl in
      read_all-cons (length envs) env c c1 first ∙ ap (λ r. (r.0, env ∷ r.1)) later

  -- With a lawful JSON codec: the envelopes that one side wrote without an error on a connection
  -- with nothing written yet, and that arrive in front of any other bytes on a connection of the
  -- other side that has not failed, can set its read deadline, and has a limit that is no smaller
  -- and fits 32 bits, are read back one by one, the same and in the same order, and just their
  -- bytes are consumed.
  pub read_all-write_all :
      IsLawful json
      → (envs : List E) (c d : Conn) (rest : List ℕ) → (write_all json envs c).1 ≡ none
      → c.output ≡ []
      → c.max_frame ≤ d.max_frame
      → d.max_frame < 2 ^ 32
      → d.read_err ≡ none
      → d.read_deadline_error ≡ none
      → d.input ≡ (write_all json envs c).0.output ++ rest
      → read_all json (length envs) d ≡ (record d { input = rest }, envs)
  read_all-write_all law envs c d rest h o l m p e i =
      let (bytes, stream, sent) = write_all-Stream envs c h in
      let wrote : (write_all json envs c).0.output ≡ bytes =
        ap (λ k. k.output) sent ∙ ap (λ b. b ++ bytes) o in
      read_all-Stream law envs c.max_frame bytes rest d stream l m p e
        (i ∙ ap (λ b. b ++ rest) wrote)
