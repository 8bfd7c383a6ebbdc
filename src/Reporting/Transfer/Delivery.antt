-- ===== src/Reporting/Transfer/Delivery.antt =====
-- The chunks of internal/reporting/transfer_send.go read by the loop of transfer_recv.go, over a
-- channel that loses nothing and a disk that works.
use mathlib.Core.List.{append_assoc}
use cablecheck.Base.{
  ℕ, zero, suc, ◌+◌, ◌≤◌, ◌<◌, ◌≡◌, refl, ap, sym, ◌∙◌, Bool, true, false, Option, none, some, List,
  [], ◌∷◌, ◌++◌, map, ltb→lt, length, take, drop, ltb, length-append, arith, Bool-cases, inl, inr,
  if◌then◌else◌,
}
use cablecheck.Base.Int.{pos, ◌≤ℤ◌}
use cablecheck.Base.Text.{String, eq_iff, eq_refl}
use cablecheck.Reporting.Transfer.{chunk_size, TransferFile, ChunkFrame, safe_report_name}
use cablecheck.Reporting.Transfer.Send.{chunks, stream_file_chunks}
use cablecheck.Reporting.Transfer.Receive.{
  chunk, Input, ReceiveError, Receiver, Loop, go, stop, finish_file, write_chunk, place_chunk,
  open_part, cleanup, commit_part, receive_chunk, round, receive_loop,
}
use cablecheck.Reporting.Transfer.Rounds.{with_part, receive_loop-go, receive_loop-stop}

module _ {ℓ} {A : Type ℓ} where
  pub take-drop : (n : ℕ) (xs : List A) → take n xs ++ drop n xs ≡ xs
  take-drop zero xs = refl
  take-drop (suc n) [] = refl
  take-drop (suc n) (x ∷ xs) = ap (λ ys. x ∷ ys) (take-drop n xs)

  pub length-take-le : (n : ℕ) (xs : List A) → length (take n xs) ≤ n
  length-take-le zero xs = omega arith
  length-take-le (suc n) [] = omega arith
  length-take-le (suc n) (x ∷ xs) = omega (arith, length-take-le n xs)

  -- A short read takes all.
  pub take_short : (n : ℕ) (xs : List A) → length (take n xs) < n → take n xs ≡ xs
  take_short zero xs h = absurd (omega (arith, h))
  take_short (suc n) [] h = refl
  take_short (suc n) (x ∷ xs) h = ap (λ ys. x ∷ ys) (take_short n xs (omega (arith, h)))

-- A frame that arrives while everything works.
abbrev pub arrives : ChunkFrame → Input
arrives c = record {
  frame = chunk c;
  ack_works = true;
  open_works = true;
  write_works = true;
  commit_works = true;
}

-- The receiver with an open part file, after it has accepted the file.
abbrev pub accepted_by : TransferFile → List ℕ → Receiver → Receiver
accepted_by f bytes r = record (commit_part f.name bytes r) {
  acks = r.acks ++ record { name = f.name; ok = true; declined = false } ∷ [];
}

module _ (sha : List ℕ → String) (f : TransferFile) where
  -- The bytes are what the entry declares.
  pub record IsDeclared (bytes : List ℕ) : Type 0 where
    pub sized : pos (length bytes) ≡ f.size
    pub digested : sha bytes ≡ f.sha256
    pub safe : safe_report_name f.name ≡ true

  finish_file-declared :
      (c : ChunkFrame) (bytes : List ℕ) (l : Loop)
      → IsDeclared bytes
      → finish_file sha f (arrives c) bytes l ≡ stop (accepted_by f bytes l.here) none
  unfolding finish_file
  finish_file-declared c bytes l h =
      ground (arith, h.sized, h.digested, eq_iff (sha bytes) f.sha256)

  -- A chunk in sequence and within the fences is written, and the last one ends the file.
  place_chunk-fits :
      (c : ChunkFrame) (l : Loop) (got : List ℕ)
      → l.here.part ≡ some got
      → c.offset ≡ pos (length got)
      → length c.contents ≤ chunk_size
      → pos (length got + length c.contents) ≤ℤ f.size
      → place_chunk sha f (arrives c) c l ≡ (
          if c.last
          then finish_file sha f (arrives c) (got ++ c.contents) (with_part l (got ++ c.contents))
          else go (with_part l (got ++ c.contents)))
  unfolding place_chunk write_chunk
  place_chunk-fits c l got p o b w = ground (arith, length-append got c.contents)

  size_left :
      (k : ℕ) (got left : List ℕ)
      → IsDeclared (got ++ left)
      → pos (length got + length (take k left)) ≤ℤ f.size
  size_left k got left h = ground (
    arith,
    h.sized,
    length-append got left,
    length-append (take k left) (drop k left),
    ap (λ (xs : List ℕ). length xs) (take-drop k left),
  )

  abbrev chunk_of : ℕ → ℕ → ℕ → List ℕ → ChunkFrame
  chunk_of k seq offset bytes = record {
    name = f.name;
    seq = pos seq;
    offset = pos offset;
    contents = take k bytes;
    last = ltb (length (take k bytes)) k;
  }

  -- One chunk of the stream, at its place: the last one ends the file, another is written.
  place_chunk-stream :
      (k seq : ℕ) (l : Loop) (got left : List ℕ)
      → k ≤ chunk_size
      → l.here.part ≡ some got
      → IsDeclared (got ++ left)
      → place_chunk sha f
          (arrives (chunk_of k seq (length got) left))
          (chunk_of k seq (length got) left)
          l
        ≡ (if ltb (length (take k left)) k
            then stop (accepted_by f (got ++ left) l.here) none
            else go (with_part l (got ++ take k left)))
  place_chunk-stream k seq l got left b p h =
      let c = chunk_of k seq (length got) left in
      let fits =
        place_chunk-fits c l got p refl (omega (arith, b, length-take-le k left))
          (size_left k got left h) in
      elim (Bool-cases (ltb (length (take k left)) k)) [
        | inl e ↦
            (let all : take k left ≡ left = take_short k left (ltb→lt (length (take k left)) k e) in
              fits
              ∙ rw e (rw all (finish_file-declared _ (got ++ left) (with_part l (got ++ left)) h)))
        | inr e ↦ fits ∙ rw e
      ]

  -- A chunk behind the first, in an attempt that is going on, is placed.
  round-inside :
      (l : Loop) (c : ChunkFrame) (seq : ℕ)
      → c.name ≡ f.name
      → safe_report_name f.name ≡ true
      → l.draining ≡ false
      → c.seq ≡ pos seq
      → 0 < seq
      → round sha f l (arrives c) ≡ place_chunk sha f (arrives c) c l
  unfolding round receive_chunk
  round-inside l c seq n s d e z = ground (arith, eq_iff c.name f.name)

  abbrev pub after_stream : List ℕ → Loop → List Input → Receiver × Option ReceiveError × List Input
  after_stream bytes l more = (accepted_by f bytes l.here, none, more)

  glued : (k : ℕ) (got left : List ℕ) → (got ++ take k left) ++ drop k left ≡ got ++ left
  glued k got left =
      append_assoc got (take k left) (drop k left) ∙ ap (λ xs. got ++ xs) (take-drop k left)

  drop-lt :
      (fuel k : ℕ) (left : List ℕ)
      → length left < suc fuel
      → 0 < k
      → ltb (length (take k left)) k ≡ false
      → length (drop k left) < fuel
  drop-lt fuel k left u z e = ground (
    arith,
    length-append (take k left) (drop k left),
    ap (λ (xs : List ℕ). length xs) (take-drop k left),
  )

  -- The chunks that are left complete the file, whatever comes behind them.
  receive_loop-chunks :
      (fuel k seq offset : ℕ) (l : Loop) (got left : List ℕ) (more : List Input)
      → offset ≡ length got
      → length left < fuel
      → 0 < k
      → k ≤ chunk_size
      → 0 < seq
      → l.here.part ≡ some got
      → l.draining ≡ false
      → IsDeclared (got ++ left)
      → receive_loop sha f l (map arrives (chunks fuel k f.name seq offset left) ++ more)
        ≡ after_stream (got ++ left) l more
  unfolding chunks
  receive_loop-chunks zero k seq offset l got left more o u z b s p d h = absurd (omega (arith, u))
  receive_loop-chunks (suc fuel) k seq offset l got left more o u z b s p d h =
      let c = chunk_of k seq (length got) left in
      let l' = with_part l (got ++ take k left) in
      let later =
        chunks fuel k f.name (seq + 1) (length got + length (take k left)) (drop k left) in
      let tail = λ (last : Bool). map arrives (if last then [] else later) ++ more in
      let placed =
        round-inside l c seq refl h.safe d refl s ∙ place_chunk-stream k seq l got left b p h in
      rw o (elim (Bool-cases (ltb (length (take k left)) k)) [
        | inl e ↦
            receive_loop-stop sha f l (accepted_by f (got ++ left) l.here) none (arrives c)
              (tail (ltb (length (take k left)) k)) (placed ∙ rw e)
            ∙ ap (λ last. (accepted_by f (got ++ left) l.here, none, tail last)) e
        | inr e ↦
            receive_loop-go sha f l l' (arrives c) (tail (ltb (length (take k left)) k))
              (placed ∙ rw e)
            ∙ (ap (λ last. receive_loop sha f l' (tail last)) e
                ∙ (receive_loop-chunks fuel k (seq + 1) (length got + length (take k left)) l'
                      (got ++ take k left) (drop k left) more
                      (sym (length-append got (take k left))) (drop-lt fuel k left u z e) z b
                      (omega arith) refl d (rw (glued k got left) h)
                    ∙ ap (λ bytes. after_stream bytes l' more) (glued k got left)))
      ])

  abbrev pub opened : Loop → Loop
  opened l = record l { here = open_part f.name (cleanup l.here); draining = false }

  -- The first chunk opens a new part file, whatever the state of the loop.
  round-first :
      (l : Loop) (k : ℕ) (bytes : List ℕ)
      → safe_report_name f.name ≡ true
      → round sha f l (arrives (chunk_of k 0 0 bytes))
        ≡ place_chunk sha f (arrives (chunk_of k 0 0 bytes)) (chunk_of k 0 0 bytes) (opened l)
  unfolding round receive_chunk
  round-first l k bytes s = ground (arith, eq_refl f.name)

  receive_loop-stream :
      (k : ℕ) (l : Loop) (bytes : List ℕ) (more : List Input)
      → 0 < k
      → k ≤ chunk_size
      → IsDeclared bytes
      → receive_loop sha f l (map arrives (chunks (suc (length bytes)) k f.name 0 0 bytes) ++ more)
        ≡ after_stream bytes (opened l) more
  unfolding chunks
  receive_loop-stream k l bytes more z b h =
      let c = chunk_of k 0 0 bytes in
      let l' = with_part (opened l) (take k bytes) in
      let later =
        chunks (length bytes) k f.name (0 + 1) (0 + length (take k bytes)) (drop k bytes) in
      let tail = λ (last : Bool). map arrives (if last then [] else later) ++ more in
      let placed =
        round-first l k bytes h.safe ∙ place_chunk-stream k 0 (opened l) [] bytes b refl h in
      elim (Bool-cases (ltb (length (take k bytes)) k)) [
        | inl e ↦
            receive_loop-stop sha f l (accepted_by f bytes (opened l).here) none (arrives c)
              (tail (ltb (length (take k bytes)) k)) (placed ∙ rw e)
            ∙ ap (λ last. (accepted_by f bytes (opened l).here, none, tail last)) e
        | inr e ↦
            receive_loop-go sha f l l' (arrives c) (tail (ltb (length (take k bytes)) k))
              (placed ∙ rw e)
            ∙ (ap (λ last. receive_loop sha f l' (tail last)) e
                ∙ (receive_loop-chunks (length bytes) k (0 + 1) (0 + length (take k bytes)) l'
                      (take k bytes) (drop k bytes) more (omega arith)
                      (drop-lt (length bytes) k bytes (omega arith) z e) z b (omega arith) refl refl
                      (rw (take-drop k bytes) h)
                    ∙ ap (λ xs. after_stream xs l' more) (take-drop k bytes)))
      ]

  -- A file that is sent whole is accepted, from every state of the receiving loop, also in the middle
  -- of an attempt that was refused.
  pub receive_loop-file :
      (l : Loop) (bytes : List ℕ) (more : List Input)
      → IsDeclared bytes
      → receive_loop sha f l (map arrives (stream_file_chunks f.name bytes) ++ more)
        ≡ after_stream bytes (opened l) more
  unfolding stream_file_chunks
  receive_loop-file l bytes more h =
      receive_loop-stream chunk_size l bytes more (omega arith) (omega arith) h
