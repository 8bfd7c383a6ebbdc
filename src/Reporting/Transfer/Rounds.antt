-- ===== src/Reporting/Transfer/Rounds.antt =====
-- The rounds of the receiving loop of internal/reporting/transfer_recv.go: what each does to the disk.
use cablecheck.Base.{
  ℕ, ◌≡◌, ◌⊎◌, inl, inr, refl, ap, ◌∙◌, Bool, true, false, ◌&&◌, Option, none, some, List, [], ◌∷◌,
  ◌++◌, length, length-append, arith, Option-cases,
}
use cablecheck.Base.Int.{pos, ◌≤ℤ◌, eqb_ℤ, ltb_ℤ}
use cablecheck.Base.Text.{String, str_eq, eq_iff, eq_refl}
use cablecheck.Reporting.Transfer.{TransferFile, Manifest, ChunkFrame, safe_report_name}
use cablecheck.Reporting.Transfer.Receive.{
  Frame, manifest, chunk, Input, ReceiveError, Receiver, replace, open_part, cleanup, Loop, Round,
  go, stop, decline_all, decline_locally, reject, finish_file, write_chunk, place_chunk,
  receive_chunk, round, receive_loop,
}

pub Frame-cases :
    (x : Frame) → ((m : Manifest) × (x ≡ manifest m)) ⊎ ((c : ChunkFrame) × (x ≡ chunk c))
Frame-cases (manifest m) = inl (m, refl)
Frame-cases (chunk c) = inr (c, refl)

pub Round-cases :
    (x : Round)
    → ((l : Loop) × (x ≡ go l)) ⊎ ((r : Receiver) × (e : Option ReceiveError) × (x ≡ stop r e))
Round-cases (go l) = inl (l, refl)
Round-cases (stop r e) = inr (r, e, refl)

-- The part file with these bytes.
abbrev pub with_part : Loop → List ℕ → Loop
with_part l bytes = record l { here = record l.here { part = some bytes } }

module _ (sha : List ℕ → String) where
  pub cleanup-files : (r : Receiver) → (cleanup r).files ≡ r.files
  cleanup-files r = ground arith

  cleanup-part : (r : Receiver) → (cleanup r).part ≡ none
  cleanup-part r = ground arith

  -- The bytes are those of the manifest entry, by their name, number and digest.
  abbrev pub matches : String × List ℕ → TransferFile → Bool
  matches (name, bytes) f =
      str_eq f.name name
      && (eqb_ℤ (pos (length bytes)) f.size
          && (str_eq (sha bytes) f.sha256 && safe_report_name name))

  -- The directory is as it was, or the entry's file is put under its name.
  abbrev pub Kept : TransferFile → List (String × List ℕ) → List (String × List ℕ) → Type 0
  Kept f before after =
      (after ≡ before)
      ⊎ ((bytes : List ℕ) × (after ≡ replace f.name bytes before)
          × (matches (f.name, bytes) f ≡ true))

  -- The part file is within the declared size.
  abbrev pub Within : TransferFile → Loop → Type 0
  Within f l = (bytes : List ℕ) → l.here.part ≡ some bytes → pos (length bytes) ≤ℤ f.size

  abbrev RoundKeeps : TransferFile → Loop → Round → Type 0
  RoundKeeps f l (go l') = (l'.here.files ≡ l.here.files) × Within f l'
  RoundKeeps f l (stop r e) = (r.part ≡ none) × Kept f l.here.files r.files

  -- The same, where the bytes of a new file are known.
  abbrev RoundKeepsAt : TransferFile → Loop → List ℕ → Round → Type 0
  RoundKeepsAt f l bytes (go l') = (l'.here.files ≡ l.here.files) × (l'.here.part ≡ none)
  RoundKeepsAt f l bytes (stop r e) =
      (r.part ≡ none)
      × ((r.files ≡ l.here.files)
          ⊎ ((r.files ≡ replace f.name bytes l.here.files) × (matches (f.name, bytes) f ≡ true)))

  pub closed-Within : (f : TransferFile) (l : Loop) → l.here.part ≡ none → Within f l
  closed-Within f l h bytes e = cc

  keeps_at :
      (f : TransferFile) (l m : Loop) (bytes : List ℕ) (r : Round)
      → m.here.files ≡ l.here.files
      → RoundKeepsAt f m bytes r
      → RoundKeeps f l r
  keeps_at f l m bytes (go l') s (e, p) = (e ∙ s, closed-Within f l' p)
  keeps_at f l m bytes (stop r e) s (p, inl same) = (p, inl (same ∙ s))
  keeps_at f l m bytes (stop r e) s (p, inr (more, t)) =
      (p, inr (bytes, more ∙ ap (replace f.name bytes) s, t))

  reject-keeps :
      (f : TransferFile) (i : Input) (l : Loop) (bytes : List ℕ)
      → RoundKeepsAt f l bytes (reject f i l)
  unfolding reject
  reject-keeps f i l bytes = ground arith

  finish_file-keeps :
      (f : TransferFile) (i : Input) (bytes : List ℕ) (l : Loop)
      → safe_report_name f.name ≡ true
      → RoundKeepsAt f l bytes (finish_file sha f i bytes l)
  unfolding finish_file reject decline_locally
  finish_file-keeps f i bytes l h = ground (arith, eq_refl f.name)

  -- The bytes written are within the size.
  fenced :
      (f : TransferFile) (l : Loop) (bytes : List ℕ)
      → ltb_ℤ f.size (pos (length bytes)) ≡ false
      → l.here.part ≡ some bytes
      → Within f l
  fenced f l bytes h p other e = let same : bytes ≡ other = cc in rw (← same) (ground arith)

  write_chunk-keeps :
      (f : TransferFile) (i : Input) (c : ChunkFrame) (bytes : List ℕ) (l : Loop)
      → safe_report_name f.name ≡ true
      → RoundKeeps f l (write_chunk sha f i c bytes l)
  unfolding write_chunk decline_all decline_locally
  write_chunk-keeps f i c bytes l h = ground (
    arith,
    keeps_at f l (with_part l (bytes ++ c.contents)) (bytes ++ c.contents)
        (finish_file sha f i (bytes ++ c.contents) (with_part l (bytes ++ c.contents))) refl
        (finish_file-keeps f i (bytes ++ c.contents) (with_part l (bytes ++ c.contents)) h),
    fenced f (with_part l (bytes ++ c.contents)) (bytes ++ c.contents),
    length-append bytes c.contents,
  )

  -- A round that keeps for a loop with the same files keeps for this one.
  keeps_same :
      (f : TransferFile) (l m : Loop) (r : Round)
      → m.here.files ≡ l.here.files
      → RoundKeeps f m r
      → RoundKeeps f l r
  keeps_same f l m (go l') s (e, k) = (e ∙ s, k)
  keeps_same f l m (stop r e) s (p, inl same) = (p, inl (same ∙ s))
  keeps_same f l m (stop r e) s (p, inr (bytes, more, t)) =
      (p, inr (bytes, more ∙ ap (replace f.name bytes) s, t))

  place_chunk-keeps :
      (f : TransferFile) (i : Input) (c : ChunkFrame) (l : Loop)
      → safe_report_name f.name ≡ true
      → RoundKeeps f l (place_chunk sha f i c l)
  unfolding place_chunk
  place_chunk-keeps f i c l h =
      let refused = keeps_at f l l [] (reject f i l) refl (reject-keeps f i l []) in
      elim (Option-cases l.here.part) [
        | inl e ↦ ground (arith, refused)
        | inr (bytes, e) ↦ ground (arith, refused, write_chunk-keeps f i c bytes l h)
      ]

  receive_chunk-keeps :
      (f : TransferFile) (i : Input) (c : ChunkFrame) (l : Loop)
      → Within f l
      → RoundKeeps f l (receive_chunk sha f i c l)
  unfolding receive_chunk decline_all decline_locally
  receive_chunk-keeps f i c l w =
      let fresh : Loop = record l { here = open_part c.name (cleanup l.here); draining = false } in
      ground (
        arith,
        eq_iff c.name f.name,
        place_chunk-keeps f i c l,
        place_chunk-keeps f i c fresh,
        keeps_same f l fresh (place_chunk sha f i c fresh) (cleanup-files l.here),
      )

  round-keeps :
      (f : TransferFile) (l : Loop) (i : Input) → Within f l → RoundKeeps f l (round sha f l i)
  unfolding round
  round-keeps f l i w = elim (Frame-cases i.frame) [
    | inl (m, e) ↦ ground arith
    | inr (c, e) ↦ ground (arith, receive_chunk-keeps f i c l w)
  ]

  -- The file is kept, or not, and no part file is left.
  abbrev pub FileKeeps : TransferFile → Loop → Receiver → Type 0
  FileKeeps f l r = (r.part ≡ none) × Kept f l.here.files r.files

  pub receive_loop-go :
      (f : TransferFile) (l l' : Loop) (i : Input) (inputs : List Input)
      → round sha f l i ≡ go l'
      → receive_loop sha f l (i ∷ inputs) ≡ receive_loop sha f l' inputs
  unfolding receive_loop
  receive_loop-go f l l' i inputs e = ground arith

  pub receive_loop-stop :
      (f : TransferFile) (l : Loop) (r : Receiver) (x : Option ReceiveError) (i : Input)
      (inputs : List Input)
      → round sha f l i ≡ stop r x
      → receive_loop sha f l (i ∷ inputs) ≡ (r, x, inputs)
  unfolding receive_loop
  receive_loop-stop f l r x i inputs e = ground arith

  pub receive_loop-keeps :
      (f : TransferFile) (l : Loop) (inputs : List Input)
      → Within f l
      → FileKeeps f l (receive_loop sha f l inputs).0
  unfolding receive_loop
  receive_loop-keeps f l [] w = (cleanup-part l.here, inl (cleanup-files l.here))
  receive_loop-keeps f l (i ∷ inputs) w =
      let kept = round-keeps f l i w in
      elim (Round-cases (round sha f l i)) [
        | inl (l', e) ↦
            (let (s, w') : (l'.here.files ≡ l.here.files) × Within f l' = rw e at kept in
              let (p, k) = receive_loop-keeps f l' inputs w' in
              rw (receive_loop-go f l l' i inputs e) (p, rw (← s) k))
        | inr (r, x, e) ↦
            (let stopped : (r.part ≡ none) × Kept f l.here.files r.files = rw e at kept in
              rw (receive_loop-stop f l r x i inputs e) stopped)
      ]
