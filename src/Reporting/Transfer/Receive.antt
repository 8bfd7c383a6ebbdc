-- ===== src/Reporting/Transfer/Receive.antt =====
-- internal/reporting/transfer_recv.go: receiving the report files. Each frame comes with what the file
-- system and the channel do while it is handled. The number of bytes written is a natural number: it
-- stays within the declared size, of at most 8 MiB, so that no sum of it wraps.
use cablecheck.Base.{
  ℕ, suc, ◌+◌, Bool, true, false, not, ◌&&◌, ◌||◌, Option, none, some, List, [], ◌∷◌, ◌++◌, length,
  ltb, if◌then◌else◌,
}
use cablecheck.Base.Int.{pos, ltb_ℤ, eqb_ℤ}
use cablecheck.Base.Text.{String, str_eq}
use cablecheck.Reporting.Transfer.{
  chunk_size, TransferFile, Manifest, ChunkFrame, AckFrame, safe_report_name, validate_manifest,
}
use cablecheck.Reporting.Transfer.Send.{max_file_retries}

pub data Frame : Type 0 where
  manifest : Manifest → Frame
  chunk : ChunkFrame → Frame

-- A frame, and whether sending an ack, opening, writing and committing the part file succeed.
pub record Input : Type 0 where
  pub frame : Frame
  pub ack_works : Bool
  pub open_works : Bool
  pub write_works : Bool
  pub commit_works : Bool

pub data ReceiveError : Type 0 where
  channel_failed no_manifest unexpected_manifest unexpected_name oversize local_failure :
      ReceiveError
  ack_failed : ReceiveError

-- The report directory with its final files, the part file that is open (its bytes are on disk) and the
-- name of the file that it is for, the names of which a part file is on disk, open or not, whether each
-- os.Remove to come succeeds (it does where the list has ended), and the acks sent, oldest first.
pub record Receiver : Type 0 where
  pub files : List (String × List ℕ)
  pub part : Option (List ℕ)
  pub part_name : String
  pub partials : List String
  pub removals : List Bool
  pub acks : List AckFrame

-- The variables of the loop of `receiveOneFile`, with the receiver.
pub record Loop : Type 0 where
  pub here : Receiver
  pub draining : Bool
  pub rejections : ℕ

-- A round of the loop goes on, or returns with an error or none.
pub data Round : Type 0 where
  go : Loop → Round
  stop : Receiver → Option ReceiveError → Round

-- A rename onto this name: a file that has it is replaced.
abbrev pub without_file : String → List (String × List ℕ) → List (String × List ℕ)
without_file name [] = []
without_file name ((other, bytes) ∷ files) =
    if str_eq other name then without_file name files else (other, bytes) ∷ without_file name files

abbrev pub replace : String → List ℕ → List (String × List ℕ) → List (String × List ℕ)
replace name bytes files = (name, bytes) ∷ without_file name files

abbrev pub forget : String → List String → List String
forget name [] = []
forget name (other ∷ names) =
    if str_eq other name then forget name names else other ∷ forget name names

-- The answer of the next os.Remove, and the later ones.
abbrev pub next_works : List Bool → Bool
next_works [] = true
next_works (b ∷ bs) = b

abbrev pub later_removals : List Bool → List Bool
later_removals [] = []
later_removals (b ∷ bs) = bs

-- `newPartWriter`, where it succeeds; a part file of this name that was left is truncated.
abbrev pub open_part : String → Receiver → Receiver
open_part name r = record r { part = some []; part_name = name; partials = name ∷ r.partials }

-- `abort`: the part file is closed and removed; that os.Remove fails goes unnoticed.
abbrev pub abort_part : Receiver → Receiver
abort_part r = record r {
  part = none;
  partials = if next_works r.removals then forget r.part_name r.partials else r.partials;
  removals = later_removals r.removals;
}

-- `cleanup`.
abbrev pub cleanup : Receiver → Receiver
cleanup r = elim r.part [ none ↦ r | some bytes ↦ abort_part r ]

-- `commit`, where it succeeds.
abbrev pub commit_part : String → List ℕ → Receiver → Receiver
commit_part name bytes r = record r {
  files = replace name bytes r.files;
  part = none;
  partials = forget r.part_name r.partials;
}

abbrev pub send_ack : Input → AckFrame → Receiver → Receiver
send_ack i a r = if i.ack_works then record r { acks = r.acks ++ a ∷ [] } else r

abbrev pub decline : AckFrame
decline = record { name = ""; ok = false; declined = true }

-- A fatal decline: the ack first, and its failure, if any, in place of the cause.
unfoldable pub decline_all : Input → ReceiveError → Receiver → Round
decline_all i e r =
    stop (send_ack i decline (cleanup r)) (some (if i.ack_works then e else ack_failed))

-- `declineOnLocalFailure`, after `cleanup`.
unfoldable pub decline_locally : Input → Receiver → Round
decline_locally i r = stop (send_ack i decline (cleanup r)) (some local_failure)

-- `reject`, and what the loop does with its answer.
unfoldable pub reject : TransferFile → Input → Loop → Round
reject f i l =
    let a : AckFrame = record { name = f.name; ok = false; declined = false } in
    let r = send_ack i a (cleanup l.here) in
    if not i.ack_works
    then stop r (some ack_failed)
    else if ltb max_file_retries (suc l.rejections)
    then stop r none
    else go (record { here = r; draining = true; rejections = suc l.rejections })

-- A chunk at sequence number 0 and offset 0 begins the file, or begins it again.
abbrev pub is_restart : ChunkFrame → Bool
is_restart c = eqb_ℤ c.seq (pos 0) && eqb_ℤ c.offset (pos 0)

module _ (sha : List ℕ → String) where
  -- The last chunk is written: the digest, the size, and the commit.
  unfoldable pub finish_file : TransferFile → Input → List ℕ → Loop → Round
  finish_file f i bytes l =
      if not (eqb_ℤ (pos (length bytes)) f.size) || not (str_eq (sha bytes) f.sha256)
      then reject f i l
      else if not i.commit_works
      then decline_locally i l.here
      else (let a : AckFrame = record { name = f.name; ok = true; declined = false } in
          let r = commit_part f.name bytes l.here in
          stop (send_ack i a r) (if i.ack_works then none else some ack_failed))

  -- The chunk is in sequence: the size fences, the write, and the last chunk.
  unfoldable pub write_chunk : TransferFile → Input → ChunkFrame → List ℕ → Loop → Round
  write_chunk f i c bytes l =
      if ltb chunk_size (length c.contents) || ltb_ℤ f.size (pos (length bytes + length c.contents))
      then decline_all i oversize l.here
      else if not i.write_works
      then decline_locally i l.here
      else (let bytes' = bytes ++ c.contents in
          let l' = record l { here = record l.here { part = some bytes' } } in
          if not c.last then go l' else finish_file f i bytes' l')

  -- The chunk against the part file.
  unfoldable pub place_chunk : TransferFile → Input → ChunkFrame → Loop → Round
  place_chunk f i c l = elim l.here.part [
    | none ↦ reject f i l
    | some bytes ↦
        if eqb_ℤ c.offset (pos (length bytes)) then write_chunk f i c bytes l else reject f i l
  ]

  unfoldable pub receive_chunk : TransferFile → Input → ChunkFrame → Loop → Round
  receive_chunk f i c l =
      if l.draining && not (is_restart c)
      then go l
      else if not (str_eq c.name f.name) || not (safe_report_name c.name)
      then decline_all i unexpected_name l.here
      else if not (is_restart c)
      then place_chunk f i c l
      else if not i.open_works
      then decline_locally i l.here
      else place_chunk f i c
          (record l { here = open_part c.name (cleanup l.here); draining = false })

  unfoldable pub round : TransferFile → Loop → Input → Round
  round f l i = elim i.frame [
    | manifest m ↦ stop (cleanup l.here) (some unexpected_manifest)
    | chunk c ↦ receive_chunk f i c l
  ]

  -- The loop of `receiveOneFile`; no further input is a channel failure.
  unfoldable pub receive_loop :
      TransferFile → Loop → List Input → Receiver × Option ReceiveError × List Input
  receive_loop f l [] = (cleanup l.here, some channel_failed, [])
  receive_loop f l (i ∷ inputs) = elim (round f l i) [
    | go l' ↦ receive_loop f l' inputs
    | stop r e ↦ (r, e, inputs)
  ]

  -- A file starts with no part file open: the variable for it is the loop's own.
  abbrev pub receive_one_file :
      TransferFile → Receiver → List Input → Receiver × Option ReceiveError × List Input
  receive_one_file f r inputs =
      receive_loop f (record { here = record r { part = none }; draining = false; rejections = 0 })
        inputs

  unfoldable pub receive_files :
      List TransferFile → Receiver → List Input → Receiver × Option ReceiveError
  receive_files [] r inputs = (r, none)
  receive_files (f ∷ files) r inputs =
      let (r', error, rest) = receive_one_file f r inputs in
      let later = receive_files files r' rest in elim error [ some e ↦ (r', some e) | none ↦ later ]

  -- `ReceiveReports`; `is_dir` is the answer of `ensureWritableDir`.
  unfoldable pub receive_reports : Bool → Receiver → List Input → Receiver × Option ReceiveError
  receive_reports is_dir r [] = (r, some channel_failed)
  receive_reports is_dir r (i ∷ inputs) = elim i.frame [
    | chunk c ↦ (r, some no_manifest)
    | manifest m ↦ elim (validate_manifest m) [
      | some e ↦ (send_ack i decline r, if i.ack_works then none else some ack_failed)
      | none ↦
          if is_dir
          then receive_files m.files r inputs
          else (send_ack i decline r, if i.ack_works then none else some ack_failed)
    ]
  ]
