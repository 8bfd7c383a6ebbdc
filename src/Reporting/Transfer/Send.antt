-- ===== src/Reporting/Transfer/Send.antt =====
-- internal/reporting/transfer_send.go: cutting a file into chunks, and the attempts to send it. What
-- the file system and the channel do in an attempt is its input.
use cablecheck.Base.{
  Bool, ℕ, zero, suc, ◌+◌, ◌&&◌, Option, none, some, List, [], ◌∷◌, ◌++◌, length, take, drop, ltb,
  if◌then◌else◌,
}
use cablecheck.Base.Int.{pos}
use cablecheck.Base.Text.{String, str_eq}
use cablecheck.Reporting.Transfer.{
  Manifest, Stat, built, refused, build_manifest, chunk_size, TransferFile, ChunkFrame, AckFrame,
  ManifestError,
}

abbrev pub max_file_retries : ℕ
max_file_retries = 1

-- The loop of `streamFileChunks` for buffers of k bytes, on the bytes that are left. A read that is
-- shorter than the buffer, the empty one included, is the last.
unfoldable pub chunks : ℕ → ℕ → String → ℕ → ℕ → List ℕ → List ChunkFrame
chunks zero k name seq offset bytes = []
chunks (suc fuel) k name seq offset bytes =
    let buf = take k bytes in
    let last = ltb (length buf) k in
    let chunk : ChunkFrame = record {
      name = name;
      seq = pos seq;
      offset = pos offset;
      contents = buf;
      last = last;
    } in
    let rest = chunks fuel k name (seq + 1) (offset + length buf) (drop k bytes) in
    chunk ∷ (if last then [] else rest)

-- `streamFileChunks`. Each round but the last takes at least one byte, so the fuel is enough.
unfoldable pub stream_file_chunks : String → List ℕ → List ChunkFrame
stream_file_chunks name bytes = chunks (suc (length bytes)) chunk_size name 0 0 bytes

-- What happens in an attempt: the bytes on disk, if the file can be opened and read; how many chunks
-- go out before the channel fails, if it does; and the ack, if one comes.
pub record Attempt : Type 0 where
  pub on_disk : Option (List ℕ)
  pub cut_after : Option ℕ
  pub ack : Option AckFrame

pub data SendError : Type 0 where
  manifest_declined stream_failed no_ack : SendError
  rejected : String → SendError
  not_built : ManifestError → SendError

-- An ack, read: the error that ends the file, or its acceptance, or a refusal to try again.
pub data Reply : Type 0 where
  accepted try_again : Reply
  ended : SendError → Reply

unfoldable pub read_ack : TransferFile → Option AckFrame → Reply
read_ack f none = ended no_ack
read_ack f (some ack) =
    if ack.declined
    then ended manifest_declined
    else if ack.ok && str_eq ack.name f.name
    then accepted
    else try_again

-- One attempt of `sendOneFile`: the chunks that go out, and the reply.
unfoldable pub attempt_file : TransferFile → Attempt → List ChunkFrame × Reply
attempt_file f a = elim a.on_disk [
  | none ↦ ([], ended stream_failed)
  | some bytes ↦ elim a.cut_after [
    | some n ↦ (take n (stream_file_chunks f.name bytes), ended stream_failed)
    | none ↦ (stream_file_chunks f.name bytes, read_ack f a.ack)
  ]
]

-- The loop of `sendOneFile`, with n attempts left: the chunks sent, the error, and what is still to
-- come. An attempt that never happens is a closed session.
unfoldable pub send_attempts :
    ℕ → TransferFile → List Attempt → List ChunkFrame × Option SendError × List Attempt
send_attempts zero f attempts = ([], some (rejected f.name), attempts)
send_attempts (suc n) f [] = ([], some stream_failed, [])
send_attempts (suc n) f (a ∷ attempts) =
    let (sent, reply) = attempt_file f a in
    let (later, error, rest) = send_attempts n f attempts in
    elim reply [
      | accepted ↦ (sent, none, attempts)
      | ended e ↦ (sent, some e, attempts)
      | try_again ↦ (sent ++ later, error, rest)
    ]

abbrev pub send_one_file :
    TransferFile → List Attempt → List ChunkFrame × Option SendError × List Attempt
send_one_file f attempts = send_attempts (suc max_file_retries) f attempts

-- The loop of `SendReports` over the files: the chunks sent, and the error. A decline is none.
unfoldable pub send_files : List TransferFile → List Attempt → List ChunkFrame × Option SendError
send_files [] attempts = ([], none)
send_files (f ∷ files) attempts =
    let (sent, error, rest) = send_one_file f attempts in
    let (later, later_error) = send_files files rest in
    elim error [
      | none ↦ (sent ++ later, later_error)
      | some manifest_declined ↦ (sent, none)
      | some e ↦ (sent, some e)
    ]

module _ (sha : List ℕ → String) where
  -- `SendReports`: the manifest that goes out, the chunks, and the error. Whether sending the manifest
  -- works is an input.
  unfoldable pub send_reports :
      (String → Stat) → Bool → List Attempt → Option Manifest × List ChunkFrame × Option SendError
  send_reports disk works attempts = elim (build_manifest sha disk) [
    | refused e ↦ (none, [], some (not_built e))
    | built m ↦
        if works
        then (let (sent, error) = send_files m.files attempts in (some m, sent, error))
        else (none, [], some stream_failed)
  ]
