-- ===== src/Reporting/Transfer/Handover.antt =====
-- A whole transfer of internal/reporting: the manifest built, the files sent and received, over a
-- channel that loses nothing and disks that work.
use cablecheck.Base.{true, false, none, some, List, [], ◌∷◌, ◌++◌}
use cablecheck.Base.Text.{String}
use cablecheck.Reporting.Transfer.{TransferFile, Manifest, ChunkFrame, AckFrame, Stat}
use cablecheck.Reporting.Transfer.Send.{stream_file_chunks, Attempt}
use cablecheck.Reporting.Transfer.Receive.{manifest, Input, Receiver, open_part}
use cablecheck.Reporting.Transfer.Delivery.{accepted_by}
use cablecheck.Reporting.Transfer.Manifests.{content_of}

-- The ack that accepts a file, and the attempt that it answers.
abbrev pub ack_of : TransferFile → AckFrame
ack_of f = record { name = f.name; ok = true; declined = false }

-- The frame that opens the transfer, while everything works.
abbrev pub opens : Manifest → Input
opens m = record {
  frame = manifest m;
  ack_works = true;
  open_works = true;
  write_works = true;
  commit_works = true;
}

module _ (disk : String → Stat) where
  abbrev pub answered : TransferFile → Attempt
  answered f = record {
    on_disk = some (content_of (disk f.name));
    cut_after = none;
    ack = some (ack_of f);
  }

  -- The chunks of all files, one after another.
  abbrev pub all_chunks : List TransferFile → List ChunkFrame
  all_chunks [] = []
  all_chunks (f ∷ fs) = stream_file_chunks f.name (content_of (disk f.name)) ++ all_chunks fs

  -- The receiver after it has accepted each file as it is on the sender's disk.
  abbrev pub accept_all : List TransferFile → Receiver → Receiver
  accept_all [] r = r
  accept_all (f ∷ fs) r =
      accept_all fs (accepted_by f (content_of (disk f.name)) (open_part f.name r))
