-- ===== src/Reporting/Transfer.antt =====
-- internal/reporting/transfer.go: the frames of a report transfer, the allowlist of file names, and the
-- checks of a manifest on both sides. SHA-256 with its hexadecimal text is a parameter, a function on
-- bytes. The texts of errors are left out, their cause is kept.
pub mod Send
pub mod Receive
pub mod Rounds
pub mod Leftovers
pub mod Safety
pub mod Delivery
pub mod Manifests
pub mod Handover
use Prim.Native.Char.{code}
use cablecheck.Base.{
  ℕ, Bool, true, false, not, ◌&&◌, ◌||◌, Option, none, some, List, [], ◌∷◌, ◌++◌, any, length, ltb,
  ◌==◌, if◌then◌else◌,
}
use cablecheck.Base.Int.{ℤ, pos, add_int, ltb_ℤ}
use cablecheck.Base.Text.{String, str_eq}

abbrev pub chunk_size : ℕ
chunk_size = 262_144

abbrev pub max_transfer_file_size : ℕ
max_transfer_file_size = 8_388_608

abbrev pub max_transfer_total : ℕ
max_transfer_total = 16_777_216

abbrev pub allowed_report_files : List String
allowed_report_files = "report.json" ∷ "report.md" ∷ "summary.txt" ∷ []

-- The size is an int64, as the peer declares it.
pub record TransferFile : Type 0 where
  pub name : String
  pub size : ℤ
  pub sha256 : String

pub record Manifest : Type 0 where
  pub files : List TransferFile
  pub total_size : ℤ

-- `contents` is the field Data.
pub record ChunkFrame : Type 0 where
  pub name : String
  pub seq : ℤ
  pub offset : ℤ
  pub contents : List ℕ
  pub last : Bool

pub record AckFrame : Type 0 where
  pub name : String
  pub ok : Bool
  pub declined : Bool

-- A slash or a backslash is in the text.
unfoldable pub has_separator : String → Bool
has_separator String.[] = false
has_separator (String.◌∷◌ c s) = code c == b'/' || (code c == 92 || has_separator s)

abbrev pub starts_with_dot : String → Bool
starts_with_dot String.[] = false
starts_with_dot (String.◌∷◌ c s) = code c == b'.'

-- Two dots stand side by side in the text.
unfoldable pub has_dots : String → Bool
has_dots String.[] = false
has_dots (String.◌∷◌ c s) = (code c == b'.' && starts_with_dot s) || has_dots s

unfoldable pub safe_report_name : String → Bool
safe_report_name name =
    if has_separator name || has_dots name
    then false
    else any (λ allowed. str_eq name allowed) allowed_report_files

pub data ManifestError : Type 0 where
  unsafe_name file_too_large : String → ManifestError
  total_too_large : ManifestError
  -- os.Stat or the digest fails, or the file is not a regular one
  stat_failed not_regular unreadable : String → ManifestError

-- The loop of `validateManifest` from a running total.
unfoldable pub validate_files : ℤ → List TransferFile → Option ManifestError
validate_files total [] =
    if ltb_ℤ (pos max_transfer_total) total then some total_too_large else none
validate_files total (f ∷ files) =
    let rest = validate_files (add_int total f.size) files in
    if not (safe_report_name f.name)
    then some (unsafe_name f.name)
    else if ltb_ℤ f.size (pos 0) || ltb_ℤ (pos max_transfer_file_size) f.size
    then some (file_too_large f.name)
    else rest

unfoldable pub validate_manifest : Manifest → Option ManifestError
validate_manifest m = validate_files (pos 0) m.files

-- What the file system says of a report file.
pub data Stat : Type 0 where
  missing failing irregular : Stat
  -- a regular file whose digest cannot be computed, with its size
  locked : ℕ → Stat
  regular : List ℕ → Stat

pub data Built : Type 0 where
  built : Manifest → Built
  refused : ManifestError → Built

-- An entry of the manifest, if there is one, with its size.
abbrev pub add_entry : Manifest → List TransferFile → Manifest
add_entry m [] = m
add_entry m (f ∷ _) = record { files = m.files ++ f ∷ []; total_size = add_int m.total_size f.size }

module _ (sha : List ℕ → String) where
  -- One file of the loop of `BuildManifest`: its entry, none if it is missing, or an error.
  unfoldable pub stat_file : String → Stat → Option ManifestError × List TransferFile
  stat_file name missing = (none, [])
  stat_file name failing = (some (stat_failed name), [])
  stat_file name irregular = (some (not_regular name), [])
  stat_file name (locked n) =
      (some (if ltb max_transfer_file_size n then file_too_large name else unreadable name), [])
  stat_file name (regular bytes) =
      if ltb max_transfer_file_size (length bytes)
      then (some (file_too_large name), [])
      else (none, record { name = name; size = pos (length bytes); sha256 = sha bytes } ∷ [])

  -- The loop of `BuildManifest` over the names that are left.
  unfoldable pub build_files : (String → Stat) → List String → Manifest → Built
  build_files disk [] m =
      if ltb_ℤ (pos max_transfer_total) m.total_size then refused total_too_large else built m
  build_files disk (name ∷ names) m =
      let (error, entry) = stat_file name (disk name) in
      elim error [ some e ↦ refused e | none ↦ build_files disk names (add_entry m entry) ]

  unfoldable pub build_manifest : (String → Stat) → Built
  build_manifest disk =
      build_files disk allowed_report_files (record { files = []; total_size = pos 0 })
