-- ===== src/Reporting/Transfer/Manifests.antt =====
-- internal/reporting/transfer.go: what a manifest built from a disk says of it, and its checks.
use cablecheck.Base.{
  ℕ, ◌≤◌, ◌≡◌, refl, ◌≢◌, Bool-cases, ap, sym, ◌∙◌, true, false, ◌||◌, none, List, [], ◌∷◌, ◌++◌,
  length, ltb, All, All-append, arith, inl, inr,
}
use cablecheck.Base.Int.{ℤ, pos, add_int, ltb_ℤ}
use cablecheck.Base.Text.{String}
use cablecheck.Reporting.Transfer.{
  max_transfer_file_size, max_transfer_total, allowed_report_files, TransferFile, Manifest,
  safe_report_name, has_separator, has_dots, validate_files, Stat, missing, failing, irregular,
  locked, regular, built, stat_file, add_entry, build_files, build_manifest,
}
use cablecheck.Reporting.Transfer.Delivery.{IsDeclared}

abbrev pub content_of : Stat → List ℕ
content_of (regular bytes) = bytes
content_of _ = []

module _ (sha : List ℕ → String) (disk : String → Stat) where
  -- An entry of a manifest that is true of the disk, and within the cap.
  pub record IsEntry (f : TransferFile) : Type 0 where
    pub declared : IsDeclared sha f (content_of (disk f.name))
    pub bounded : length (content_of (disk f.name)) ≤ max_transfer_file_size

  -- The sizes of the entries, added to a running total.
  abbrev pub total_from : ℤ → List TransferFile → ℤ
  total_from total [] = total
  total_from total (f ∷ fs) = total_from (add_int total f.size) fs

  total_from-append :
      (total : ℤ) (fs gs : List TransferFile)
      → total_from total (fs ++ gs) ≡ total_from (total_from total fs) gs
  total_from-append total [] gs = refl
  total_from-append total (f ∷ fs) gs = total_from-append (add_int total f.size) fs gs

  entry-size :
      (f : TransferFile)
      → IsEntry f
      → (ltb_ℤ f.size (pos 0) || ltb_ℤ (pos max_transfer_file_size) f.size) ≡ false
  entry-size f h = rw (← h.declared.sized) (ground (arith, h.bounded))

  pub validate_files-none :
      (total : ℤ) (fs : List TransferFile)
      → All IsEntry fs
      → ltb_ℤ (pos max_transfer_total) (total_from total fs) ≡ false
      → validate_files total fs ≡ none
  unfolding validate_files
  validate_files-none total [] h b = ground arith
  validate_files-none total (f ∷ fs) (h, hs) b =
      ground
        (arith, h.declared.safe, entry-size f h, validate_files-none (add_int total f.size) fs hs b)

  -- A manifest in the making: its entries are true, and its total is their sum.
  pub record IsTrue (m : Manifest) : Type 0 where
    pub entries : All IsEntry m.files
    pub summed : m.total_size ≡ total_from (pos 0) m.files

  add_entry-IsTrue :
      (m : Manifest) (f : TransferFile) → IsTrue m → IsEntry f → IsTrue (add_entry m (f ∷ []))
  add_entry-IsTrue m f t h = record {
    entries = All-append IsEntry m.files (f ∷ []) t.entries (h, tt);
    summed = ap (λ n. add_int n f.size) t.summed ∙ sym (total_from-append (pos 0) m.files (f ∷ []));
  }

  stat_file-IsEntry :
      (name : String) (bytes : List ℕ)
      → safe_report_name name ≡ true
      → disk name ≡ regular bytes
      → ltb max_transfer_file_size (length bytes) ≡ false
      → IsEntry (record { name = name; size = pos (length bytes); sha256 = sha bytes })
  stat_file-IsEntry name bytes s e b =
      let same : content_of (disk name) ≡ bytes = rw e in
      record {
        declared = record {
          sized = ap (λ (xs : List ℕ). pos (length xs)) same;
          digested = ap sha same;
          safe = s;
        };
        bounded = rw same (ground arith);
      }

  -- What is known of a manifest that was built.
  abbrev pub Finished : Manifest → Type 0
  Finished m = IsTrue m × (ltb_ℤ (pos max_transfer_total) m.total_size ≡ false)

  abbrev entry : String → List ℕ → TransferFile
  entry name bytes = record { name = name; size = pos (length bytes); sha256 = sha bytes }

  build_files-missing :
      (name : String) (names : List String) (m k : Manifest)
      → disk name ≡ missing
      → build_files sha disk (name ∷ names) m ≡ built k
      → build_files sha disk names m ≡ built k
  unfolding build_files stat_file
  build_files-missing name names m k e h = ground arith

  build_files-regular :
      (name : String) (names : List String) (m k : Manifest) (bytes : List ℕ)
      → disk name ≡ regular bytes
      → build_files sha disk (name ∷ names) m ≡ built k
      → (ltb max_transfer_file_size (length bytes) ≡ false)
        × (build_files sha disk names (add_entry m (entry name bytes ∷ [])) ≡ built k)
  unfolding build_files stat_file
  build_files-regular name names m k bytes e h = ground arith

  build_files-refused :
      (name : String) (names : List String) (m k : Manifest) (s : Stat)
      → disk name ≡ s
      → build_files sha disk (name ∷ names) m ≡ built k
      → (s ≢ failing) × (s ≢ irregular) × ((n : ℕ) → s ≢ locked n)
  unfolding build_files stat_file
  build_files-refused name names m k s e h =
      (λ f. ground arith, λ f. ground arith, λ n f. ground arith)

  -- One name more, where the names behind it are known to end well.
  found :
      (name : String) (names : List String) (m k : Manifest) (x : Stat)
      → safe_report_name name ≡ true
      → IsTrue m
      → ((n : Manifest) → IsTrue n → build_files sha disk names n ≡ built k → Finished k)
      → build_files sha disk (name ∷ names) m ≡ built k
      → disk name ≡ x
      → Finished k
  found name names m k missing s t ih h e = ih m t (build_files-missing name names m k e h)
  found name names m k failing s t ih h e =
      absurd ((build_files-refused name names m k failing e h).0 refl)
  found name names m k irregular s t ih h e =
      absurd ((build_files-refused name names m k irregular e h).1 refl)
  found name names m k (locked n) s t ih h e =
      absurd ((build_files-refused name names m k (locked n) e h).2 n refl)
  found name names m k (regular bytes) s t ih h e =
      let (small, later) = build_files-regular name names m k bytes e h in
      ih (add_entry m (entry name bytes ∷ []))
        (add_entry-IsTrue m (entry name bytes) t (stat_file-IsEntry name bytes s e small)) later

  build_files-Finished :
      (names : List String) (m k : Manifest)
      → All (λ name. safe_report_name name ≡ true) names
      → IsTrue m
      → build_files sha disk names m ≡ built k
      → Finished k
  unfolding build_files
  build_files-Finished [] m k s t h =
      elim (Bool-cases (ltb_ℤ (pos max_transfer_total) m.total_size)) [
        | inl b ↦ absurd (ground arith)
        | inr b ↦ (let same : m ≡ k = ground arith in rw (← same) (t, b))
      ]
  build_files-Finished (name ∷ names) m k (s, ss) t h =
      found name names m k (disk name) s t (λ n u g. build_files-Finished names n k ss u g) h refl

  allowed_safe : All (λ name. safe_report_name name ≡ true) allowed_report_files
  unfolding safe_report_name has_separator has_dots
  allowed_safe = (refl, (refl, (refl, tt)))

  pub build_manifest-Finished : (m : Manifest) → build_manifest sha disk ≡ built m → Finished m
  unfolding build_manifest
  build_manifest-Finished m h =
      build_files-Finished allowed_report_files (record { files = []; total_size = pos 0 }) m
        allowed_safe (record { entries = tt; summed = refl }) h
