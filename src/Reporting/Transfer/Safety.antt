-- ===== src/Reporting/Transfer/Safety.antt =====
-- What the receiver of internal/reporting/transfer_recv.go leaves on disk, whatever it is sent.
use cablecheck.Base.{
  ℕ, ◌≤◌, ◌≡◌, ◌⊎◌, inl, inr, refl, ap, ◌∙◌, Bool, true, false, none, some, List, [], ◌∷◌, any,
  length, All, arith, Option-cases, Bool-cases, Option, if◌then◌else◌,
}
use cablecheck.Base.Int.{ℤ, pos, add_int, ◌≤ℤ◌}
use cablecheck.Base.Text.{String, str_eq, eq_iff}
use cablecheck.Reporting.Transfer.{
  max_transfer_file_size, TransferFile, Manifest, validate_files, validate_manifest,
}
use cablecheck.Reporting.Transfer.Leftovers.{
  all_work, all_among, all_among_self, Tidy, receive_loop-Tidy,
}
use cablecheck.Reporting.Transfer.Receive.{
  manifest, chunk, Input, Receiver, Loop, without_file, replace, receive_loop, receive_files,
  receive_reports,
}
use cablecheck.Reporting.Transfer.Rounds.{
  Frame-cases, matches, Kept, closed-Within, receive_loop-keeps,
}

-- The file under a name.
abbrev pub file_at : List (String × List ℕ) → String → Option (List ℕ)
file_at [] name = none
file_at ((other, bytes) ∷ files) name = if str_eq other name then some bytes else file_at files name

module _ (sha : List ℕ → String) where
  -- A file on disk is one of the entries, and is of a bounded size.
  abbrev pub IsListed : List TransferFile → String × List ℕ → Type 0
  IsListed fs e = (any (matches sha e) fs ≡ true) × (length e.1 ≤ max_transfer_file_size)

  IsListed-cons :
      (f : TransferFile) (fs : List TransferFile) (e : String × List ℕ)
      → IsListed fs e
      → IsListed (f ∷ fs) e
  IsListed-cons f fs e (m, b) = (ground arith, b)

  -- What stands under a name is what stood there before, or is one of the entries.
  abbrev pub IsKept :
      List TransferFile → List (String × List ℕ) → List (String × List ℕ) → String → Type 0
  IsKept fs before after name =
      (file_at after name ≡ file_at before name)
      ⊎ ((bytes : List ℕ) × (file_at after name ≡ some bytes) × IsListed fs (name, bytes))

  -- Under each name stands what stood there before, or one of the entries; no part file is open, and,
  -- unless removing one failed, none is left that was not there before.
  pub record IsReceived (fs : List TransferFile) (before after : Receiver) : Type 0 where
    pub file : (name : String) → IsKept fs before.files after.files name
    pub closed : after.part ≡ none
    pub tidy :
        (all_work before.removals ≡ false) ⊎ (all_among after.partials before.partials ≡ true)

  size_bound :
      (f : TransferFile) (bytes : List ℕ)
      → f.size ≤ℤ pos max_transfer_file_size
      → matches sha (f.name, bytes) f ≡ true
      → length bytes ≤ max_transfer_file_size
  size_bound f bytes h m = ground arith

  without_file-file_at :
      (name : String) (files : List (String × List ℕ)) (other : String)
      → file_at (without_file name files) other
        ≡ (if str_eq name other then none else file_at files other)
  without_file-file_at name [] other = ground arith
  without_file-file_at name ((k, b) ∷ files) other = ground (
    arith,
    without_file-file_at name files other,
    eq_iff k name,
    eq_iff k other,
    eq_iff name other,
  )

  replace-file_at :
      (name : String) (bytes : List ℕ) (files : List (String × List ℕ)) (other : String)
      → file_at (replace name bytes files) other
        ≡ (if str_eq name other then some bytes else file_at files other)
  replace-file_at name bytes files other =
      ground (arith, without_file-file_at name files other, eq_iff name other)

  -- One file more under those received later.
  one_more :
      (f : TransferFile) (fs : List TransferFile) (before m last : List (String × List ℕ))
      (name : String)
      → f.size ≤ℤ pos max_transfer_file_size
      → Kept sha f before m
      → IsKept fs m last name
      → IsKept (f ∷ fs) before last name
  one_more f fs before m last name h k (inr (bytes, e, t)) =
      inr (bytes, e, IsListed-cons f fs (name, bytes) t)
  one_more f fs before m last name h (inl same) (inl e) =
      inl (e ∙ ap (λ files. file_at files name) same)
  one_more f fs before m last name h (inr (bytes, more, t)) (inl e) =
      let there =
        e ∙ (ap (λ files. file_at files name) more ∙ replace-file_at f.name bytes before name) in
      elim (Bool-cases (str_eq f.name name)) [
        | inl on ↦
            (let this : f.name ≡ name = (eq_iff f.name name).0 on in
              inr (bytes, there ∙ rw on refl, (rw (← this) (ground arith), size_bound f bytes h t)))
        | inr off ↦ inl (there ∙ rw off refl)
      ]

  -- Every declared size is within the cap.
  abbrev Capped : List TransferFile → Type 0
  Capped fs = All (λ f. f.size ≤ℤ pos max_transfer_file_size) fs

  validate_files-Capped :
      (total : ℤ) (fs : List TransferFile) → validate_files total fs ≡ none → Capped fs
  unfolding validate_files
  validate_files-Capped total [] h = tt
  validate_files-Capped total (f ∷ fs) h =
      (ground arith, validate_files-Capped (add_int total f.size) fs (ground arith))

  abbrev start : Receiver → Loop
  start r = record { here = record r { part = none }; draining = false; rejections = 0 }

  receive_files-cases :
      (f : TransferFile) (fs : List TransferFile) (r : Receiver) (inputs : List Input)
      → let one = receive_loop sha f (start r) inputs in
        ((receive_files sha (f ∷ fs) r inputs).0 ≡ one.0)
        ⊎ ((receive_files sha (f ∷ fs) r inputs).0 ≡ (receive_files sha fs one.0 one.2).0)
  unfolding receive_files
  receive_files-cases f fs r inputs = ground arith

  receive_files-IsKept :
      (fs : List TransferFile) (r : Receiver) (inputs : List Input) (name : String)
      → Capped fs
      → IsKept fs r.files (receive_files sha fs r inputs).0.files name
  unfolding receive_files
  receive_files-IsKept [] r inputs name h = inl refl
  receive_files-IsKept (f ∷ fs) r inputs name (h, hs) =
      let one = receive_loop sha f (start r) inputs in
      let (q, k) = receive_loop-keeps sha f (start r) inputs (closed-Within sha f (start r) refl) in
      elim (receive_files-cases f fs r inputs) [
        | inl e ↦ rw e (one_more f fs r.files one.0.files one.0.files name h k (inl refl))
        | inr e ↦ rw e (
            one_more f fs r.files one.0.files (receive_files sha fs one.0 one.2).0.files name h k
              (receive_files-IsKept fs one.0 one.2 name hs))
      ]

  receive_files-closed :
      (fs : List TransferFile) (r : Receiver) (inputs : List Input)
      → r.part ≡ none
      → (receive_files sha fs r inputs).0.part ≡ none
  unfolding receive_files
  receive_files-closed [] r inputs p = p
  receive_files-closed (f ∷ fs) r inputs p =
      let one = receive_loop sha f (start r) inputs in
      let q = (receive_loop-keeps sha f (start r) inputs (closed-Within sha f (start r) refl)).0 in
      elim (receive_files-cases f fs r inputs) [
        | inl e ↦ rw e q
        | inr e ↦ rw e (receive_files-closed fs one.0 one.2 q)
      ]

  -- A receiver with no part file open, of which the part files are among some names.
  abbrev IsTidy : List String → Receiver → Type 0
  IsTidy ps r = (r.part ≡ none) × Tidy ps r

  receive_files-IsTidy :
      (ps : List String) (fs : List TransferFile) (r : Receiver) (inputs : List Input)
      → IsTidy ps r
      → IsTidy ps (receive_files sha fs r inputs).0
  unfolding receive_files
  receive_files-IsTidy ps [] r inputs h = h
  receive_files-IsTidy ps (f ∷ fs) r inputs (p, h) =
      let one = receive_loop sha f (start r) inputs in
      let q = (receive_loop-keeps sha f (start r) inputs (closed-Within sha f (start r) refl)).0 in
      let started : Tidy ps (start r).here = ground (arith, h) in
      let t = receive_loop-Tidy sha ps f (start r) inputs started in
      elim (receive_files-cases f fs r inputs) [
        | inl e ↦ rw e (q, t)
        | inr e ↦ rw e (receive_files-IsTidy ps fs one.0 one.2 (q, t))
      ]

  -- The entries that the transfer announces, where the first frame is a manifest that is accepted.
  abbrev pub announced : List Input → List TransferFile
  announced [] = []
  announced (i ∷ inputs) = elim i.frame [
    | chunk c ↦ []
    | manifest m ↦ elim (validate_manifest m) [ some e ↦ [] | none ↦ m.files ]
  ]

  receive_reports-cases :
      (is_dir : Bool) (r : Receiver) (i : Input) (inputs : List Input)
      → (((receive_reports sha is_dir r (i ∷ inputs)).0.files ≡ r.files)
          × ((receive_reports sha is_dir r (i ∷ inputs)).0.part ≡ r.part)
          × ((receive_reports sha is_dir r (i ∷ inputs)).0.partials ≡ r.partials)
          × ((receive_reports sha is_dir r (i ∷ inputs)).0.removals ≡ r.removals))
        ⊎ ((receive_reports sha is_dir r (i ∷ inputs)).0
            ≡ (receive_files sha (announced (i ∷ inputs)) r inputs).0)
  unfolding receive_reports
  receive_reports-cases is_dir r i inputs = ground arith

  announced-manifest :
      (i : Input) (inputs : List Input) (m : Manifest)
      → i.frame ≡ manifest m
      → announced (i ∷ inputs) ≡ (elim (validate_manifest m) [ some e ↦ [] | none ↦ m.files ])
  announced-manifest i inputs m e = ground arith

  announced-Capped : (inputs : List Input) → Capped (announced inputs)
  unfolding validate_manifest
  announced-Capped [] = tt
  announced-Capped (i ∷ inputs) = elim (Frame-cases i.frame) [
    | inl (m, e) ↦
        rw (announced-manifest i inputs m e) (elim (Option-cases (validate_files (pos 0) m.files)) [
          | inl v ↦ rw v (validate_files-Capped (pos 0) m.files v)
          | inr (x, v) ↦ rw v tt
        ])
    | inr (c, e) ↦ ground arith
  ]

  receive_reports-IsTidy :
      (ps : List String) (is_dir : Bool) (r : Receiver) (inputs : List Input)
      → IsTidy ps r
      → IsTidy ps (receive_reports sha is_dir r inputs).0
  unfolding receive_reports
  receive_reports-IsTidy ps is_dir r [] h = h
  receive_reports-IsTidy ps is_dir r (i ∷ inputs) h =
      elim (receive_reports-cases is_dir r i inputs) [
        | inl e ↦ ground (arith, e, h)
        | inr e ↦ rw e (receive_files-IsTidy ps (announced (i ∷ inputs)) r inputs h)
      ]

  receive_reports-closed :
      (is_dir : Bool) (r : Receiver) (inputs : List Input)
      → r.part ≡ none
      → (receive_reports sha is_dir r inputs).0.part ≡ none
  unfolding receive_reports
  receive_reports-closed is_dir r [] p = p
  receive_reports-closed is_dir r (i ∷ inputs) p = elim (receive_reports-cases is_dir r i inputs) [
    | inl e ↦ e.1 ∙ p
    | inr e ↦ rw e (receive_files-closed (announced (i ∷ inputs)) r inputs p)
  ]

  receive_reports-IsKept :
      (is_dir : Bool) (r : Receiver) (inputs : List Input) (name : String)
      → IsKept (announced inputs) r.files (receive_reports sha is_dir r inputs).0.files name
  unfolding receive_reports
  receive_reports-IsKept is_dir r [] name = inl refl
  receive_reports-IsKept is_dir r (i ∷ inputs) name =
      elim (receive_reports-cases is_dir r i inputs) [
        | inl e ↦ inl (ap (λ files. file_at files name) e.0)
        | inr e ↦ rw e (
            receive_files-IsKept (announced (i ∷ inputs)) r inputs name
              (announced-Capped (i ∷ inputs)))
      ]

  receive_reports-tidy :
      (is_dir : Bool) (r : Receiver) (inputs : List Input)
      → r.part ≡ none
      → (all_work r.removals ≡ false)
        ⊎ (all_among (receive_reports sha is_dir r inputs).0.partials r.partials ≡ true)
  receive_reports-tidy is_dir r inputs p = elim (Bool-cases (all_work r.removals)) [
    | inr off ↦ inl off
    | inl on ↦
        (let before : IsTidy r.partials r = ground (arith, p, on, all_among_self r.partials) in
          let after = receive_reports-IsTidy r.partials is_dir r inputs before in
          inr (ground (arith, after)))
  ]

  -- A receiver with no part file open: whatever frames it is sent, in any order, and whatever the file
  -- system and the channel do, it returns with no part file open; under each name stands what stood there
  -- before, or a file under an allowlisted name, with the number of bytes and the digest of an entry of
  -- the accepted manifest of that name, and of at most 8 MiB; and where each removal of a part file
  -- succeeds, no part file is on disk that was not there before.
  pub receive_reports-IsReceived :
      (is_dir : Bool) (r : Receiver) (inputs : List Input)
      → r.part ≡ none
      → IsReceived (announced inputs) r (receive_reports sha is_dir r inputs).0
  receive_reports-IsReceived is_dir r inputs p = record {
    file = λ name. receive_reports-IsKept is_dir r inputs name;
    closed = receive_reports-closed is_dir r inputs p;
    tidy = receive_reports-tidy is_dir r inputs p;
  }
