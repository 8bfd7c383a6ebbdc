-- ===== src/Reporting/Transfer/Leftovers.antt =====
-- The part files that the receiver of internal/reporting/transfer_recv.go leaves on disk.
use cablecheck.Base.{
  ℕ, ◌≡◌, refl, Bool, true, false, ◌&&◌, none, some, List, [], ◌∷◌, ◌++◌, any, arith, Option-cases,
  inl, inr,
}
use cablecheck.Base.Text.{String, str_eq, eq_iff, eq_refl}
use cablecheck.Reporting.Transfer.{TransferFile, ChunkFrame}
use cablecheck.Reporting.Transfer.Receive.{
  Input, ReceiveError, Receiver, open_part, forget, cleanup, commit_part, Loop, Round, go, stop,
  decline_all, decline_locally, reject, finish_file, write_chunk, place_chunk, receive_chunk, round,
  receive_loop,
}
use cablecheck.Reporting.Transfer.Rounds.{
  Frame-cases, Round-cases, with_part, receive_loop-go, receive_loop-stop,
}

-- Each os.Remove to come succeeds.
abbrev pub all_work : List Bool → Bool
all_work [] = true
all_work (b ∷ bs) = b && all_work bs

-- Each name of the first list is in the second.
abbrev pub all_among : List String → List String → Bool
all_among [] ps = true
all_among (n ∷ ns) ps = any (str_eq n) ps && all_among ns ps

all_among_more :
    (ns ps : List String) (p : String) → all_among ns ps ≡ true → all_among ns (p ∷ ps) ≡ true
all_among_more [] ps p h = refl
all_among_more (n ∷ ns) ps p h = ground (arith, all_among_more ns ps p)

pub all_among_self : (ns : List String) → all_among ns ns ≡ true
all_among_self [] = refl
all_among_self (n ∷ ns) = ground (arith, eq_refl n, all_among_more ns ns n (all_among_self ns))

-- The names of the part files on disk, without the one that is open.
abbrev pub leftover : Receiver → List String
leftover r = elim r.part [ none ↦ r.partials | some bytes ↦ forget r.part_name r.partials ]

-- What is left is among these names, and stays so.
abbrev pub Tidy : List String → Receiver → Type 0
Tidy ps r = (all_work r.removals ≡ true) × (all_among (leftover r) ps ≡ true)

abbrev RoundTidy : List String → Round → Type 0
RoundTidy ps (go l) = Tidy ps l.here
RoundTidy ps (stop r e) = Tidy ps r

forget-all_among :
    (name : String) (ns ps : List String)
    → all_among ns ps ≡ true
    → all_among (forget name ns) ps ≡ true
forget-all_among name [] ps h = refl
forget-all_among name (n ∷ ns) ps h = ground (arith, forget-all_among name ns ps)

cleanup-Tidy :
    (ps : List String) (r : Receiver) → Tidy ps r → ((cleanup r).part ≡ none) × Tidy ps (cleanup r)
cleanup-Tidy ps r h = ground arith

open_part-Tidy :
    (ps : List String) (name : String) (r : Receiver)
    → r.part ≡ none
    → Tidy ps r
    → Tidy ps (open_part name r)
open_part-Tidy ps name r p h = ground (arith, eq_iff name name, forget-all_among name r.partials ps)

commit_part-Tidy :
    (ps : List String) (name : String) (bytes got : List ℕ) (r : Receiver)
    → r.part ≡ some got
    → Tidy ps r
    → Tidy ps (commit_part name bytes r)
commit_part-Tidy ps name bytes got r p h = ground arith

with_part-Tidy :
    (ps : List String) (bytes got : List ℕ) (l : Loop)
    → l.here.part ≡ some got
    → Tidy ps l.here
    → Tidy ps (with_part l bytes).here
with_part-Tidy ps bytes got l p h = ground arith

decline_all-Tidy :
    (ps : List String) (i : Input) (e : ReceiveError) (r : Receiver)
    → Tidy ps r
    → RoundTidy ps (decline_all i e r)
unfolding decline_all
decline_all-Tidy ps i e r h = ground (arith, cleanup-Tidy ps r h)

decline_locally-Tidy :
    (ps : List String) (i : Input) (r : Receiver) → Tidy ps r → RoundTidy ps (decline_locally i r)
unfolding decline_locally
decline_locally-Tidy ps i r h = ground (arith, cleanup-Tidy ps r h)

reject-Tidy :
    (ps : List String) (f : TransferFile) (i : Input) (l : Loop)
    → Tidy ps l.here
    → RoundTidy ps (reject f i l)
unfolding reject
reject-Tidy ps f i l h = ground (arith, cleanup-Tidy ps l.here h)

module _ (sha : List ℕ → String) where
  finish_file-Tidy :
      (ps : List String) (f : TransferFile) (i : Input) (bytes got : List ℕ) (l : Loop)
      → l.here.part ≡ some got
      → Tidy ps l.here
      → RoundTidy ps (finish_file sha f i bytes l)
  unfolding finish_file
  finish_file-Tidy ps f i bytes got l p h = ground (
    arith,
    reject-Tidy ps f i l h,
    decline_locally-Tidy ps i l.here h,
    commit_part-Tidy ps f.name bytes got l.here p h,
  )

  write_chunk-Tidy :
      (ps : List String) (f : TransferFile) (i : Input) (c : ChunkFrame) (got : List ℕ) (l : Loop)
      → l.here.part ≡ some got
      → Tidy ps l.here
      → RoundTidy ps (write_chunk sha f i c got l)
  unfolding write_chunk
  write_chunk-Tidy ps f i c got l p h =
      let bytes = got ++ c.contents in
      let written = with_part-Tidy ps bytes got l p h in
      ground (
        arith,
        decline_all-Tidy ps i ReceiveError.oversize l.here h,
        decline_locally-Tidy ps i l.here h,
        written,
        finish_file-Tidy ps f i bytes bytes (with_part l bytes) refl written,
      )

  place_chunk-Tidy :
      (ps : List String) (f : TransferFile) (i : Input) (c : ChunkFrame) (l : Loop)
      → Tidy ps l.here
      → RoundTidy ps (place_chunk sha f i c l)
  unfolding place_chunk
  place_chunk-Tidy ps f i c l h =
      let refused = reject-Tidy ps f i l h in
      elim (Option-cases l.here.part) [
        | inl e ↦ ground (arith, refused)
        | inr (bytes, e) ↦ ground (arith, refused, write_chunk-Tidy ps f i c bytes l e h)
      ]

  round-Tidy :
      (ps : List String) (f : TransferFile) (l : Loop) (i : Input)
      → Tidy ps l.here
      → RoundTidy ps (round sha f l i)
  unfolding round receive_chunk
  round-Tidy ps f l i h =
      let (p, cleaned) = cleanup-Tidy ps l.here h in
      elim (Frame-cases i.frame) [
        | inl (m, e) ↦ ground (arith, cleaned)
        | inr (c, e) ↦
            (let fresh : Loop = record l {
              here = open_part c.name (cleanup l.here);
              draining = false;
            } in
              ground (
                arith,
                decline_all-Tidy ps i ReceiveError.unexpected_name l.here h,
                decline_locally-Tidy ps i l.here h,
                place_chunk-Tidy ps f i c l h,
                place_chunk-Tidy ps f i c fresh
                    (open_part-Tidy ps c.name (cleanup l.here) p cleaned),
              ))
      ]

  pub receive_loop-Tidy :
      (ps : List String) (f : TransferFile) (l : Loop) (inputs : List Input)
      → Tidy ps l.here
      → Tidy ps (receive_loop sha f l inputs).0
  unfolding receive_loop
  receive_loop-Tidy ps f l [] h = (cleanup-Tidy ps l.here h).1
  receive_loop-Tidy ps f l (i ∷ inputs) h =
      let kept = round-Tidy ps f l i h in
      elim (Round-cases (round sha f l i)) [
        | inl (l', e) ↦
            (let kept' : Tidy ps l'.here = rw e at kept in
              rw (receive_loop-go sha f l l' i inputs e) (receive_loop-Tidy ps f l' inputs kept'))
        | inr (r, x, e) ↦
            (let kept' : Tidy ps r = rw e at kept in
              rw (receive_loop-stop sha f l r x i inputs e) kept')
      ]
