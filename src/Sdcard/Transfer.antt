-- ===== src/Sdcard/Transfer.antt =====
-- The job that reads sectors.
use nodeflight_fw.Base.{
  le→leb, ℕ, zero, suc, ◌+◌, ◌*◌, Bool, true, false, none, some, List, [], ◌∷◌, ◌++◌, append_assoc,
  ◌≡◌, refl, sym, ap, ◌∙◌, subst, ◌⊎◌, inl, inr, if◌then◌else◌, leb, Bytes, length, length-append,
  length-take, length-drop, take, drop, take-append, drop-append, take-append-drop, u32, arith,
}
use nodeflight_fw.Sdcard.{Sdcard, BlockRead, command_frame}
use nodeflight_fw.Sdcard.Reads.{
  SentBy, Gives, no_block, bad_block, good_block, block_behind, length-shifted_out,
}
use nodeflight_fw.Sdcard.Blocks.{after_block, read_block_lem}
use nodeflight_fw.Sdcard.Jobs.{
  DiskCodes, read, Outcome, sector_size, write_at, read_sectors, run_job,
}

-- The command for a sector.
abbrev pub read_command : ℕ → Bytes
read_command sector = command_frame 17 (u32 sector)

-- What a transfer of `left` sectors from the `i`-th on makes of the memory, from a place on the bus and
-- what was sent: the blocks in their order, each behind its token and with its checksum, and after one
-- command for its sector; until one is not read.
pub data Transfers (codes : DiskCodes) (card : ℕ → ℕ) (sector : ℕ)
    : ℕ → ℕ → ℕ → List Bytes → Bytes → ℕ → List Bytes → Type 0 where
  finished :
      (i from : ℕ) (sent : List Bytes)
      → Transfers codes card sector i zero from sent [] codes.res_ok sent
  one_more :
      (i left from n : ℕ) (sent sent' : List Bytes) (block rest : Bytes) (result : ℕ)
      → Gives card from 0xfe sector_size (record { ok = true; written = some block }) n
      → length block ≡ sector_size
      → Transfers codes card sector
          (suc i)
          left
          n
          (read_command (sector + i) ∷ sent)
          rest
          result
          sent'
      → Transfers codes card sector i (suc left) from sent (block ++ rest) result sent'
  stopped :
      (i left from n : ℕ) (sent sent' : List Bytes) (new : Bytes) (r : BlockRead)
      → r.ok ≡ false
      → Gives card from 0xfe sector_size r n
      → length new ≡ sector_size * suc left
      → Transfers codes card sector i (suc left) from sent new codes.res_error sent'

-- Storing over a part of a buffer that is as long.
pub write_at_split :
    (pre old bytes post : Bytes) (at : ℕ)
    → length pre ≡ at
    → length old ≡ length bytes
    → write_at (pre ++ old ++ post) at (some bytes) ≡ some (pre ++ bytes ++ post)
unfolding write_at
write_at_split pre old bytes post at whole same =
    let more = length-append (pre ++ old) post in
    let more' = length-append pre old in
    let fits : leb (at + length bytes) (length (pre ++ old ++ post)) ≡ true =
      le→leb _ _ (omega (arith, whole, same, more, more')) in
    let before : take at (pre ++ old ++ post) ≡ pre =
      ap (take at) (append_assoc pre old post) ∙ take-append pre (old ++ post) at (sym whole) in
    let behind : drop (at + length bytes) (pre ++ old ++ post) ≡ post =
      drop-append (pre ++ old) post (at + length bytes) (omega (arith, whole, same, more')) in
    rw (fits, before, behind) refl

-- The outcomes of a read of a block: no block, a bad block, a good block.
abbrev none_read : BlockRead
none_read = record { ok = false; written = none }

abbrev some_read : Bool → Bytes → BlockRead
some_read ok block = record { ok = ok; written = some block }

Gives-length :
    (card : ℕ → ℕ) (from token size n : ℕ) (r : BlockRead)
    → Gives card from token size r n
    → (r ≡ none_read)
      ⊎ ((block : Bytes) × (length block ≡ size)
          × ((r ≡ some_read false block) ⊎ (r ≡ some_read true block)))
Gives-length card from token size n r (no_block m le) = inl refl
Gives-length card from token size n r (bad_block p m le lt at_p) =
    inr (block_behind card size p, length-shifted_out card size (suc p), inl refl)
Gives-length card from token size n r (good_block p m le lt at_p hi lo) =
    inr (block_behind card size p, length-shifted_out card size (suc p), inr refl)

command_is_sent :
    (command : Bytes) (r : BlockRead) (s : Sdcard) (sent : List Bytes)
    → r.ok ≡ true
    → ((r.ok ≡ false) × SentBy command s sent) ⊎ (sent ≡ command ∷ s.sent)
    → sent ≡ command ∷ s.sent
command_is_sent command r s sent e (inl (e', by)) = absurd cc
command_is_sent command r s sent e (inr by) = by

write_at_nothing : (buff : Bytes) (at : ℕ) → write_at buff at none ≡ some buff
unfolding write_at
write_at_nothing buff at = refl

-- Storing a block over the first sector that is left.
store_block_lem :
    (left i : ℕ) (pre old post block : Bytes)
    → length pre ≡ sector_size * i
    → length old ≡ sector_size * suc left
    → length block ≡ sector_size
    → write_at (pre ++ old ++ post) (sector_size * i) (some block)
      ≡ some (pre ++ block ++ drop sector_size old ++ post)
store_block_lem left i pre old post block at_i whole size =
    let first = take sector_size old in
    let later = drop sector_size old in
    let first_whole : length first ≡ sector_size =
      omega (arith, whole, length-take sector_size old) in
    let parts : pre ++ old ++ post ≡ pre ++ first ++ (later ++ post) =
      ap (λ o. pre ++ o ++ post) (sym (take-append-drop sector_size old)) ∙ simp append_assoc in
    ap (λ b. write_at b (sector_size * i) (some block)) parts
    ∙ write_at_split pre first block (later ++ post) (sector_size * i) at_i (first_whole ∙ sym size)
    ∙ ap some (simp append_assoc)

-- The memory of a read that loads its sectors one behind the other: what stands before them and behind
-- them stays.
read_sectors_lem :
    (codes : DiskCodes) (left i sector : ℕ) (pre old post : Bytes) (s : Sdcard)
    → length pre ≡ sector_size * i
    → length old ≡ sector_size * left
    → (new : Bytes) × (o : Outcome) × (read_sectors codes left i sector (pre ++ old ++ post) s
        ≡ some o)
      × (o.buff ≡ pre ++ new ++ post)
      × (length new ≡ length old)
      × Transfers codes s.card sector i left s.bus_at s.sent new o.result o.sdc.sent
unfolding read_sectors
read_sectors_lem codes zero i sector pre [] post s at_i whole = (
  [],
  record { result = codes.res_ok; buff = pre ++ [] ++ post; sdc = s },
  refl,
  refl,
  refl,
  finished i s.bus_at s.sent,
)
read_sectors_lem codes zero i sector pre (x ∷ old) post s at_i whole = absurd (omega (arith, whole))
read_sectors_lem codes (suc left) i sector pre old post s at_i whole =
    let (r, n, sent, run, gives, how) = read_block_lem 17 (u32 (sector + i)) 0xfe sector_size s in
    let command = read_command (sector + i) in
    let later = drop sector_size old in
    let later_whole : length later ≡ sector_size * left =
      omega (arith, whole, length-drop sector_size old) in
    elim (Gives-length s.card s.bus_at 0xfe sector_size n r gives) [
      | inl e ↦ (
        old,
        record { result = codes.res_error; buff = pre ++ old ++ post; sdc = after_block n sent s },
        rw (run, e, write_at_nothing (pre ++ old ++ post) (sector_size * i)) refl,
        refl,
        refl,
        stopped i left s.bus_at n s.sent sent old r (ap BlockRead.ok e) gives whole,
      )
      | inr (block, size, inl e) ↦
          let stored = store_block_lem left i pre old post block at_i whole size in
          (
            block ++ later,
            record {
              result = codes.res_error;
              buff = pre ++ block ++ later ++ post;
              sdc = after_block n sent s;
            },
            rw (run, e, stored) refl,
            simp append_assoc,
            omega (arith, size, whole, later_whole, length-append block later),
            stopped i left s.bus_at n s.sent sent (block ++ later) r (ap BlockRead.ok e) gives
                (omega (arith, size, later_whole, length-append block later)),
          )
      | inr (block, size, inr e) ↦
          let stored = store_block_lem left i pre old post block at_i whole size in
          let (new, o, more, holds, same, transfers) =
            read_sectors_lem codes left (suc i) sector (pre ++ block) later post
              (after_block n sent s) (omega (arith, at_i, size, length-append pre block))
              later_whole in
          let gives' = subst (λ b. Gives s.card s.bus_at 0xfe sector_size b n) e gives in
          let by = command_is_sent command r s sent (ap BlockRead.ok e) how in
          let transfers' =
            subst (λ q. Transfers codes s.card sector (suc i) left n q new o.result o.sdc.sent) by
              transfers in
          (
            block ++ new,
            o,
            rw (run, e, stored) more,
            holds ∙ simp append_assoc,
            omega (arith, size, same, whole, later_whole, length-append block new),
            one_more i left s.bus_at n s.sent o.sdc.sent block new o.result gives' size transfers',
          )
    ]

-- A read of sectors from an available card always ends and never stores out of its buffer of
-- `sector_size * count` bytes: what stands in the memory behind the buffer stays. What it leaves in the
-- buffer is what the card sends: with the result `res_ok`, one block for each sector in their order, each
-- behind its token and with its checksum behind it, and each after the one command for its sector; with
-- `res_error`, such blocks up to the first sector that is not read.
pub run_job-read :
    (codes : DiskCodes) (fuel sector count : ℕ) (old post : Bytes) (s : Sdcard)
    → s.card_available ≡ true
    → length old ≡ sector_size * count
    → (new : Bytes) × (o : Outcome) × (run_job codes fuel (read (old ++ post) sector count) s
        ≡ some o)
      × (o.buff ≡ new ++ post)
      × (length new ≡ length old)
      × Transfers codes s.card sector 0 count s.bus_at s.sent new o.result o.sdc.sent
unfolding run_job
run_job-read codes fuel sector count old post s here whole =
    let (new, o, run, holds, same, transfers) =
      read_sectors_lem codes count 0 sector [] old post s (omega arith) whole in
    let unavailable = some (record { result = codes.res_notrdy; buff = old ++ post; sdc = s }) in
    (
      new,
      o,
      ap (λ b. if b then read_sectors codes count 0 sector (old ++ post) s else unavailable) here
          ∙ run,
      holds,
      same,
      transfers,
    )
