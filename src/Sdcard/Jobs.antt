-- ===== src/Sdcard/Jobs.antt =====
-- src/module/mgmt/sdcard.c: the task of a card, and the calls of the file system.
use nodeflight_fw.Base.{
  ℕ, zero, suc, ◌+◌, ◌*◌, ◌/◌, ◌^◌, Bool, Option, none, some, [], ◌++◌, ◌==◌, leb, if◌then◌else◌,
  Bytes, length, take, drop, u8, u32, bit_or, ◌>>=◌, ℤ, pos, negsuc,
}
use nodeflight_fw.Sdcard.{Sdcard, sdcard_read_block}
use nodeflight_fw.Sdcard.Startup.{
  sdcard_spi_configure_startup, sdcard_spi_configure_running, sdcard_init_card,
}

abbrev pub init_retries : ℕ
init_retries = 10

abbrev pub sector_size : ℕ
sector_size = 512

-- The codes of FatFs.
pub record DiskCodes : Type 0 where
  pub sta_nodisk : ℕ
  pub res_ok : ℕ
  pub res_error : ℕ
  pub res_notrdy : ℕ

-- A job, and for a read what stands in the memory from `buff` on.
pub data Job : Type 0 where
  initialize status write ioctl : Job
  read : Bytes → ℕ → ℕ → Job

-- What a job leaves: its result, the memory of a read, and the card. The option around it is `none`
-- for a store out of the memory.
pub record Outcome : Type 0 where
  pub result : ℕ
  pub buff : Bytes
  pub sdc : Sdcard

unfoldable pub try_again : ℤ × Sdcard → (Sdcard → Option Outcome) → Option Outcome
try_again (pos n, s) again = some (record { result = 0; buff = []; sdc = s })
try_again (negsuc n, s) again = again s

-- The loop of `sdcard_init_card`, with the retries that are left.
unfoldable pub retry_init : ℕ → ℕ → Sdcard → Option Outcome
retry_init fuel zero s = some (record { result = 1; buff = []; sdc = s })
retry_init fuel (suc retries) s =
    sdcard_init_card fuel s >>= λ r. try_again r (retry_init fuel retries)

-- Writing to the memory at an offset; `none` is a store out of it.
unfoldable pub write_at : Bytes → ℕ → Option Bytes → Option Bytes
write_at buff at none = some buff
write_at buff at (some bytes) =
    if leb (at + length bytes) (length buff)
    then some (take at buff ++ bytes ++ drop (at + length bytes) buff)
    else none

-- The loop over the sectors from the `i`-th on, with `left` of them left.
unfoldable pub read_sectors : DiskCodes → ℕ → ℕ → ℕ → Bytes → Sdcard → Option Outcome
read_sectors codes zero i sector buff s =
    some (record { result = codes.res_ok; buff = buff; sdc = s })
read_sectors codes (suc left) i sector buff s =
    let r = sdcard_read_block 17 (u32 (sector + i)) 0xfe sector_size s in
    write_at buff (sector_size * i) r.0.written >>= λ buff'.
    let more = read_sectors codes left (suc i) sector buff' r.1 in
    if r.0.ok then more else some (record { result = codes.res_error; buff = buff'; sdc = r.1 })

abbrev pub at_running_rate : Outcome → Outcome
at_running_rate o = record o { sdc = sdcard_spi_configure_running o.sdc }

-- One turn of `sdcard_task`; a write falls through to `ioctl`.
unfoldable pub run_job : DiskCodes → ℕ → Job → Sdcard → Option Outcome
run_job codes fuel initialize s =
    retry_init fuel init_retries (sdcard_spi_configure_startup s) >>= λ o. some (at_running_rate o)
run_job codes fuel status s =
    some (record { result = if s.card_available then 0 else codes.sta_nodisk; buff = []; sdc = s })
run_job codes fuel (read buff sector count) s =
    if s.card_available
    then read_sectors codes count 0 sector buff s
    else some (record { result = codes.res_notrdy; buff = buff; sdc = s })
run_job codes fuel write s = some (record { result = codes.res_error; buff = []; sdc = s })
run_job codes fuel ioctl s = some (record { result = codes.res_error; buff = []; sdc = s })

-- The notification of the caller, and what it takes out of it.
unfoldable pub notification : ℕ → ℕ
notification result = bit_or 0x01000000 (u32 (result * 2 ^ 25))

unfoldable pub notified : ℕ → ℕ
notified value = u8 (value / 2 ^ 25)

-- `sdcard_dacc_exec_job`; `queued` is whether the job is taken by the queue.
unfoldable pub sdcard_dacc_exec_job : DiskCodes → Bool → ℕ → Job → Sdcard → Option Outcome
unfolding run_job notification notified
sdcard_dacc_exec_job codes queued fuel job s =
    if queued
    then run_job codes fuel job s
      >>= (λ o. some (record o { result = notified (notification o.result) }))
    else some (record { result = 0xff; buff = []; sdc = s })

abbrev pub map_result : (ℕ → ℕ) → Option Outcome → Option Outcome
map_result f none = none
map_result f (some o) = some (record o { result = f o.result })

unfoldable pub sdcard_dacc_initialize : DiskCodes → Bool → ℕ → Sdcard → Option Outcome
sdcard_dacc_initialize codes queued fuel s =
    map_result (λ r. if r == 0 then 0 else codes.sta_nodisk)
      (sdcard_dacc_exec_job codes queued fuel initialize s)

unfoldable pub sdcard_dacc_status : DiskCodes → Bool → ℕ → Sdcard → Option Outcome
sdcard_dacc_status codes queued fuel s =
    map_result (λ r. if r == 0xff then codes.sta_nodisk else r)
      (sdcard_dacc_exec_job codes queued fuel status s)

abbrev pub error_if_lost : DiskCodes → ℕ → ℕ
error_if_lost codes r = if r == 0xff then codes.res_error else r

unfoldable pub sdcard_dacc_read : DiskCodes → Bool → ℕ → Bytes → ℕ → ℕ → Sdcard → Option Outcome
sdcard_dacc_read codes queued fuel buff sector count s =
    map_result (error_if_lost codes)
      (sdcard_dacc_exec_job codes queued fuel (read buff sector count) s)

unfoldable pub sdcard_dacc_write : DiskCodes → Bool → ℕ → Sdcard → Option Outcome
sdcard_dacc_write codes queued fuel s =
    map_result (error_if_lost codes) (sdcard_dacc_exec_job codes queued fuel write s)

-- It sends the job of a write.
unfoldable pub sdcard_dacc_ioctl : DiskCodes → Bool → ℕ → Sdcard → Option Outcome
sdcard_dacc_ioctl codes queued fuel s =
    map_result (error_if_lost codes) (sdcard_dacc_exec_job codes queued fuel write s)
