-- ===== src/Nfcp/Log.antt =====
-- `nfcp_cls_mgmt_log_handler`: how much of a message a packet takes, and that its frame fits.
use nodeflight_fw.Base.{ℕ, ◌-◌, Option, some, [], ◌∷◌, ◌++◌, ◌≡◌, Bytes, length, take, drop}
use nodeflight_fw.Nfcp.State.{Nfcp}

-- What is left of the buffer behind the text, and the text's length.
abbrev Copied : ℕ → Bytes → Bytes → Bytes → Option (Bytes × ℕ) → Type 0
Copied room cs xs ys r =
    r ≡ some ((xs ++ take room cs) ++ drop (length (take room cs)) ys, length (xs ++ take room cs))

-- The packet that carries a log message: the header, at most 124 bytes of the task's name, a tab,
-- and as much of the message as 128 bytes hold.
abbrev pub log_head : Bytes → Bytes
log_head task_name = 0 ∷ 1 ∷ 0 ∷ (take 124 task_name ++ b'\t' ∷ [])

abbrev pub log_of : Bytes → Bytes → Bytes
log_of task_name message = log_head task_name ++ take (128 - length (log_head task_name)) message
