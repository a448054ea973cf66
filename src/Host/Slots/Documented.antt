-- ===== src/Host/Slots/Documented.antt =====
-- src/main.rs, `set_storage`: the status that it reports, beside the one that include/evmc/evmc.h
-- documents.
use play_evmone.Base.{◌+◌, ◌^◌, ◌<◌, Bool, true, false, Option, none, some, ◌==◌, if◌then◌else◌}
use play_evmone.Bytes.{fixed_bytes_eq, Bytes32, fixed_eq, default}
use play_evmone.Evmc.{StorageStatus}
use play_evmone.Host.{Value}

-- Is this word zero?
abbrev is_zero : Bytes32 → Bool
is_zero v = fixed_eq v (default 32)

-- The comments of `evmc_storage_status`: 0 -> 0 and X -> X leave a value unchanged, X -> 0 deletes
-- it, 0 -> X adds it, X -> Y modifies it, and if it has been modified before, again. A slot that is
-- not there reads as zero.
abbrev pub documented : Option Value → Bytes32 → StorageStatus
documented none v = if is_zero v then StorageStatus.unchanged else StorageStatus.added
documented (some old) v =
    if fixed_eq v old.value
    then StorageStatus.unchanged
    else if is_zero v
    then StorageStatus.deleted
    else if is_zero old.value
    then StorageStatus.added
    else if old.modify_time == 0
    then StorageStatus.modified
    else StorageStatus.modified_again

-- A new slot is written a nonzero value, a slot that has changed before is written its own value,
-- or a nonzero value replaces another nonzero one.
abbrev pub agrees : Option Value → Bytes32 → Bool
agrees none v = if is_zero v then false else true
agrees (some old) v =
    if fixed_eq v old.value
    then (if old.modify_time == 0 then false else true)
    else if is_zero v
    then false
    else if is_zero old.value
    then false
    else true

-- The counter of the slot has room for one more change.
abbrev HasRoom : Option Value → Type 0
HasRoom none = Unit
HasRoom (some old) = old.modify_time + 1 < 2 ^ 64
