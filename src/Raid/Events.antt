-- ===== src/Raid/Events.antt =====
-- The event callbacks of src/libxbdev/raid.c and the state that the RAID functions share. Calls of the
-- user's functions and of the RAID module of SPDK are recorded in a log.
use nblock.Prelude.{
  ℕ, ◌-◌, ◌==◌, if◌then◌else◌, Bool, true, false, not, ◌&&◌, List, [], ◌∷◌, ◌++◌, map, Option, none,
  some, take,
}
use nblock.Prelude.Names.{Name}
use nblock.Prelude.Errno.{einval, enomem, enoent, Rc, ok, fail}
use nblock.Raid.Spares.{SpareEntry, or_empty}

-- The addresses of the user's function and of its argument.
pub record CallbackEntry : Type 0 where
  pub cb : ℕ
  pub ctx : Option ℕ

pub data EventType : Type 0 where
  disk_failure hot_spare_activated raid_degraded raid_resyncing raid_recovered raid_failed :
      EventType

pub record MdEvent : Type 0 where
  pub type : EventType
  pub timestamp : ℕ
  pub md_name : Name
  pub disk_name : Name

-- What leaves the library: a call of a user's function, or `xbdev_md_manage` for the replacement of
-- a disk of an array by another.
pub data Action : Type 0 where
  call : CallbackEntry → MdEvent → Action
  replace_disk : Name → Name → Name → Action

-- `same_ctx` is the comparison of the two pointers.
abbrev pub same_ctx : Option ℕ → Option ℕ → Bool
same_ctx none none = true
same_ctx none (some b) = false
same_ctx (some a) none = false
same_ctx (some a) (some b) = a == b

unfoldable pub register_event_cb :
    Bool → Option ℕ → Option ℕ → List CallbackEntry → Rc × List CallbackEntry
register_event_cb allocated none ctx callbacks = (fail einval, callbacks)
register_event_cb allocated (some cb) ctx callbacks =
    if not allocated
    then (fail enomem, callbacks)
    else (ok, record { cb = cb; ctx = ctx } ∷ callbacks)

-- The loop of `xbdev_md_unregister_event_cb`; `none` is its end without a match.
unfoldable pub drop_callback : ℕ → Option ℕ → List CallbackEntry → Option (List CallbackEntry)
drop_callback cb ctx [] = none
drop_callback cb ctx (entry ∷ callbacks) =
    let rest = drop_callback cb ctx callbacks in
    if entry.cb == cb && same_ctx entry.ctx ctx
    then some callbacks
    else elim rest [ none ↦ none | some left ↦ some (entry ∷ left) ]

unfoldable pub unregister_event_cb :
    Option ℕ → Option ℕ → List CallbackEntry → Rc × List CallbackEntry
unregister_event_cb none ctx callbacks = (fail einval, callbacks)
unregister_event_cb (some cb) ctx callbacks = elim (drop_callback cb ctx callbacks) [
  | none ↦ (fail enoent, callbacks)
  | some left ↦ (ok, left)
]

-- A record of the table of `_xbdev_raid_check_status`. The progress is a float that is only stored
-- and printed: it stands for its bit pattern.
pub record Slot : Type 0 where
  pub md_name : Name
  pub last_state : ℕ
  pub failed_disks : ℕ
  pub resync_progress : ℕ

-- The static variables of the file. `pollers` are the handles that SPDK gave out and did not get back.
pub record Raid : Type 0 where
  pub callbacks : List CallbackEntry
  pub spares : List SpareEntry
  pub states : List Slot
  pub active : Bool
  pub timer : Option ℕ
  pub pollers : List ℕ
  pub log : List Action

pub record Disk : Type 0 where
  pub name : Name
  pub state : ℕ

-- The fields of `xbdev_md_detail_t` that the check reads.
pub record Detail : Type 0 where
  pub state : ℕ
  pub raid_disks : ℕ
  pub failed_disks : ℕ
  pub resync_progress : ℕ
  pub disks : List Disk

-- What lies outside: the sizes of the name fields of `xbdev_md_event_t`, which no header of the
-- repository declares, `time(NULL)`, and what `xbdev_md_detail` finds, `none` where it fails. The
-- last two may depend on all that happened before.
pub record Env : Type 0 where
  pub md_size : ℕ
  pub disk_size : ℕ
  pub clock : List Action → ℕ
  pub detail : List Action → Name → Option Detail

unfoldable pub notify : Env → EventType → Option Name → Option Name → Raid → Raid
notify env type md_name disk_name s =
    let event : MdEvent = record {
      type = type;
      timestamp = env.clock s.log;
      md_name = take (env.md_size - 1) (or_empty md_name);
      disk_name = take (env.disk_size - 1) (or_empty disk_name);
    } in
    record s { log = s.log ++ map (λ entry. call entry event) s.callbacks }
