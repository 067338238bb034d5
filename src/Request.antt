-- ===== src/Request.antt =====
-- The request object that both request queues hand round: `xbdev_request_t` of
-- src/libxbdev/xbdev_internal.h, with the fields that src/libxbdev/request_queue.c and
-- src/libxbdev/queue.c read and write, and the dispatch table that the two share.
use nblock.Prelude.{ℕ, Bool, false, Option, none, some}
use nblock.Prelude.Errno.{Rc, ok}

-- `type`. The kinds that no switch of the two files names are `unknown`.
pub data Kind : Type 0 where
  read write readv writev flush unmap reset : Kind
  open_bdev close_bdev register_bdev remove_bdev : Kind
  raid_create raid_stop raid_assemble raid_examine raid_detail : Kind
  raid_manage raid_replace_disk raid_rebuild_control raid_set_disk_state : Kind
  lvol_create_pool lvol_destroy_pool lvol_create lvol_destroy lvol_resize : Kind
  lvol_snapshot lvol_clone lvol_rename lvol_get_info lvol_get_pool_info : Kind
  custom unknown : Kind

pub data Status : Type 0 where
  fresh submitted processing completed error : Status

-- `ctx`, `cb` and `cb_arg` are addresses; `none` is NULL.
pub record Request : Type 0 where
  pub req_id : ℕ
  pub kind : Kind
  pub status : Status
  pub ctx : Option ℕ
  pub cb : Option ℕ
  pub cb_arg : Option ℕ
  pub result : Rc
  pub sync_req : Bool
  pub done : Bool
  pub submit_tsc : ℕ
  pub complete_tsc : ℕ

-- What `memset` or `calloc` leaves: the first member of each enumeration, 0 and NULL.
abbrev pub zero_request : Request
zero_request = record {
  req_id = 0;
  kind = read;
  status = fresh;
  ctx = none;
  cb = none;
  cb_arg = none;
  result = ok;
  sync_req = false;
  done = false;
  submit_tsc = 0;
  complete_tsc = 0;
}

-- The functions that a switch calls, `xbdev_read_on_thread` and so on.
pub data Handler : Type 0 where
  open_on_thread close_on_thread read_on_thread write_on_thread : Handler
  readv_on_thread writev_on_thread flush_on_thread unmap_on_thread reset_on_thread : Handler
  register_bdev_on_thread device_remove_on_thread md_dispatch_request : Handler
  create_pool_on_thread destroy_pool_on_thread create_on_thread destroy_on_thread : Handler
  resize_on_thread snapshot_on_thread clone_on_thread rename_on_thread : Handler
  get_info_on_thread get_pool_info_on_thread : Handler

-- The switch on the request's type: the function that is called, or the default case.
unfoldable pub handler_of : Kind → Option Handler
handler_of open_bdev = some open_on_thread
handler_of close_bdev = some close_on_thread
handler_of read = some read_on_thread
handler_of write = some write_on_thread
handler_of readv = some readv_on_thread
handler_of writev = some writev_on_thread
handler_of flush = some flush_on_thread
handler_of unmap = some unmap_on_thread
handler_of reset = some reset_on_thread
handler_of register_bdev = some register_bdev_on_thread
handler_of remove_bdev = some device_remove_on_thread
handler_of raid_create = some md_dispatch_request
handler_of raid_stop = some md_dispatch_request
handler_of raid_assemble = some md_dispatch_request
handler_of raid_examine = some md_dispatch_request
handler_of raid_detail = some md_dispatch_request
handler_of raid_manage = some md_dispatch_request
handler_of raid_replace_disk = some md_dispatch_request
handler_of raid_rebuild_control = some md_dispatch_request
handler_of raid_set_disk_state = some md_dispatch_request
handler_of lvol_create_pool = some create_pool_on_thread
handler_of lvol_destroy_pool = some destroy_pool_on_thread
handler_of lvol_create = some create_on_thread
handler_of lvol_destroy = some destroy_on_thread
handler_of lvol_resize = some resize_on_thread
handler_of lvol_snapshot = some snapshot_on_thread
handler_of lvol_clone = some clone_on_thread
handler_of lvol_rename = some rename_on_thread
handler_of lvol_get_info = some get_info_on_thread
handler_of lvol_get_pool_info = some get_pool_info_on_thread
handler_of custom = none
handler_of unknown = none

-- What other code can observe while the queues are processed.
pub data Event : Type 0 where
  -- `pthread_cond_broadcast` on a queue's condition
  broadcast : Event
  -- a call of the user's function: its address, the request's id, the result and the argument
  callback : ℕ → ℕ → Rc → Option ℕ → Event
