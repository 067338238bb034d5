-- ===== src/Raid/Undo.antt =====
-- In the lists of src/libxbdev/raid.c a removal undoes the addition before it.
use nblock.Prelude.{ℕ, ◌≤◌, true, false, List, Option, none, some, length, ◌≡◌, refl, arith}
use nblock.Prelude.Names.{Name, same_name_self, clip, clip_short}
use nblock.Prelude.Errno.{ok}
use nblock.Raid.Spares.{
  SpareEntry, or_empty, add_hot_spare, drop_spare, remove_hot_spare, is_other_array,
}
use nblock.Raid.Events.{
  CallbackEntry, same_ctx, register_event_cb, drop_callback, unregister_event_cb,
}

-- If the disk exists, its entry is allocated, its name has at most 255 bytes, and the removal names no
-- array or the array of the addition, or the addition named none, then removing a disk that was
-- added last gives back the list that there was before.
pub remove-add_hot_spare :
    (added removed : Option Name) (disk : Name) (spares : List SpareEntry)
    → length disk ≤ 255
    → is_other_array removed
        (record { md_name = clip (or_empty added); disk_name = clip disk; in_use = false })
      ≡ false
    → remove_hot_spare removed (some disk) (add_hot_spare true true added (some disk) spares).1
      ≡ (ok, spares)
unfolding remove_hot_spare add_hot_spare drop_spare
remove-add_hot_spare added removed disk spares short same =
    ground (arith, same, clip_short disk short, same_name_self disk)

same_ctx_self : (ctx : Option ℕ) → same_ctx ctx ctx ≡ true
same_ctx_self none = refl
same_ctx_self (some a) = ground arith

-- If the entry is allocated, taking back a callback that was registered last gives back the list of
-- callbacks that there was before.
pub unregister-register_event_cb :
    (cb : ℕ) (ctx : Option ℕ) (callbacks : List CallbackEntry)
    → unregister_event_cb (some cb) ctx (register_event_cb true (some cb) ctx callbacks).1
      ≡ (ok, callbacks)
unfolding unregister_event_cb register_event_cb drop_callback
unregister-register_event_cb cb ctx callbacks = ground (arith, same_ctx_self ctx)
