-- ===== src/Md/Keeps.antt =====
-- The functions of src/libxbdev/md.c on an SPDK thread keep the table of arrays valid.
use nblock.Prelude.{
  ◌≤◌, ltb, Bool, true, List, Option, none, get_or, length, Bool-cases, Option-cases, ◌≡◌, inl, inr,
  arith,
}
use nblock.Prelude.Names.{Name}
use nblock.Prelude.Errno.{Rc-cases}
use nblock.Md.Device.{Level, zero_dev, Md, find_md_by_name, find_disk}
use nblock.Md.Create.{
  Env, Config, strip_size_kb, layout_of, log, create_bdev, create_named, assemble_named, stopped,
  stop_on_thread,
}
use nblock.Md.Manage.{replaced, replace_at, replace_disk_on_thread}
use nblock.Md.Table.{find-range}
use nblock.Md.Sound.{Kept-replaced, find_disk-range}
use nblock.Md.Valid.{Kept-named, IsValid, IsValid-set, IsValid-same, found-Sound}
use nblock.Md.Stored.{Stored-create_bdev, Stored-IsValid}

pub create_named-IsValid :
    (env : Env) (level : Level) (config : Option Config) (name : Name) (bdevs : List Name) (s : Md)
    → length name ≤ 63
    → find_md_by_name name s.devices ≡ none
    → IsValid s
    → IsValid (create_named env level config name bdevs s).1
unfolding create_named
create_named-IsValid env level config name bdevs s short fresh v =
    let strip = strip_size_kb config in
    let layout = layout_of config in
    let done = create_bdev env env.visible name level strip layout bdevs s in
    let end = Stored-create_bdev env name level strip layout bdevs env.visible s in
    elim (Bool-cases (ltb (length bdevs) 2)) [
      | inl few ↦ ground (arith, few, v)
      | inr enough ↦
          let two : 2 ≤ length bdevs = ground (arith, enough) in
          ground (
            arith,
            v,
            Stored-IsValid env name level strip layout bdevs s done.1 done.0 two short fresh v end,
          )
    ]

pub assemble_named-IsValid :
    (env : Env) (level : Level) (name : Name) (bdevs : List Name) (s : Md)
    → length name ≤ 63
    → find_md_by_name name s.devices ≡ none
    → IsValid s
    → IsValid (assemble_named env level name bdevs s).1
unfolding assemble_named
assemble_named-IsValid env level name bdevs s short fresh v =
    let done = create_bdev env true name level 64 0 bdevs s in
    let end = Stored-create_bdev env name level 64 0 bdevs true s in
    elim (Bool-cases (ltb (length bdevs) 2)) [
      | inl few ↦ ground (arith, few, v)
      | inr enough ↦
          let two : 2 ≤ length bdevs = ground (arith, enough) in
          ground (
            arith,
            v,
            Stored-IsValid env name level 64 0 bdevs s done.1 done.0 two short fresh v end,
          )
    ]

pub stop_on_thread-IsValid :
    (env : Env) (name : Name) (s : Md) → IsValid s → IsValid (stop_on_thread env name s).1
unfolding stop_on_thread log
stop_on_thread-IsValid env name s v = elim (Option-cases (find_md_by_name name s.devices)) [
  | inl missing ↦ rw (missing, stop_on_thread) v
  | inr (i, at) ↦ elim (Rc-cases env.deleted) [
    | inr (e, bad) ↦ IsValid-same s (stop_on_thread env name s).1 v (ground (arith, at, bad))
    | inl good ↦
        IsValid-set s (stop_on_thread env name s).1 i (stopped (get_or s.devices i zero_dev)) v
          (ground (arith, at, good)) (λ up. absurd (cc up))
  ]
]

pub replace_disk_on_thread-IsValid :
    (env : Env) (auto : Bool) (old_disk new_disk name : Name) (s : Md)
    → IsValid s
    → IsValid (replace_disk_on_thread env auto old_disk new_disk name s).1
unfolding replace_disk_on_thread replace_at log
replace_disk_on_thread-IsValid env auto old_disk new_disk name s v =
    let t = (replace_disk_on_thread env auto old_disk new_disk name s).1 in
    elim (Option-cases (find_md_by_name name s.devices)) [
      | inl missing ↦ IsValid-same s t v (ground (arith, missing))
      | inr (slot, at) ↦
          let d = get_or s.devices slot zero_dev in
          let (small, here) = find-range name s.devices slot at in
          let sound = found-Sound s name slot v at in
          elim (Option-cases (find_disk old_disk d.disk_count d.disk_names)) [
            | inl absent ↦ IsValid-same s t v (ground (arith, at, absent))
            | inr (i, found) ↦
                let inside = (find_disk-range old_disk d.disk_count d.disk_names i found).0 in
                let new = replaced (env.copied i) auto new_disk i d in
                let keep = Kept-replaced (env.copied i) auto new_disk i d sound inside in
                elim (Bool-cases (env.exists new_disk)) [
                  | inr lost ↦ IsValid-same s t v (ground (arith, at, found, lost))
                  | inl there ↦ elim (Rc-cases (env.removed i)) [
                    | inr (e, bad) ↦ IsValid-same s t v (ground (arith, at, found, there, bad))
                    | inl out ↦ elim (Rc-cases (env.added i)) [
                      | inr (e, bad) ↦
                          IsValid-same s t v (ground (arith, at, found, there, out, bad))
                      | inl done ↦
                          IsValid-set s t slot new v (ground (arith, at, found, there, out, done))
                            (λ up. Kept-named name d new here keep)
                    ]
                  ]
                ]
          ]
    ]
