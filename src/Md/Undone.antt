-- ===== src/Md/Undone.antt =====
-- What the creation of an array by src/libxbdev/md.c leaves in SPDK: the array with its disks, or nothing
-- at all.
use nblock.Prelude.{ℕ, suc, ◌==◌, if◌then◌else◌, Bool, true, false, List, [], ◌∷◌, ◌++◌, ◌≡◌}
use nblock.Prelude.Names.{Name}
use nblock.Prelude.Errno.{Rc, ok, fail}
use nblock.Md.Device.{Md, SpdkCall, create_raid, add_base, remove_base, delete_raid}
use nblock.Md.Create.{Env}
use nblock.Sync.{Sync}

abbrev pub Members : Type 0
Members = List (ℕ × Name)

-- Whether there is an array, and the disks that were added and not removed, with their places. Of a
-- call that returned 0 it is only taken that it did what its name says: a deletion removes no disk.
pub record Array : Type 0 where
  pub there : Bool
  pub members : Members

abbrev pub nothing : Array
nothing = record { there = false; members = [] }

unfoldable pub without : ℕ → Members → Members
without i [] = []
without i ((j, disk) ∷ members) =
    let rest = without i members in if j == i then members else (j, disk) ∷ rest

unfoldable pub effect : SpdkCall → Array → Array
effect (create_raid name level strip layout n ok) a = record a { there = true }
effect (create_raid name level strip layout n (fail e)) a = a
effect (add_base name disk i ok) a = record a { members = a.members ++ (i, disk) ∷ [] }
effect (add_base name disk i (fail e)) a = a
effect (remove_base name i ok) a = record a { members = without i a.members }
effect (remove_base name i (fail e)) a = a
effect (delete_raid name ok) a = record a { there = false }
effect (delete_raid name (fail e)) a = a

unfoldable pub replay : List SpdkCall → Array → Array
replay [] a = a
replay (call ∷ calls) a = replay calls (effect call a)

-- The disks at their places, from place `i` on.
unfoldable pub placed : ℕ → List Name → Members
placed i [] = []
placed i (bdev ∷ bdevs) = (i, bdev) ∷ placed (suc i) bdevs

-- The clean-up of the code works: what SPDK is asked to take back, it takes back.
pub record TakesBack (env : Env) : Type 0 where
  pub removed : (i : ℕ) → env.removed i ≡ ok
  pub deleted : env.deleted ≡ ok

-- The state in which an array has the first disks.
abbrev pub Has : List Name → Md → Type 0
Has bdevs s = replay s.calls nothing ≡ record { there = true; members = placed 0 bdevs }

-- What a creation leaves, by its result.
abbrev pub left_by : Rc → List Name → Array
left_by ok bdevs = record { there = true; members = placed 0 bdevs }
left_by (fail e) bdevs = nothing

abbrev pub Ends : List Name → Rc × Md → Type 0
Ends bdevs r = replay r.1.calls nothing ≡ left_by r.0 bdevs
