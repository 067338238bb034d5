-- ===== src/Lvol/Tests.antt =====
-- The theorems on src/libxbdev/lvol.c for the store `p` with the volume `v`.
use nblock.Prelude.{
  ◌*◌, ◌<◌, ◌^◌, ◌++◌, ◌≡◌, ◌↔◌, ◌⊎◌, refl, true, false, [], ◌∷◌, none, some, length, arith,
}
use nblock.Prelude.Names.{Name, same_name}
use nblock.Prelude.Errno.{ok}
use nblock.Sync.{Sync, Completes}
use nblock.Lvol.{
  Op, lvol_rename_op, lvol_resize, Spdk, thin, parsed, slash, parse_lvol_name, size_bytes, rename,
  resize,
}
use nblock.Lvol.Names.{no_slash, parse_lvol_name_iff, rename_lem}
use nblock.Lvol.Sizes.{resize_lem}
use nblock.Lvol.Calls.{volume_destroy, run, has_target, run-Asked}

abbrev done : Sync
done = record { allocated = true; ran = true; executed = ok }

done-Completes : Completes done
done-Completes = record { allocated = refl; ran = refl; executed = refl }

abbrev p : Name
p = b'p' ∷ []

abbrev v : Name
v = b'v' ∷ []

abbrev w : Name
w = b'w' ∷ []

abbrev env : Spdk
env = record {
  has_bdev = λ n. false;
  has_lvs = λ n. same_name n p;
  has_lvol = λ n m. same_name m v;
  accepted = ok;
  completion = ok;
  lvol_size = λ n m. 0;
  lvol_type = λ n m. thin;
  lvol_uuid = λ n m. [];
  lvs_base = λ n. none;
  lvs_clusters = λ n. (4096, 10, 5);
  lvs_uuid = λ n. [];
}

parse_lvol_name_iff_example : (parse_lvol_name 256 256 (some (p ++ slash ∷ v)) ≡ parsed p v) ↔ (
    (p ++ slash ∷ v ≡ p ++ slash ∷ v) × (no_slash p ≡ true) × (length p < 256) × (length v < 256))
parse_lvol_name_iff_example = parse_lvol_name_iff 256 256 (p ++ slash ∷ v) p v

rename_lem_example :
    rename env done (some (p ++ slash ∷ v)) (some (p ++ slash ∷ w)) []
    ≡ (ok, lvol_rename_op p v w ∷ [])
unfolding no_slash
rename_lem_example =
    rename_lem env done p v p w [] done-Completes refl (omega arith) (omega arith) refl
      (omega arith) (omega arith) refl refl

resize_lem_example :
    (resize env done (some (p ++ slash ∷ v)) 3 [] ≡ (ok, lvol_resize p v (size_bytes 3) ∷ []))
    × ((size_bytes 3 ≡ 3 * 1048576) ↔ (3 < 2 ^ 44))
unfolding no_slash
resize_lem_example =
    resize_lem env done p v 3 [] done-Completes refl (omega arith) (omega arith) refl refl refl

run-Asked_example :
    ((run env done (volume_destroy (some (p ++ slash ∷ v))) []).1 ≡ [])
    ⊎ ((op : Op) × (has_target env op ≡ true)
        × ((run env done (volume_destroy (some (p ++ slash ∷ v))) []).1 ≡ [] ++ op ∷ []))
run-Asked_example = run-Asked env done (volume_destroy (some (p ++ slash ∷ v))) []
