-- ===== src/Md/Valid.antt =====
-- What holds of the table of arrays of src/libxbdev/md.c, and that the change of one record keeps it.
use mathlib.Core.Path.{subst}
use nblock.Prelude.{
  ℕ, zero, suc, true, List, [], ◌∷◌, some, get_or, set, length, length-set, Option-cases, ◌≡◌, sym,
  ap, ◌∙◌, inl, inr, arith,
}
use nblock.Prelude.Names.{Name}
use nblock.Prelude.Errno.{Rc}
use nblock.Md.Device.{MdDev, zero_dev, Md, find_md_by_name, on_device, bears}
use nblock.Md.Table.{Distinct, find-range, Distinct-set, bears-parts}
use nblock.Md.Sound.{Sound, Kept}

abbrev pub EachSound : List MdDev → Type 0
EachSound [] = Unit {0}
EachSound (d ∷ devices) = (d.active ≡ true → Sound d) × EachSound devices

-- There are 16 records, the active ones are sound, and no two of them have the same name.
pub record IsValid (s : Md) : Type 0 where
  pub sized : length s.devices ≡ 16
  pub distinct : Distinct s.devices
  pub sound : EachSound s.devices

pub EachSound-get_or :
    (devices : List MdDev) (i : ℕ)
    → EachSound devices
    → (get_or devices i zero_dev).active ≡ true
    → Sound (get_or devices i zero_dev)
EachSound-get_or [] i all up = absurd (cc up)
EachSound-get_or (d ∷ devices) zero all up = all.0 up
EachSound-get_or (d ∷ devices) (suc i) all up = EachSound-get_or devices i all.1 up

pub EachSound-set :
    (devices : List MdDev) (i : ℕ) (new : MdDev)
    → EachSound devices
    → (new.active ≡ true → Sound new)
    → EachSound (set devices i new)
EachSound-set [] i new all sound = tt
EachSound-set (d ∷ devices) zero new all sound = (sound, all.1)
EachSound-set (d ∷ devices) (suc i) new all sound = (all.0, EachSound-set devices i new all.1 sound)

-- A record is replaced by one that is kept from it, or that is not active.
pub IsValid-set :
    (s t : Md) (i : ℕ) (new : MdDev)
    → IsValid s
    → t.devices ≡ set s.devices i new
    → (new.active ≡ true → Sound new × (bears new.name (get_or s.devices i zero_dev) ≡ true))
    → IsValid t
IsValid-set s t i new v e named = record {
  sized = ap length e ∙ length-set s.devices i new ∙ v.sized;
  distinct = subst Distinct (sym e) (Distinct-set s.devices i new v.distinct (λ up. (named up).1));
  sound = subst EachSound (sym e) (EachSound-set s.devices i new v.sound (λ up. (named up).0));
}

pub IsValid-same : (s t : Md) → IsValid s → t.devices ≡ s.devices → IsValid t
IsValid-same s t v e = record {
  sized = ap length e ∙ v.sized;
  distinct = subst Distinct (sym e) v.distinct;
  sound = subst EachSound (sym e) v.sound;
}

-- The record that a search finds is sound.
pub found-Sound :
    (s : Md) (name : Name) (i : ℕ)
    → IsValid s
    → find_md_by_name name s.devices ≡ some i
    → Sound (get_or s.devices i zero_dev)
found-Sound s name i v at =
    let (small, here) = find-range name s.devices i at in
    EachSound-get_or s.devices i v.sound (bears-parts name (get_or s.devices i zero_dev) here).0

pub Kept-named :
    (name : Name) (old new : MdDev)
    → bears name old ≡ true
    → Kept old new
    → Sound new × (bears new.name old ≡ true)
Kept-named name old new here k =
    let (up, named) = bears-parts name old here in
    (k.sound, ap (λ n. bears n old) (k.same ∙ named) ∙ here)

pub on_device-IsValid :
    (name : Name) (body : MdDev → Rc × MdDev) (s : Md)
    → ((d : MdDev) → Sound d → Kept d (body d).1)
    → IsValid s
    → IsValid (on_device name body s).1
unfolding on_device
on_device-IsValid name body s keep v = elim (Option-cases (find_md_by_name name s.devices)) [
  | inl missing ↦ ground (arith, missing, v)
  | inr (i, at) ↦
      let d = get_or s.devices i zero_dev in
      let (small, here) = find-range name s.devices i at in
      let kept = keep d (found-Sound s name i v at) in
      IsValid-set s (on_device name body s).1 i (body d).1 v (ground (arith, at))
        (λ up. Kept-named name d (body d).1 here kept)
]
