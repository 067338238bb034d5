-- ===== src/Security/Table.antt =====
-- Places in the table of encrypted volumes of src/libxbdev/security.c.
use nblock.Prelude.{
  ℕ, zero, suc, ◌<◌, true, false, List, [], ◌∷◌, none, some, length, set, Bool-cases, Option-cases,
  ◌≡◌, refl, sym, ap, ◌∙◌, inl, inr, arith,
}
use nblock.Prelude.Names.{Name, same_name, same_name_self}
use nblock.Security.Crypto.{EncryptedVol, zero_vol, vol_index, free_index, free_crypto_ctx}

-- An entry that is not in use is zero.
unfoldable pub Blank : List EncryptedVol → Type 0
Blank [] = true ≡ true
Blank (vol ∷ vols) = (vol.in_use ≡ false → vol ≡ zero_vol) × Blank vols

pub free_index-Blank :
    (vols : List EncryptedVol) (i : ℕ)
    → Blank vols
    → free_index vols ≡ some i
    → (i < length vols) × (set vols i zero_vol ≡ vols)
unfolding Blank free_index
free_index-Blank [] i blank found = absurd (cc found)
free_index-Blank (vol ∷ vols) i (clean, blank) found = elim (Bool-cases vol.in_use) [
  | inr unused ↦
      let at : i ≡ 0 = ground (arith, found, unused) in
      rw at (omega arith, ap (λ v. v ∷ vols) (sym (clean unused)))
  | inl used ↦ elim (Option-cases (free_index vols)) [
    | inl stuck ↦ absurd (ground (arith, found, used, stuck))
    | inr (j, at) ↦
        let next : i ≡ suc j = ground (arith, found, used, at) in
        let (small, same) = free_index-Blank vols j blank at in
        rw next (omega arith, ap (◌∷◌ vol) same)
  ]
]

pub vol_index-set :
    (lvol_name : Name) (vols : List EncryptedVol) (i : ℕ) (vol : EncryptedVol)
    → vol_index lvol_name vols ≡ none
    → free_index vols ≡ some i
    → vol.in_use ≡ true
    → vol.lvol_name ≡ lvol_name
    → vol_index lvol_name (set vols i vol) ≡ some i
unfolding vol_index free_index
vol_index-set lvol_name [] i vol out found used named = absurd (cc found)
vol_index-set lvol_name (x ∷ vols) i vol out found used named =
    let self = ap (λ n. same_name n lvol_name) named ∙ same_name_self lvol_name in
    elim (Bool-cases x.in_use) [
      | inr unused ↦
          let at : i ≡ 0 = ground (arith, found, unused) in rw at (ground (arith, self, used))
      | inl in_use ↦ elim (Option-cases (free_index vols)) [
        | inl stuck ↦ absurd (ground (arith, found, in_use, stuck))
        | inr (j, at) ↦
            let next : i ≡ suc j = ground (arith, found, in_use, at) in
            let differ : same_name x.lvol_name lvol_name ≡ false = ground (arith, out, in_use) in
            let later : vol_index lvol_name vols ≡ none =
              elim (Option-cases (vol_index lvol_name vols)) [
                | inl none_later ↦ none_later
                | inr (k, there) ↦ absurd (ground (arith, out, there, differ))
              ] in
            let rest = vol_index-set lvol_name vols j vol later at used named in
            rw next (ground (arith, rest, in_use, differ))
      ]
    ]

pub set-set :
    (vols : List EncryptedVol) (i : ℕ) (a b : EncryptedVol) → set (set vols i a) i b ≡ set vols i b
set-set [] i a b = refl
set-set (x ∷ vols) zero a b = refl
set-set (x ∷ vols) (suc i) a b = ap (◌∷◌ x) (set-set vols i a b)

-- A place for a volume that is not in the table.
pub record Place (lvol_name : Name) (vols : List EncryptedVol) (i : ℕ) : Type 0 where
  pub blank : Blank vols
  pub absent : vol_index lvol_name vols ≡ none
  pub found : free_index vols ≡ some i

-- What is freed again leaves the table as it was.
pub free-set :
    (lvol_name : Name) (vols : List EncryptedVol) (i : ℕ) (vol : EncryptedVol)
    → Place lvol_name vols i
    → vol.in_use ≡ true
    → vol.lvol_name ≡ lvol_name
    → free_crypto_ctx lvol_name (set vols i vol) ≡ vols
unfolding free_crypto_ctx
free-set lvol_name vols i vol p used named =
    let at = vol_index-set lvol_name vols i vol p.absent p.found used named in
    let (small, same) = free_index-Blank vols i p.blank p.found in
    ground (arith, at) ∙ set-set vols i vol zero_vol ∙ same
