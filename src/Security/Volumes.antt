-- ===== src/Security/Volumes.antt =====
-- Enabling and disabling the encryption of a volume in src/libxbdev/security.c.
use nblock.Prelude.{
  ℕ, ◌≤◌, Bool, true, List, some, length, get_or, set, get_or-set_self, Bool-cases, Option-cases,
  ◌≡◌, refl, ◌∙◌, ◌⊎◌, inl, inr, arith,
}
use nblock.Prelude.Names.{Name, clip, clip_short}
use nblock.Prelude.Errno.{Errno, enomem, enoent, eexist, enotsup, Rc-cases, ok, fail}
use nblock.Security.Crypto.{
  Algorithm, EncryptionConfig, CryptoCtx, EncryptedVol, zero_vol, OpenSsl, derive_key,
  init_crypto_ctx, vol_index, free_index, alloc_crypto_ctx, is_supported, key_size_of, fill_entry,
  encryption_enable, encryption_disable, encryption_get_status,
}
use nblock.Security.Table.{Blank, free_index-Blank, vol_index-set, set-set, Place, free-set}

init_crypto_ctx-ok :
    (env : OpenSsl) (algorithm : Algorithm) (key : List ℕ) (key_size sector_size : ℕ)
    (ctx : CryptoCtx)
    → (init_crypto_ctx env algorithm key key_size sector_size ctx).0 ≡ ok
    → ((init_crypto_ctx env algorithm key key_size sector_size ctx).1.enabled ≡ true)
      × ((init_crypto_ctx env algorithm key key_size sector_size ctx).1.algorithm ≡ algorithm)
unfolding init_crypto_ctx
init_crypto_ctx-ok env algorithm key key_size sector_size ctx good =
    (ground (arith, good), ground (arith, good))

Derived-cases :
    (r : Errno ⊎ List ℕ) → ((e : Errno) × (r ≡ inl e)) ⊎ ((key : List ℕ) × (r ≡ inr key))
Derived-cases (inl e) = inl (e, refl)
Derived-cases (inr key) = inr (key, refl)

-- An entry for the volume, encrypted with the algorithm.
record Encrypts (lvol_name : Name) (algorithm : Algorithm) (vol : EncryptedVol) : Type 0 where
  used : vol.in_use ≡ true
  named : vol.lvol_name ≡ lvol_name
  enabled : vol.crypto_ctx.enabled ≡ true
  kind : vol.crypto_ctx.algorithm ≡ algorithm

fill_entry_lem :
    (env : OpenSsl) (lvol_name : Name) (config : EncryptionConfig) (i : ℕ)
    (vols : List EncryptedVol) (vol : EncryptedVol)
    → Place lvol_name vols i
    → vol.in_use ≡ true
    → vol.lvol_name ≡ lvol_name
    → ((e : Errno) × (fill_entry env lvol_name config i (set vols i vol) ≡ (fail e, vols)))
      ⊎ ((stored : EncryptedVol) × (fill_entry env lvol_name config i (set vols i vol)
            ≡ (ok, set vols i stored))
          × Encrypts lvol_name config.algorithm stored)
unfolding fill_entry
fill_entry_lem env lvol_name config i vols vol p used named =
    let (small, same) = free_index-Blank vols i p.blank p.found in
    let key_size = key_size_of config.algorithm in
    let at : get_or (set vols i vol) i zero_vol ≡ vol = get_or-set_self vols i vol zero_vol small in
    elim (Derived-cases (derive_key env config key_size)) [
      | inl (e, refused) ↦
          inl (e, ground (arith, refused, free-set lvol_name vols i vol p used named))
      | inr (key, derived) ↦
          let tried =
            init_crypto_ctx env config.algorithm key key_size config.sector_size vol.crypto_ctx in
          let stored : EncryptedVol = record vol { crypto_ctx = tried.1 } in
          let twice = set-set vols i vol stored in
          elim (Rc-cases tried.0) [
            | inr (e, failed) ↦ inl (
              e,
              ground (
                arith,
                derived,
                at,
                failed,
                twice,
                free-set lvol_name vols i stored p used named,
              ),
            )
            | inl good ↦
                let (enabled, kind) =
                  init_crypto_ctx-ok env config.algorithm key key_size config.sector_size
                    vol.crypto_ctx good in
                inr (
                  stored,
                  ground (arith, derived, at, good, twice),
                  record { used = used; named = named; enabled = enabled; kind = kind },
                )
          ]
    ]

-- If every entry that is not in use is zero and the volume's name has at most 255 bytes, enabling its
-- encryption returns an error and leaves the table as it was, or returns 0, and then the volume is
-- encrypted with the algorithm of the configuration, and disabling it gives back the table, whatever
-- passphrase is given for that, since the code does not verify it.
pub encryption_enable_lem :
    (env : OpenSsl) (vol_exists : Bool) (lvol_name passphrase : Name) (config : EncryptionConfig)
    (vols : List EncryptedVol)
    → Blank vols
    → length lvol_name ≤ 255
    → ((e : Errno) × (encryption_enable env vol_exists (some lvol_name) (some config) vols
          ≡ (fail e, vols)))
      ⊎ ((after : List EncryptedVol) × (encryption_enable env vol_exists
              (some lvol_name)
              (some config)
              vols
            ≡ (ok, after))
          × (encryption_get_status lvol_name after ≡ some config.algorithm)
          × (encryption_disable (some lvol_name) (some passphrase) after ≡ (ok, vols)))
unfolding encryption_enable alloc_crypto_ctx encryption_get_status encryption_disable
encryption_enable_lem env vol_exists lvol_name passphrase config vols blank short =
    elim (Bool-cases vol_exists) [
      | inr missing ↦ inl (enoent, ground (arith, missing))
      | inl known ↦ elim (Bool-cases (is_supported config.algorithm)) [
        | inr unsupported ↦ inl (enotsup, ground (arith, known, unsupported))
        | inl supported ↦ elim (Option-cases (vol_index lvol_name vols)) [
          | inr (i, present) ↦ inl (eexist, ground (arith, known, supported, present))
          | inl absent ↦ elim (Option-cases (free_index vols)) [
            | inl full ↦ inl (enomem, ground (arith, known, supported, absent, full))
            | inr (i, found) ↦
                let place : Place lvol_name vols i = record {
                  blank = blank;
                  absent = absent;
                  found = found;
                } in
                let vol : EncryptedVol = record (get_or vols i zero_vol) {
                  in_use = true;
                  lvol_name = clip lvol_name;
                } in
                let runs : encryption_enable env vol_exists (some lvol_name) (some config) vols
                    ≡ fill_entry env lvol_name config i (set vols i vol) =
                  ground (arith, known, supported, absent, found) in
                let named = clip_short lvol_name short in
                elim (fill_entry_lem env lvol_name config i vols vol place refl named) [
                  | inl (e, failed) ↦ inl (e, runs ∙ failed)
                  | inr (stored, there, enc) ↦
                      let (small, same) = free_index-Blank vols i blank found in
                      let at =
                        vol_index-set lvol_name vols i stored absent found enc.used enc.named in
                      let self = get_or-set_self vols i stored zero_vol small in
                      inr (
                        set vols i stored,
                        runs ∙ there,
                        ground (arith, at, self, enc.enabled, enc.kind),
                        ground
                            (arith, at, free-set lvol_name vols i stored place enc.used enc.named),
                      )
                ]
          ]
        ]
      ]
    ]
