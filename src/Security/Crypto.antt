-- ===== src/Security/Crypto.antt =====
-- The table of encrypted volumes of src/libxbdev/security.c. Its lock is not modelled: each function is
-- one step.
use nblock.Prelude.{
  ℕ, if◌then◌else◌, Bool, true, false, not, ◌&&◌, List, [], ◌∷◌, ◌++◌, Option, none, some, suc,
  take, replicate, get_or, set, ◌⊎◌, inl, inr,
}
use nblock.Prelude.Names.{Name, same_name, clip}
use nblock.Prelude.Errno.{Errno, einval, enomem, enoent, eexist, enotsup, Rc, ok, fail}

pub data Algorithm : Type 0 where
  no_encryption aes_xts_128 aes_xts_256 aes_cbc_256 sm4 custom : Algorithm

pub data KeyMethod : Type 0 where
  plain pbkdf2 scrypt argon2id : KeyMethod
  unknown_method : ℕ → KeyMethod

-- `salt` has `salt_length` bytes.
pub record EncryptionConfig : Type 0 where
  pub algorithm : Algorithm
  pub key_method : KeyMethod
  pub sector_size : ℕ
  pub kdf_iterations : ℕ
  pub passphrase : Name
  pub salt : List ℕ

-- `key` holds the first `key_size` bytes of the array.
pub record CryptoCtx : Type 0 where
  pub algorithm : Algorithm
  pub enabled : Bool
  pub sector_size : ℕ
  pub key : List ℕ
  pub key_size : ℕ
  pub iv : List ℕ
  pub cipher_ctx : Option ℕ

pub record EncryptedVol : Type 0 where
  pub in_use : Bool
  pub lvol_name : Name
  pub crypto_ctx : CryptoCtx

abbrev pub zero_ctx : CryptoCtx
zero_ctx = record {
  algorithm = no_encryption;
  enabled = false;
  sector_size = 0;
  key = [];
  key_size = 0;
  iv = [];
  cipher_ctx = none;
}

abbrev pub zero_vol : EncryptedVol
zero_vol = record { in_use = false; lvol_name = []; crypto_ctx = zero_ctx }

-- What OpenSSL answers: the key of PBKDF2 from passphrase, salt, iterations and size, whether it has the
-- algorithm, a new cipher context, and random bytes.
pub record OpenSsl : Type 0 where
  pub pbkdf2_key : Name → List ℕ → ℕ → ℕ → Option (List ℕ)
  pub has_cipher : Algorithm → Bool
  pub new_ctx : Option ℕ
  pub random_iv : Option (List ℕ)

-- An error or the key.
unfoldable pub derive_key : OpenSsl → EncryptionConfig → ℕ → Errno ⊎ List ℕ
derive_key env config key_size = elim config.key_method [
  | plain ↦ inr (take key_size (config.passphrase ++ replicate key_size 0))
  | pbkdf2 ↦ elim (env.pbkdf2_key config.passphrase config.salt config.kdf_iterations key_size) [
    | none ↦ inl einval
    | some key ↦ inr key
  ]
  | scrypt ↦ inl enotsup
  | argon2id ↦ inl enotsup
  | unknown_method n ↦ inl einval
]

-- The switch of `init_crypto_ctx`: an error, or whether OpenSSL has the cipher.
abbrev pub select_cipher : OpenSsl → Algorithm → Errno ⊎ Bool
select_cipher env no_encryption = inl einval
select_cipher env aes_xts_128 = inr (env.has_cipher aes_xts_128)
select_cipher env aes_xts_256 = inr (env.has_cipher aes_xts_256)
select_cipher env aes_cbc_256 = inr (env.has_cipher aes_cbc_256)
select_cipher env sm4 = inl enotsup
select_cipher env custom = inl enotsup

unfoldable pub init_crypto_ctx : OpenSsl → Algorithm → List ℕ → ℕ → ℕ → CryptoCtx → Rc × CryptoCtx
init_crypto_ctx env algorithm key key_size sector_size ctx = elim (select_cipher env algorithm) [
  | inl e ↦ (fail e, ctx)
  | inr has_cipher ↦ if not has_cipher then (fail einval, ctx) else (elim env.new_ctx [
    | none ↦ (fail enomem, record ctx { cipher_ctx = none })
    | some cipher ↦
        let filled : CryptoCtx = record ctx {
          cipher_ctx = some cipher;
          algorithm = algorithm;
          key = key;
          key_size = key_size;
          sector_size = sector_size;
          enabled = true;
        } in
        elim env.random_iv [
          | none ↦ (fail einval, record filled { cipher_ctx = none })
          | some iv ↦ (ok, record filled { iv = iv })
        ]
  ])
]

-- The index of the entry that `find_crypto_ctx` finds.
unfoldable pub vol_index : Name → List EncryptedVol → Option ℕ
vol_index lvol_name [] = none
vol_index lvol_name (vol ∷ vols) =
    let rest = vol_index lvol_name vols in
    if vol.in_use && same_name vol.lvol_name lvol_name
    then some 0
    else elim rest [ none ↦ none | some i ↦ some (suc i) ]

unfoldable pub free_index : List EncryptedVol → Option ℕ
free_index [] = none
free_index (vol ∷ vols) =
    let rest = free_index vols in
    if not vol.in_use then some 0 else elim rest [ none ↦ none | some i ↦ some (suc i) ]

-- The index of the entry, and the table.
unfoldable pub alloc_crypto_ctx : Name → List EncryptedVol → Option (ℕ × List EncryptedVol)
alloc_crypto_ctx lvol_name vols = elim (vol_index lvol_name vols) [
  | some i ↦ some (i, vols)
  | none ↦ elim (free_index vols) [
    | none ↦ none
    | some i ↦
        let vol = get_or vols i zero_vol in
        some (i, set vols i (record vol { in_use = true; lvol_name = clip lvol_name }))
  ]
]

unfoldable pub free_crypto_ctx : Name → List EncryptedVol → List EncryptedVol
free_crypto_ctx lvol_name vols = elim (vol_index lvol_name vols) [
  | none ↦ vols
  | some i ↦ set vols i zero_vol
]

abbrev pub is_supported : Algorithm → Bool
is_supported no_encryption = false
is_supported aes_xts_128 = true
is_supported aes_xts_256 = true
is_supported aes_cbc_256 = true
is_supported sm4 = true
is_supported custom = false

abbrev pub key_size_of : Algorithm → ℕ
key_size_of no_encryption = 32
key_size_of aes_xts_128 = 16
key_size_of aes_xts_256 = 32
key_size_of aes_cbc_256 = 32
key_size_of sm4 = 32
key_size_of custom = 32

-- The part of `xbdev_encryption_enable` after the allocation of the entry at index i.
unfoldable pub fill_entry :
    OpenSsl → Name → EncryptionConfig → ℕ → List EncryptedVol → Rc × List EncryptedVol
fill_entry env lvol_name config i vols =
    let key_size = key_size_of config.algorithm in
    let vol = get_or vols i zero_vol in
    elim (derive_key env config key_size) [
      | inl e ↦ (fail e, free_crypto_ctx lvol_name vols)
      | inr key ↦
          let (rc, ctx) =
            init_crypto_ctx env config.algorithm key key_size config.sector_size vol.crypto_ctx in
          let stored = set vols i (record vol { crypto_ctx = ctx }) in
          elim rc [ ok ↦ (ok, stored) | fail e ↦ (fail e, free_crypto_ctx lvol_name stored) ]
    ]

-- `vol_exists` is whether SPDK knows the volume.
unfoldable pub encryption_enable :
    OpenSsl
    → Bool
    → Option Name
    → Option EncryptionConfig
    → List EncryptedVol
    → Rc × List EncryptedVol
encryption_enable env vol_exists none config vols = (fail einval, vols)
encryption_enable env vol_exists (some lvol_name) none vols = (fail einval, vols)
encryption_enable env vol_exists (some lvol_name) (some config) vols =
    if not vol_exists
    then (fail enoent, vols)
    else (if not (is_supported config.algorithm)
        then (fail enotsup, vols)
        else (elim (vol_index lvol_name vols) [
          | some i ↦ (fail eexist, vols)
          | none ↦ elim (alloc_crypto_ctx lvol_name vols) [
            | none ↦ (fail enomem, vols)
            | some (i, taken) ↦ fill_entry env lvol_name config i taken
          ]
        ]))

unfoldable pub encryption_disable :
    Option Name → Option Name → List EncryptedVol → Rc × List EncryptedVol
encryption_disable none passphrase vols = (fail einval, vols)
encryption_disable (some lvol_name) none vols = (fail einval, vols)
encryption_disable (some lvol_name) (some passphrase) vols = elim (vol_index lvol_name vols) [
  | none ↦ (fail einval, vols)
  | some i ↦ (ok, free_crypto_ctx lvol_name vols)
]

-- For arguments that are not NULL: the algorithm of an encrypted volume, `none` where it is not
-- encrypted.
unfoldable pub encryption_get_status : Name → List EncryptedVol → Option Algorithm
encryption_get_status lvol_name vols = elim (vol_index lvol_name vols) [
  | none ↦ none
  | some i ↦
      let ctx = (get_or vols i zero_vol).crypto_ctx in
      if ctx.enabled then some ctx.algorithm else none
]

-- `xbdev_security_init`, and `xbdev_security_fini`, which frees the cipher contexts of the entries in use.
unfoldable pub init_vols : List EncryptedVol
init_vols = replicate 128 zero_vol

unfoldable pub fini_vols : List EncryptedVol → List EncryptedVol
fini_vols [] = []
fini_vols (vol ∷ vols) =
    let rest = fini_vols vols in
    if vol.in_use
    then record vol { crypto_ctx = record vol.crypto_ctx { cipher_ctx = none } } ∷ rest
    else vol ∷ rest
