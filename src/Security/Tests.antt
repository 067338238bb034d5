-- ===== src/Security/Tests.antt =====
-- The theorems on src/libxbdev/security.c for a table of two entries and a list of two users.
use nblock.Prelude.{◌≡◌, refl, true, false, List, [], ◌∷◌, none, some, arith, ◌⊎◌}
use nblock.Prelude.Names.{Name}
use nblock.Prelude.Errno.{Errno, eacces, ok, fail}
use nblock.Security.Crypto.{
  aes_cbc_256, plain, EncryptionConfig, EncryptedVol, zero_ctx, zero_vol, OpenSsl,
  encryption_enable, encryption_disable, encryption_get_status,
}
use nblock.Security.Table.{Blank}
use nblock.Security.Volumes.{encryption_enable_lem}
use nblock.Security.Access.{
  open_mode, token_mode, AccessControl, zero_token, Security, set_access_control, authenticate,
  TokenEnv,
}
use nblock.Security.Lockout.{generates, cleans, run, authenticate-set_access_control}
use nblock.Security.Allowed.{check_allowed, trim_end}
use nblock.Security.Listed.{Padded, join, is_listed, AllPlain, check_allowed-join}

abbrev lvol : Name
lvol = 108 ∷ 118 ∷ []

abbrev bob : Name
bob = 98 ∷ 111 ∷ 98 ∷ []

abbrev ann : Name
ann = 97 ∷ 110 ∷ 110 ∷ []

abbrev vols : List EncryptedVol
vols = record { in_use = true; lvol_name = 120 ∷ []; crypto_ctx = zero_ctx } ∷ zero_vol ∷ []

abbrev open_ssl : OpenSsl
open_ssl = record {
  pbkdf2_key = λ passphrase salt iterations size. none;
  has_cipher = λ algorithm. true;
  new_ctx = some 9;
  random_iv = some (1 ∷ 2 ∷ []);
}

abbrev cbc : EncryptionConfig
cbc = record {
  algorithm = aes_cbc_256;
  key_method = plain;
  sector_size = 512;
  kdf_iterations = 0;
  passphrase = bob;
  salt = [];
}

vols-Blank : Blank vols
unfolding Blank
vols-Blank = (λ unused. absurd (cc unused), ((λ unused. refl), refl))

encryption_enable_lem_example :
    ((e : Errno) × (encryption_enable open_ssl true (some lvol) (some cbc) vols ≡ (fail e, vols)))
    ⊎ ((after : List EncryptedVol) × (encryption_enable open_ssl true (some lvol) (some cbc) vols
          ≡ (ok, after))
        × (encryption_get_status lvol after ≡ some aes_cbc_256)
        × (encryption_disable (some lvol) (some bob) after ≡ (ok, vols)))
encryption_enable_lem_example =
    encryption_enable_lem open_ssl true lvol bob cbc vols vols-Blank (omega arith)

abbrev by_token : AccessControl
by_token = record {
  mode = token_mode;
  credentials = [];
  allowed_ips = [];
  allowed_users = [];
  audit_logging = false;
  audit_log_path = [];
}

abbrev anyone : Security
anyone = record { control = record by_token { mode = open_mode }; tokens = zero_token ∷ [] }

abbrev surroundings : TokenEnv
surroundings = record { now = 100; copied = true; random = 0 ∷ 61 ∷ []; stale = [] }

authenticate-set_access_control_example :
    authenticate 100 true (some bob) (some ann) (
      run
        (generates surroundings (some bob) (some ann) true 256 60 ∷ cleans 100 ∷ [])
        (set_access_control (some by_token) anyone).1)
    ≡ fail eacces
authenticate-set_access_control_example =
    authenticate-set_access_control by_token anyone
      (generates surroundings (some bob) (some ann) true 256 60 ∷ cleans 100 ∷ []) 100 true bob ann
      refl

abbrev padded_ann : Padded
padded_ann = record { before = 1; name = ann; after = 2 }

abbrev padded_bob : Padded
padded_bob = record { before = 0; name = bob; after = 0 }

names-AllPlain : AllPlain (padded_bob ∷ padded_ann ∷ [])
unfolding AllPlain trim_end
names-AllPlain = (
  record { filled = refl; no_comma = refl; starts = refl; ends = refl },
  (record { filled = refl; no_comma = refl; starts = refl; ends = refl }, refl),
)

check_allowed-join_example :
    check_allowed true (join padded_bob (padded_ann ∷ [])) (some ann)
    ≡ is_listed ann (padded_bob ∷ padded_ann ∷ [])
check_allowed-join_example = check_allowed-join ann padded_bob (padded_ann ∷ []) names-AllPlain
