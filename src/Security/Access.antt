-- ===== src/Security/Access.antt =====
-- Access control and tokens of src/libxbdev/security.c. The locks are not modelled: each function is one
-- step.
use nblock.Prelude.{
  ℕ, ◌+◌, ◌-◌, ◌%◌, ◌==◌, ltb, if◌then◌else◌, Bool, true, false, not, ◌&&◌, ◌||◌, List, [], ◌∷◌,
  ◌++◌, Option, none, some, suc, take, map, replicate, set,
}
use nblock.Prelude.Names.{Name, same_name}
use nblock.Prelude.Errno.{einval, enomem, enospc, eacces, enotsup, Rc, ok, fail}

-- `unknown_mode` is a number that no mode has.
pub data AccessMode : Type 0 where
  open_mode basic_mode token_mode tls_cert_mode : AccessMode
  unknown_mode : ℕ → AccessMode

pub record AccessControl : Type 0 where
  pub mode : AccessMode
  pub credentials : Name
  pub allowed_ips : Name
  pub allowed_users : Name
  pub audit_logging : Bool
  pub audit_log_path : Name

pub record Token : Type 0 where
  pub in_use : Bool
  pub username : Name
  pub token : Name
  pub expiry : ℕ

abbrev pub zero_token : Token
zero_token = record { in_use = false; username = []; token = []; expiry = 0 }

abbrev pub max_tokens : ℕ
max_tokens = 256

-- `g_access_control` and `g_tokens`.
pub record Security : Type 0 where
  pub control : AccessControl
  pub tokens : List Token

unfoldable pub set_access_control : Option AccessControl → Security → Rc × Security
set_access_control none s = (fail einval, s)
set_access_control (some config) s =
    let copied : Security = record s { control = config } in
    elim config.mode [
      | open_mode ↦ (ok, copied)
      | basic_mode ↦ (ok, copied)
      | token_mode ↦ (ok, record copied { tokens = replicate max_tokens zero_token })
      | tls_cert_mode ↦ (ok, copied)
      | unknown_mode n ↦ (fail einval, copied)
    ]

-- `strchr(credentials, ':')`: the strings before and after the first colon.
unfoldable pub split_colon : Name → Option (Name × Name)
split_colon [] = none
split_colon (c ∷ cs) =
    let rest = split_colon cs in
    if c == 58
    then some ([], cs)
    else elim rest [ none ↦ none | some (user, word) ↦ some (c ∷ user, word) ]

-- The test in the loop over the tokens.
abbrev pub is_valid_token : ℕ → Name → Name → Token → Bool
is_valid_token now username password t =
    t.in_use && same_name t.username username && same_name t.token password && ltb now t.expiry

unfoldable pub has_valid_token : ℕ → Name → Name → List Token → Bool
has_valid_token now username password [] = false
has_valid_token now username password (t ∷ tokens) =
    is_valid_token now username password t || has_valid_token now username password tokens

-- The switch of `xbdev_mgmt_authenticate`; `copied` is whether `strdup` succeeds.
unfoldable pub check_credentials : ℕ → Bool → Name → Name → Security → Rc
check_credentials now copied username password s = elim s.control.mode [
  | open_mode ↦ ok
  | basic_mode ↦ if not copied then fail enomem else (elim (split_colon s.control.credentials) [
    | none ↦ fail eacces
    | some (user, word) ↦
        if same_name username user && same_name password word then ok else fail eacces
  ])
  | token_mode ↦ if has_valid_token now username password s.tokens then ok else fail eacces
  | tls_cert_mode ↦ fail enotsup
  | unknown_mode n ↦ fail einval
]

unfoldable pub authenticate : ℕ → Bool → Option Name → Option Name → Security → Rc
authenticate now copied none password s = fail einval
authenticate now copied (some username) none s = fail einval
authenticate now copied (some username) (some password) s =
    check_credentials now copied username password s

-- `charset[random % 62]`
abbrev pub charset_at : ℕ → ℕ
charset_at r =
    let i = r % 62 in
    if ltb i 26 then 97 + i else (if ltb i 52 then 65 + (i - 26) else 48 + (i - 52))

-- Into a buffer of 256 bytes: the first 32 are set from 32 random bytes, and the last is 0. What lies
-- between was there before; `rest` are its bytes up to the first 0.
unfoldable pub generate_random_token : List ℕ → Name → Name
generate_random_token random rest = map charset_at (take 32 random) ++ take 223 rest

-- The index of the first token of the user.
unfoldable pub token_index : Name → List Token → Option ℕ
token_index username [] = none
token_index username (t ∷ tokens) =
    let rest = token_index username tokens in
    if t.in_use && same_name t.username username
    then some 0
    else elim rest [ none ↦ none | some i ↦ some (suc i) ]

unfoldable pub free_token_index : List Token → Option ℕ
free_token_index [] = none
free_token_index (t ∷ tokens) =
    let rest = free_token_index tokens in
    if not t.in_use then some 0 else elim rest [ none ↦ none | some i ↦ some (suc i) ]

-- The entry that a new token takes: the user's, or else the first that is free.
unfoldable pub token_slot : Name → List Token → Option ℕ
token_slot username tokens = elim (token_index username tokens) [
  | some i ↦ some i
  | none ↦ free_token_index tokens
]

-- What the surroundings say: the time, the allocator, 32 random bytes, and what the buffer held.
pub record TokenEnv : Type 0 where
  pub now : ℕ
  pub copied : Bool
  pub random : List ℕ
  pub stale : Name

-- The part after the check of the user. Also returns what is written for the caller.
unfoldable pub store_token : TokenEnv → Name → ℕ → ℕ → Security → Rc × Option Name × Security
store_token env username buf_size expiry_seconds s = elim (token_slot username s.tokens) [
  | none ↦ (fail enospc, none, s)
  | some i ↦
      let token = generate_random_token env.random env.stale in
      let entry : Token = record {
        in_use = true;
        username = take 63 username;
        token = take 255 token;
        expiry = env.now + expiry_seconds;
      } in
      (ok, some (take (buf_size - 1) token), record s { tokens = set s.tokens i entry })
]

-- `has_buf` is whether `token_buf` is not NULL.
unfoldable pub generate_token :
    TokenEnv → Option Name → Option Name → Bool → ℕ → ℕ → Security → Rc × Option Name × Security
generate_token env none password has_buf buf_size expiry_seconds s = (fail einval, none, s)
generate_token env (some username) none has_buf buf_size expiry_seconds s = (fail einval, none, s)
generate_token env (some username) (some password) has_buf buf_size expiry_seconds s =
    if not has_buf || ltb buf_size 32
    then (fail einval, none, s)
    else (elim (authenticate env.now env.copied (some username) (some password) s) [
      | fail e ↦ (fail e, none, s)
      | ok ↦ store_token env username buf_size expiry_seconds s
    ])

unfoldable pub clean_tokens : ℕ → List Token → List Token
clean_tokens now [] = []
clean_tokens now (t ∷ tokens) =
    let rest = clean_tokens now tokens in
    if t.in_use && ltb t.expiry now then zero_token ∷ rest else t ∷ rest

unfoldable pub cleanup_tokens : ℕ → Security → Security
cleanup_tokens now s = record s { tokens = clean_tokens now s.tokens }
