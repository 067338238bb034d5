-- ===== src/Security/Lockout.antt =====
-- Token mode of src/libxbdev/security.c: what a user can do after it is set.
use nblock.Prelude.{
  ℕ, zero, suc, Bool, true, false, List, [], ◌∷◌, Option, none, some, replicate, ◌≡◌, refl, ap, ◌∙◌,
  arith,
}
use nblock.Prelude.Names.{Name}
use nblock.Prelude.Errno.{eacces, fail}
use nblock.Security.Access.{
  token_mode, AccessControl, Token, zero_token, max_tokens, Security, set_access_control,
  has_valid_token, check_credentials, authenticate, TokenEnv, generate_token, clean_tokens,
  cleanup_tokens,
}

-- A call that may change the tokens.
pub data Call : Type 0 where
  generates : TokenEnv → Option Name → Option Name → Bool → ℕ → ℕ → Call
  cleans : ℕ → Call

unfoldable pub run : List Call → Security → Security
run [] s = s
run (generates env username password has_buf buf_size expiry_seconds ∷ calls) s =
    run calls (generate_token env username password has_buf buf_size expiry_seconds s).2
run (cleans now ∷ calls) s = run calls (cleanup_tokens now s)

unfoldable NoneUsed : List Token → Type 0
NoneUsed [] = true ≡ true
NoneUsed (t ∷ tokens) = (t.in_use ≡ false) × NoneUsed tokens

record Locked (s : Security) : Type 0 where
  mode : s.control.mode ≡ token_mode
  empty : NoneUsed s.tokens

NoneUsed-replicate : (n : ℕ) → NoneUsed (replicate n zero_token)
unfolding NoneUsed
NoneUsed-replicate zero = refl
NoneUsed-replicate (suc n) = (refl, NoneUsed-replicate n)

has_valid_token-NoneUsed :
    (now : ℕ) (username password : Name) (tokens : List Token)
    → NoneUsed tokens
    → has_valid_token now username password tokens ≡ false
unfolding NoneUsed has_valid_token
has_valid_token-NoneUsed now username password [] h = refl
has_valid_token-NoneUsed now username password (t ∷ tokens) (unused, h) =
    ground (arith, unused, has_valid_token-NoneUsed now username password tokens h)

clean_tokens-NoneUsed :
    (now : ℕ) (tokens : List Token) → NoneUsed tokens → clean_tokens now tokens ≡ tokens
unfolding NoneUsed clean_tokens
clean_tokens-NoneUsed now [] h = refl
clean_tokens-NoneUsed now (t ∷ tokens) (unused, h) =
    ground (arith, unused, clean_tokens-NoneUsed now tokens h)

authenticate-Locked :
    (now : ℕ) (copied : Bool) (username password : Name) (s : Security)
    → Locked s
    → authenticate now copied (some username) (some password) s ≡ fail eacces
unfolding authenticate check_credentials
authenticate-Locked now copied username password s l =
    ground (arith, l.mode, has_valid_token-NoneUsed now username password s.tokens l.empty)

generate_token-Locked :
    (env : TokenEnv) (username password : Option Name) (has_buf : Bool)
    (buf_size expiry_seconds : ℕ) (s : Security)
    → Locked s
    → (generate_token env username password has_buf buf_size expiry_seconds s).2 ≡ s
unfolding generate_token
generate_token-Locked env none password has_buf buf_size expiry_seconds s l = refl
generate_token-Locked env (some username) none has_buf buf_size expiry_seconds s l = refl
generate_token-Locked env (some username) (some password) has_buf buf_size expiry_seconds s l =
    ground (arith, authenticate-Locked env.now env.copied username password s l)

run-Locked : (calls : List Call) (s : Security) → Locked s → run calls s ≡ s
unfolding run cleanup_tokens
run-Locked [] s l = refl
run-Locked (generates env username password has_buf buf_size expiry_seconds ∷ calls) s l =
    ap (run calls) (generate_token-Locked env username password has_buf buf_size expiry_seconds s l)
    ∙ run-Locked calls s l
run-Locked (cleans now ∷ calls) s l =
    ap (λ t. run calls (record s { tokens = t })) (clean_tokens-NoneUsed now s.tokens l.empty)
    ∙ run-Locked calls s l

-- After token mode is set, whatever tokens are asked for and however often expired ones are cleaned,
-- every user with every password is refused with -EACCES.
pub authenticate-set_access_control :
    (config : AccessControl) (s : Security) (calls : List Call) (now : ℕ) (copied : Bool)
    (username password : Name)
    → config.mode ≡ token_mode
    → authenticate now copied
        (some username)
        (some password)
        (run calls (set_access_control (some config) s).1)
      ≡ fail eacces
unfolding set_access_control
authenticate-set_access_control config s calls now copied username password mode =
    let reset : Security = record { control = config; tokens = replicate max_tokens zero_token } in
    let set : (set_access_control (some config) s).1 ≡ reset = ground (arith, mode) in
    let locked : Locked reset = record { mode = mode; empty = NoneUsed-replicate max_tokens } in
    ap (λ v. authenticate now copied (some username) (some password) (run calls v)) set
    ∙ ap (authenticate now copied (some username) (some password)) (run-Locked calls reset locked)
    ∙ authenticate-Locked now copied username password reset locked
