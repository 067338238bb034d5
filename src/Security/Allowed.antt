-- ===== src/Security/Allowed.antt =====
-- The lists of allowed addresses and users of src/libxbdev/security.c: strings with commas, read by
-- `strtok`.
use nblock.Prelude.{
  ℕ, ◌==◌, if◌then◌else◌, Bool, true, false, not, ◌&&◌, List, [], ◌∷◌, ◌++◌, Option, none, some,
}
use nblock.Prelude.Names.{Name, same_name, is_blank}
use nblock.Security.Access.{Security}

abbrev pub comma : ℕ
comma = 44

abbrev pub space : ℕ
space = 32

-- The tokens that `strtok` with "," gives one after the other: the longest pieces without a comma that
-- are not empty. `piece` is what was read of the one that is under way.
unfoldable pub strtok : Name → Name → List Name
strtok piece [] = if is_blank piece then [] else piece ∷ []
strtok piece (c ∷ cs) =
    let fresh = strtok [] cs in
    let longer = strtok (piece ++ c ∷ []) cs in
    if c == comma then (if is_blank piece then fresh else piece ∷ fresh) else longer

-- `while (*token == ' ') token++`
unfoldable pub skip_spaces : Name → Name
skip_spaces [] = []
skip_spaces (c ∷ cs) = let rest = skip_spaces cs in if c == space then rest else c ∷ cs

unfoldable pub trim_end : Name → Name
trim_end [] = []
trim_end (c ∷ cs) = let rest = trim_end cs in if is_blank rest && c == space then [] else c ∷ rest

-- The loop from the end of the token, which stops before the first byte.
abbrev pub cut_spaces : Name → Name
cut_spaces [] = []
cut_spaces (c ∷ cs) = c ∷ trim_end cs

abbrev pub trim : Name → Name
trim token = cut_spaces (skip_spaces token)

unfoldable pub any_token : Name → List Name → Bool
any_token name [] = false
any_token name (token ∷ tokens) =
    let rest = any_token name tokens in if same_name (trim token) name then true else rest

-- Both functions do this with their list; `copied` is whether `strdup` succeeds.
unfoldable pub check_allowed : Bool → Name → Option Name → Bool
check_allowed copied allowed none = false
check_allowed copied allowed (some name) =
    if is_blank allowed
    then true
    else (if not copied then false else any_token name (strtok [] allowed))

abbrev pub check_ip : Bool → Option Name → Security → Bool
check_ip copied ip_addr s = check_allowed copied s.control.allowed_ips ip_addr

abbrev pub check_user : Bool → Option Name → Security → Bool
check_user copied username s = check_allowed copied s.control.allowed_users username
