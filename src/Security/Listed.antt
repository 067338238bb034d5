-- ===== src/Security/Listed.antt =====
-- The lists of allowed addresses and users of src/libxbdev/security.c as those who write them see them.
use nblock.Prelude.{
  ℕ, zero, suc, ◌==◌, if◌then◌else◌, Bool, true, false, ◌&&◌, ◌||◌, List, [], ◌∷◌, ◌++◌, some,
  replicate, append-nil, append_assoc, Bool-cases, ◌≡◌, refl, sym, ap, ap₂, ◌∙◌, inl, inr, arith,
}
use nblock.Prelude.Names.{Name, same_name, is_blank}
use nblock.Security.Allowed.{
  comma, space, strtok, skip_spaces, trim_end, cut_spaces, trim, any_token, check_allowed,
}

-- A name with spaces before and after it.
pub record Padded : Type 0 where
  pub before : ℕ
  pub name : Name
  pub after : ℕ

abbrev pub text : Padded → Name
text p = replicate p.before space ++ (p.name ++ replicate p.after space)

-- The list that someone writes: an entry, and others behind commas.
unfoldable pub join : Padded → List Padded → Name
join p [] = text p
join p (q ∷ ps) = text p ++ comma ∷ join q ps

unfoldable pub is_listed : Name → List Padded → Bool
is_listed name [] = false
is_listed name (p ∷ ps) =
    let rest = is_listed name ps in if same_name p.name name then true else rest

abbrev pub has_comma : Name → Bool
has_comma [] = false
has_comma (c ∷ cs) = let rest = has_comma cs in if c == comma then true else rest

abbrev pub starts_with_space : Name → Bool
starts_with_space [] = false
starts_with_space (c ∷ cs) = c == space

-- A name that is not empty, has no comma, and no space at either end.
pub record Plain (name : Name) : Type 0 where
  pub filled : is_blank name ≡ false
  pub no_comma : has_comma name ≡ false
  pub starts : starts_with_space name ≡ false
  pub ends : trim_end name ≡ name

unfoldable pub AllPlain : List Padded → Type 0
AllPlain [] = true ≡ true
AllPlain (p ∷ ps) = Plain p.name × AllPlain ps

has_comma-append : (a b : Name) → has_comma (a ++ b) ≡ (has_comma a || has_comma b)
has_comma-append [] b = refl
has_comma-append (c ∷ a) b = ground (arith, has_comma-append a b)

has_comma-spaces : (n : ℕ) → has_comma (replicate n space) ≡ false
has_comma-spaces zero = refl
has_comma-spaces (suc n) = has_comma-spaces n

is_blank-append : (a b : Name) → is_blank (a ++ b) ≡ (is_blank a && is_blank b)
is_blank-append [] b = refl
is_blank-append (c ∷ a) b = refl

skip_spaces-spaces : (n : ℕ) (w : Name) → skip_spaces (replicate n space ++ w) ≡ skip_spaces w
unfolding skip_spaces
skip_spaces-spaces zero w = refl
skip_spaces-spaces (suc n) w = skip_spaces-spaces n w

trim_end-spaces : (n : ℕ) → trim_end (replicate n space) ≡ []
unfolding trim_end
trim_end-spaces zero = refl
trim_end-spaces (suc n) = ground (arith, trim_end-spaces n)

trim_end-append : (w : Name) (n : ℕ) → trim_end (w ++ replicate n space) ≡ trim_end w
unfolding trim_end
trim_end-append [] n = trim_end-spaces n
trim_end-append (c ∷ w) n = ground (arith, trim_end-append w n)

trim-Plain : (w : Name) (n : ℕ) → Plain w → trim (w ++ replicate n space) ≡ w
unfolding skip_spaces trim_end
trim-Plain [] n plain = absurd (cc plain.filled)
trim-Plain (c ∷ w) n plain = elim (Bool-cases (c == space)) [
  | inl blank ↦ absurd (ground (arith, blank, plain.starts))
  | inr filled ↦ ground (arith, filled, plain.ends, trim_end-append w n)
]

-- Trimming an entry gives its name.
trim-text : (p : Padded) → Plain p.name → trim (text p) ≡ p.name
trim-text p plain =
    ap cut_spaces (skip_spaces-spaces p.before (p.name ++ replicate p.after space))
    ∙ trim-Plain p.name p.after plain

strtok-last :
    (piece w : Name)
    → has_comma w ≡ false
    → is_blank (piece ++ w) ≡ false
    → strtok piece w ≡ (piece ++ w) ∷ []
unfolding strtok
strtok-last piece [] none_in filled =
    let whole = append-nil piece in rw whole (ground (arith, ap is_blank (sym whole) ∙ filled))
strtok-last piece (c ∷ w) none_in filled =
    let moved = append_assoc piece (c ∷ []) w in
    let rest =
      strtok-last (piece ++ c ∷ []) w (ground (arith, none_in)) (ap is_blank moved ∙ filled) in
    ground (arith, none_in, rest, moved)

strtok-comma :
    (piece w rest : Name)
    → has_comma w ≡ false
    → is_blank (piece ++ w) ≡ false
    → strtok piece (w ++ comma ∷ rest) ≡ (piece ++ w) ∷ strtok [] rest
unfolding strtok
strtok-comma piece [] rest none_in filled =
    let whole = append-nil piece in rw whole (ground (arith, ap is_blank (sym whole) ∙ filled))
strtok-comma piece (c ∷ w) rest none_in filled =
    let moved = append_assoc piece (c ∷ []) w in
    let later =
      strtok-comma (piece ++ c ∷ []) w rest (ground (arith, none_in))
        (ap is_blank moved ∙ filled) in
    ground (arith, none_in, later, moved)

text-Plain :
    (p : Padded) → Plain p.name → (has_comma (text p) ≡ false) × (is_blank (text p) ≡ false)
text-Plain p plain =
    let end = replicate p.after space in
    (
      has_comma-append (replicate p.before space) (p.name ++ end)
          ∙ ground (
            arith,
            has_comma-append p.name end,
            has_comma-spaces p.before,
            has_comma-spaces p.after,
            plain.no_comma,
          ),
      is_blank-append (replicate p.before space) (p.name ++ end)
          ∙ ground (arith, is_blank-append p.name end, plain.filled),
    )

any_token-join :
    (name : Name) (p : Padded) (ps : List Padded)
    → AllPlain (p ∷ ps)
    → any_token name (strtok [] (join p ps)) ≡ is_listed name (p ∷ ps)
unfolding AllPlain join is_listed any_token
any_token-join name p [] (plain, all) =
    let (no_comma, filled) = text-Plain p plain in
    let tokens = strtok-last [] (text p) no_comma filled in
    ap (any_token name) tokens
    ∙ ap (λ n. if same_name n name then true else false) (trim-text p plain)
any_token-join name p (q ∷ ps) (plain, all) =
    let (no_comma, filled) = text-Plain p plain in
    let tokens = strtok-comma [] (text p) (join q ps) no_comma filled in
    let rest = any_token-join name q ps all in
    ap (any_token name) tokens
    ∙ ap₂ (λ n b. if same_name n name then true else b) (trim-text p plain) rest

is_blank-join : (p : Padded) (ps : List Padded) → AllPlain (p ∷ ps) → is_blank (join p ps) ≡ false
unfolding AllPlain join
is_blank-join p [] (plain, all) = (text-Plain p plain).1
is_blank-join p (q ∷ ps) (plain, all) =
    is_blank-append (text p) (comma ∷ join q ps) ∙ ground (arith, (text-Plain p plain).1)

-- If a list is a sequence of names with any number of spaces around each and commas between them, and
-- no name is empty, has a comma or has a space at an end, then, where its copy is allocated, exactly
-- the names that are listed are allowed, whether it is the list of users or that of addresses.
pub check_allowed-join :
    (name : Name) (p : Padded) (ps : List Padded)
    → AllPlain (p ∷ ps)
    → check_allowed true (join p ps) (some name) ≡ is_listed name (p ∷ ps)
unfolding check_allowed
check_allowed-join name p ps all =
    ground (arith, is_blank-join p ps all, any_token-join name p ps all)
