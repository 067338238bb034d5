-- ===== src/Raid/Asked.antt =====
-- Which replacements the state check of src/libxbdev/raid.c asks for, seen from the list of spares and the
-- failed disks.
use nblock.Prelude.{
  ℕ, suc, ◌-◌, ◌==◌, if◌then◌else◌, Bool, true, false, not, ◌&&◌, List, [], ◌∷◌, ◌++◌, map, Option,
  take, ◌≡◌, refl, ap, ap₂, ◌∙◌, append-nil, arith,
}
use nblock.Prelude.Names.{Name, is_blank}
use nblock.Raid.Spares.{SpareEntry, or_empty}
use nblock.Raid.Find.{is_dedicated, is_global, NoneFree, Taken, here, later}
use nblock.Raid.Events.{
  EventType, CallbackEntry, MdEvent, Action, call, replace_disk, Raid, Disk, Env, notify,
}
use nblock.Raid.Status.{disk_faulty}

-- The disks of the free spares that pass a test.
unfoldable pub free_names : (SpareEntry → Bool) → List SpareEntry → List Name
free_names test [] = []
free_names test (e ∷ spares) =
    let rest = free_names test spares in if not e.in_use && test e then e.disk_name ∷ rest else rest

abbrev pub only_global : Name → SpareEntry → Bool
only_global md_name e = is_global e && not (is_dedicated md_name e)

-- The disks of the free spares for an array, in the order in which they are taken: those of the array,
-- then the global ones.
unfoldable pub candidates : Name → List SpareEntry → List Name
candidates md_name spares =
    free_names (is_dedicated md_name) spares ++ free_names (only_global md_name) spares

-- No spare has an empty name.
unfoldable pub Named : List SpareEntry → Type 0
Named [] = true ≡ true
Named (e ∷ spares) = (is_blank e.disk_name ≡ false) × Named spares

unfoldable pub faulty_names : List Disk → List Name
faulty_names [] = []
faulty_names (disk ∷ disks) =
    let rest = faulty_names disks in if disk.state == disk_faulty then disk.name ∷ rest else rest

-- One request for each failed disk for which there is a spare: the first spare for the first disk, and
-- so on. The name of a spare is cut to 255 bytes.
unfoldable pub paired : Name → List Name → List Name → List Action
paired md_name [] spares = []
paired md_name (disk ∷ disks) [] = []
paired md_name (disk ∷ disks) (spare ∷ spares) =
    replace_disk md_name disk (take 255 spare) ∷ paired md_name disks spares

-- What is left for the others.
unfoldable pub rest_after : List Name → List Name → List Name
rest_after [] spares = spares
rest_after (disk ∷ disks) [] = []
rest_after (disk ∷ disks) (spare ∷ spares) = rest_after disks spares

-- The requests for replacements in a log, with their arguments.
unfoldable pub replacements : List Action → List Action
replacements [] = []
replacements (call entry event ∷ log) = replacements log
replacements (replace_disk md_name old new ∷ log) = replace_disk md_name old new ∷ replacements log

pub replacements-append :
    (a b : List Action) → replacements (a ++ b) ≡ replacements a ++ replacements b
unfolding replacements
replacements-append [] b = refl
replacements-append (call entry event ∷ a) b = replacements-append a b
replacements-append (replace_disk md_name old new ∷ a) b =
    ap (λ l. replace_disk md_name old new ∷ l) (replacements-append a b)

replacements-calls :
    (callbacks : List CallbackEntry) (event : MdEvent)
    → replacements (map (λ entry. call entry event) callbacks) ≡ []
unfolding replacements
replacements-calls [] event = refl
replacements-calls (entry ∷ callbacks) event = replacements-calls callbacks event

pub replacements-notify :
    (env : Env) (type : EventType) (md_name disk_name : Option Name) (s : Raid)
    → replacements (notify env type md_name disk_name s).log ≡ replacements s.log
unfolding notify
replacements-notify env type md_name disk_name s =
    let event : MdEvent = record {
      type = type;
      timestamp = env.clock s.log;
      md_name = take (env.md_size - 1) (or_empty md_name);
      disk_name = take (env.disk_size - 1) (or_empty disk_name);
    } in
    replacements-append s.log (map (λ entry. call entry event) s.callbacks)
    ∙ ap (λ l. replacements s.log ++ l) (replacements-calls s.callbacks event)
    ∙ append-nil (replacements s.log)

pub spares-notify :
    (env : Env) (type : EventType) (md_name disk_name : Option Name) (s : Raid)
    → (notify env type md_name disk_name s).spares ≡ s.spares
unfolding notify
spares-notify env type md_name disk_name s = refl

free_names-NoneFree :
    (test : SpareEntry → Bool) (spares : List SpareEntry)
    → NoneFree test spares
    → free_names test spares ≡ []
unfolding free_names NoneFree
free_names-NoneFree test [] n = refl
free_names-NoneFree test (e ∷ spares) (passes, n) =
    ground (arith, passes, free_names-NoneFree test spares n)

free_names-Taken :
    {test : SpareEntry → Bool} {spares left : List SpareEntry} {disk : Name}
    → Taken test spares disk left
    → free_names test spares ≡ disk ∷ free_names test left
unfolding free_names
free_names-Taken (here e after free fits) = ground (arith, free, fits)
free_names-Taken (later e passes taken) = ground (arith, passes, free_names-Taken taken)

-- A spare that is taken for the array itself is none of the global ones.
free_names-dedicated :
    {md_name : Name} {spares left : List SpareEntry} {disk : Name}
    → Taken (is_dedicated md_name) spares disk left
    → free_names (only_global md_name) spares ≡ free_names (only_global md_name) left
unfolding free_names
free_names-dedicated (here e after free fits) = ground (arith, free, fits)
free_names-dedicated (later e passes taken) = ground (arith, free_names-dedicated taken)

pub candidates-dedicated :
    {md_name : Name} {spares left : List SpareEntry} {disk : Name}
    → Taken (is_dedicated md_name) spares disk left
    → candidates md_name spares ≡ disk ∷ candidates md_name left
unfolding candidates
candidates-dedicated taken = ap₂ ◌++◌ (free_names-Taken taken) (free_names-dedicated taken)

-- A global spare is taken where the array has none.
free_names-global :
    (md_name : Name) {spares left : List SpareEntry} {disk : Name}
    → Taken is_global spares disk left
    → NoneFree (is_dedicated md_name) spares
    → (free_names (is_dedicated md_name) left ≡ [])
      × (free_names (only_global md_name) spares ≡ disk ∷ free_names (only_global md_name) left)
unfolding free_names NoneFree
free_names-global md_name (here e after free fits) (passes, none_own) =
    let none_later = free_names-NoneFree (is_dedicated md_name) after none_own in
    (ground (arith, none_later), ground (arith, passes, free, fits))
free_names-global md_name (later e not_global taken) (passes, none_own) =
    let (own, all) = free_names-global md_name taken none_own in
    (ground (arith, passes, own), ground (arith, not_global, all))

pub candidates-global :
    (md_name : Name) {spares left : List SpareEntry} {disk : Name}
    → Taken is_global spares disk left
    → NoneFree (is_dedicated md_name) spares
    → candidates md_name spares ≡ disk ∷ candidates md_name left
unfolding candidates
candidates-global md_name {spares} taken none_own =
    let (own, all) = free_names-global md_name taken none_own in
    let before = free_names-NoneFree (is_dedicated md_name) spares none_own in rw (own, before) all

only_global-NoneFree :
    (md_name : Name) (spares : List SpareEntry)
    → NoneFree is_global spares
    → NoneFree (only_global md_name) spares
unfolding NoneFree
only_global-NoneFree md_name [] n = refl
only_global-NoneFree md_name (e ∷ spares) (passes, n) =
    (ground (arith, passes), only_global-NoneFree md_name spares n)

pub candidates-NoneFree :
    (md_name : Name) (spares : List SpareEntry)
    → NoneFree (is_dedicated md_name) spares
    → NoneFree is_global spares
    → candidates md_name spares ≡ []
unfolding candidates
candidates-NoneFree md_name spares none_own none_global =
    ap₂ ◌++◌ (free_names-NoneFree (is_dedicated md_name) spares none_own) (
      free_names-NoneFree (only_global md_name) spares
        (only_global-NoneFree md_name spares none_global))

pub Named-Taken :
    {test : SpareEntry → Bool} {spares left : List SpareEntry} {disk : Name}
    → Taken test spares disk left
    → Named spares
    → Named left × (is_blank disk ≡ false)
unfolding Named
Named-Taken (here e after free fits) (named, all) = ((named, all), named)
Named-Taken (later e passes taken) (named, all) =
    let (rest, filled) = Named-Taken taken all in ((named, rest), filled)

pub is_blank-take :
    (n : ℕ) (name : Name) → is_blank name ≡ false → is_blank (take (suc n) name) ≡ false
is_blank-take n [] filled = filled
is_blank-take n (c ∷ name) filled = refl
