-- ===== src/FdTable/Run.antt =====
-- Runs of src/libxbdev/core.c: any sequence of starts, ends, opens and closes.
use mathlib.Core.Path.{subst}
use nblock.Prelude.{
  ℕ, ◌+◌, ◌^◌, ◌≤◌, ◌<◌, arith, true, false, [], ◌∷◌, ◌++◌, Option, none, some, Bool-cases,
  Option-cases, ◌≡◌, refl, sym, ap, ◌∙◌, ◌⊎◌, inl, inr,
}
use nblock.Prelude.Names.{Name}
use nblock.Prelude.Errno.{Errno, Rc-cases}
use nblock.FdTable.{
  FdTable, SpdkInit, SpdkOpen, OpenAnswer, opened, refused, create_fd_entry, xbdev_init, drop_desc,
  close_desc, close_all, xbdev_fini, get_fd_entry, allocate_fd, xbdev_open, remove_entry,
  xbdev_close,
}
use nblock.FdTable.Handlers.{clear_desc, xbdev_close_on_thread}
use nblock.FdTable.Inv.{
  Rising, Rising-below, Rising-append, Rising-remove_entry, Rising-clear_desc, descs, has, Distinct,
  Distinct-append, descs-append, drop_desc-append, IsValid,
}
use nblock.FdTable.Owned.{
  Distinct-close_desc, descs-remove_entry, descs-clear_desc, close_all-descs,
}

OpenAnswer-cases : (a : OpenAnswer) → ((d : ℕ) × (a ≡ opened d)) ⊎ ((e : Errno) × (a ≡ refused e))
OpenAnswer-cases (opened d) = inl (d, refl)
OpenAnswer-cases (refused e) = inr (e, refl)

-- A descriptor that SPDK gives out is not one that is open.
unfoldable pub Fresh : SpdkOpen → FdTable → Type 0
Fresh env s = (d : ℕ) → env.answer ≡ opened d → has d s.held ≡ false

pub data Step : FdTable → FdTable → Type 0 where
  inits : (env : SpdkInit) {s : FdTable} → Step s (xbdev_init env s).1
  finis : {s : FdTable} → Step s (xbdev_fini s).1
  opens :
      (env : SpdkOpen) (name : Option Name) {s : FdTable}
      → s.initialized ≡ true
      → s.next_fd + 1 < 2 ^ 31
      → Fresh env s
      → Step s (xbdev_open env name s).1
  closes : (fd : ℕ) {s : FdTable} → Step s (xbdev_close fd s).1
  closes_on_thread : (fd : ℕ) {s : FdTable} → Step s (xbdev_close_on_thread fd s).1

pub data Run : FdTable → FdTable → Type 0 where
  done : {s : FdTable} → Run s s
  next : {s t u : FdTable} → Run s t → Step t u → Run s u

IsValid-init : (env : SpdkInit) (s : FdTable) → IsValid s → IsValid (xbdev_init env s).1
unfolding xbdev_init descs Rising
IsValid-init env s v = elim (Bool-cases s.initialized) [
  | inl up ↦ simp (up, xbdev_init) v
  | inr down ↦
      let none_held : s.held ≡ [] = v.owned ∙ ap descs (v.closed down) in
      let next : 1 ≤ s.next_fd = Rising-below 1 s.entries s.next_fd v.rising in
      elim (Rc-cases env.env_init) [
        | inr (e, failed) ↦ simp (down, failed, xbdev_init) v
        | inl env_up ↦ elim (Rc-cases env.lib_init) [
          | inr (e, failed) ↦ simp (down, env_up, failed, xbdev_init) v
          | inl lib_up ↦ elim (Bool-cases env.thread_created) [
            | inl created ↦
                simp (down, env_up, lib_up, created, xbdev_init)
                  record {
                    rising = next;
                    owned = none_held;
                    distinct = v.distinct;
                    closed = λ _. refl;
                  }
            | inr uncreated ↦
                simp (down, env_up, lib_up, uncreated, xbdev_init)
                  record {
                    rising = v.rising;
                    owned = v.owned;
                    distinct = v.distinct;
                    closed = λ _. v.closed down;
                  }
          ]
        ]
      ]
]

IsValid-fini : (s : FdTable) → IsValid s → IsValid (xbdev_fini s).1
unfolding xbdev_fini descs Rising Distinct
IsValid-fini s v = elim (Bool-cases s.initialized) [
  | inr down ↦ simp (down, xbdev_fini) v
  | inl up ↦
      let emptied : close_all s.entries s.held ≡ [] =
        ap (close_all s.entries) v.owned ∙ close_all-descs s.entries in
      rw (up, xbdev_fini)
        record {
          rising = Rising-below 1 s.entries s.next_fd v.rising;
          owned = emptied;
          distinct = subst Distinct (sym emptied) refl;
          closed = λ _. refl;
        }
]

IsValid-close : (fd : ℕ) (s : FdTable) → IsValid s → IsValid (xbdev_close fd s).1
unfolding xbdev_close remove_entry
IsValid-close fd s v = elim (Option-cases (get_fd_entry fd s.entries)) [
  | inl missing ↦ rw (missing, xbdev_close) v
  | inr (e, found) ↦
      rw (found, xbdev_close)
        record {
          rising = Rising-remove_entry 1 fd s.entries s.next_fd v.rising;
          owned =
              ap (close_desc e.desc) v.owned
              ∙ sym (descs-remove_entry fd s.entries e found (subst Distinct v.owned v.distinct));
          distinct = Distinct-close_desc e.desc s.held v.distinct;
          closed = λ down. ap (remove_entry fd) (v.closed down);
        }
]

IsValid-close_on_thread :
    (fd : ℕ) (s : FdTable) → IsValid s → IsValid (xbdev_close_on_thread fd s).1
unfolding xbdev_close_on_thread clear_desc
IsValid-close_on_thread fd s v = elim (Option-cases (get_fd_entry fd s.entries)) [
  | inl missing ↦ rw (missing, xbdev_close_on_thread) v
  | inr (e, found) ↦ elim (Option-cases e.desc) [
    | inl empty ↦ rw (found, empty, xbdev_close_on_thread) v
    | inr (d, full) ↦
        rw (found, full, xbdev_close_on_thread)
          record {
            rising = Rising-clear_desc 1 fd s.entries s.next_fd v.rising;
            owned =
                ap (close_desc (some d)) v.owned
                ∙ ap (λ o. close_desc o (descs s.entries)) (sym full)
                ∙ sym (descs-clear_desc fd s.entries e found (subst Distinct v.owned v.distinct));
            distinct = Distinct-close_desc (some d) s.held v.distinct;
            closed = λ down. ap (clear_desc fd) (v.closed down);
          }
  ]
]

IsValid-open :
    (env : SpdkOpen) (name : Option Name) (s : FdTable)
    → IsValid s
    → s.initialized ≡ true
    → s.next_fd + 1 < 2 ^ 31
    → Fresh env s
    → IsValid (xbdev_open env name s).1
unfolding xbdev_open Fresh allocate_fd
IsValid-open env none s v up room fresh = v
IsValid-open env (some name) s v up room fresh = elim (Option-cases env.bdev) [
  | inl unknown ↦ rw (unknown, xbdev_open) v
  | inr (bdev, known) ↦ elim (OpenAnswer-cases env.answer) [
    | inr (e, refusal) ↦ rw (known, refusal, xbdev_open) v
    | inl (d, yes_desc) ↦
        let new = fresh d yes_desc in
        elim (Bool-cases env.allocated) [
          | inr full ↦
              let back : record s { held = drop_desc d (s.held ++ d ∷ []) } ≡ s =
                ap (λ l. record s { held = l }) (drop_desc-append d s.held new) in
              rw (known, yes_desc, full, xbdev_open) (subst IsValid (sym back) v)
          | inl fits ↦
              let entry = create_fd_entry s.next_fd name bdev d in
              let within : s.next_fd + 1 ≡ allocate_fd s.next_fd = omega (arith, room) in
              rw (known, yes_desc, fits, xbdev_open)
                record {
                  rising =
                      subst (Rising 1 (s.entries ++ entry ∷ [])) within
                        (Rising-append 1 s.entries entry v.rising);
                  owned = ap (λ l. l ++ d ∷ []) v.owned ∙ sym (descs-append s.entries entry d refl);
                  distinct = Distinct-append d s.held v.distinct new;
                  closed = λ down. absurd (cc (up, down));
                }
        ]
  ]
]

-- Every table that a run reaches from a valid one is valid, if opens happen while the library is
-- initialized and the counter of file descriptors, an int, is below 2 ^ 31 - 1, and SPDK gives out no
-- descriptor that is open: its file descriptors are positive, rise
-- along the list and stay below the next one, and SPDK holds open exactly the descriptors that its
-- entries name, each once.
pub IsValid-Run : {s t : FdTable} → Run s t → IsValid s → IsValid t
IsValid-Run done v = v
IsValid-Run (next run (inits env {s})) v = IsValid-init env s (IsValid-Run run v)
IsValid-Run (next run (finis {s})) v = IsValid-fini s (IsValid-Run run v)
IsValid-Run (next run (opens env name {s} up room fresh)) v =
    IsValid-open env name s (IsValid-Run run v) up room fresh
IsValid-Run (next run (closes fd {s})) v = IsValid-close fd s (IsValid-Run run v)
IsValid-Run (next run (closes_on_thread fd {s})) v =
    IsValid-close_on_thread fd s (IsValid-Run run v)
