-- ===== src/Debouncer/Service/Groups.antt =====
-- One open group for each tag at each portal, and each a proper event.
use tasker_rfid.Prelude.{
  ℕ, ◌≤◌, ◌≡◌, ◌≢◌, refl, sym, ◌∙◌, String, Bool, some, List, [], ◌∷◌, map, arith, select, if_ind,
  true≢false, Bool-cases, Option-cases, inl, inr, pair_eq, pair_beq_iff, ◌==◌, All, All-append,
  All-select, All-map, All-imp, subst,
}
use tasker_rfid.Prelude.Int.{int_eq}
use tasker_rfid.Prelude.Dict.{lookup, insert}
use tasker_rfid.Debouncer.Grouping.{
  OpenGroup, Observation, add, start_group, starts_new_session, to_observation,
}
use tasker_rfid.Debouncer.Service.{
  Settings, RawRead, Debouncer, warn_if_future_dated, join, absorb_row, absorb_rows, absorb,
  observed, is_finished, is_kept, finished, close_quiet_groups,
}

abbrev pub Entry : Type 0
Entry = (String × String) × OpenGroup

-- The group is filed under its tag and portal, has a read, and does not end before it starts.
abbrev pub IsFiled : (String × String) × OpenGroup → Type 0
IsFiled (key, g) =
    (g.tid ≡ key.0) × (g.portal ≡ key.1) × (1 ≤ g.read_count) × (g.first_read ≤ g.last_read)

abbrev pub IsEvent : Observation → Type 0
IsEvent o = (1 ≤ o.read_count) × (o.first_read ≤ o.last_read)

abbrev pub KeysDiffer : List ((String × String) × OpenGroup) → Type 0
KeysDiffer [] = Unit
KeysDiffer ((key, _) ∷ d) = All (λ e. e.0 ≢ key) d × KeysDiffer d

pub record IsOrderly (s : Debouncer) : Type 0 where
  pub filed : All IsFiled s.open_groups
  pub differ : KeysDiffer s.open_groups
  pub closed : All IsEvent s.closed_this_round

group-injective : (x y : OpenGroup) → some x ≡ some y → x ≡ y
group-injective x y e = cc

lookup-IsFiled :
    (key : String × String) (d : List ((String × String) × OpenGroup)) {g : OpenGroup}
    → All IsFiled d
    → lookup key d ≡ some g
    → IsFiled (key, g)
unfolding lookup
lookup-IsFiled key [] h e = cc
lookup-IsFiled key ((j, x) ∷ d) {g} h e = elim (Bool-cases (j == key)) [
  | inl f ↦
      subst (λ (k : String × String). IsFiled (k, g)) ((pair_beq_iff j key).0 f)
        (subst (λ (y : OpenGroup). IsFiled (j, y)) (group-injective x g (rw f at e)) h.0)
  | inr f ↦ lookup-IsFiled key d h.1 (rw f at e)
]

insert-IsFiled :
    (key : String × String) (g : OpenGroup) (d : List ((String × String) × OpenGroup))
    → IsFiled (key, g)
    → All IsFiled d
    → All IsFiled (insert key g d)
unfolding insert
insert-IsFiled key g [] p h = (p, tt)
insert-IsFiled key g ((j, x) ∷ d) p h = elim (Bool-cases (j == key)) [
  | inl f ↦
      rw f (subst (λ (k : String × String). IsFiled (k, g)) (sym ((pair_beq_iff j key).0 f)) p, h.1)
  | inr f ↦ rw f (h.0, insert-IsFiled key g d p h.1)
]

insert-apart :
    (key other : String × String) (g : OpenGroup) (d : List ((String × String) × OpenGroup))
    → key ≢ other
    → All (λ e. e.0 ≢ other) d
    → All (λ e. e.0 ≢ other) (insert key g d)
unfolding insert
insert-apart key other g [] ne h = (ne, tt)
insert-apart key other g ((j, x) ∷ d) ne h =
    if_ind (All (λ (e : Entry). e.0 ≢ other)) (j == key) (λ _. (h.0, h.1))
      (λ _. (h.0, insert-apart key other g d ne h.1))

insert-KeysDiffer :
    (key : String × String) (g : OpenGroup) (d : List ((String × String) × OpenGroup))
    → KeysDiffer d
    → KeysDiffer (insert key g d)
unfolding insert
insert-KeysDiffer key g [] h = (tt, tt)
insert-KeysDiffer key g ((j, x) ∷ d) h = elim (Bool-cases (j == key)) [
  | inl e ↦ rw e h
  | inr e ↦ rw e (
    insert-apart key j g d (λ p. true≢false (sym ((pair_beq_iff j key).1 (sym p)) ∙ e)) h.0,
    insert-KeysDiffer key g d h.1,
  )
]

select-apart :
    (other : String × String) (p : Entry → Bool) (d : List ((String × String) × OpenGroup))
    → All (λ e. e.0 ≢ other) d
    → All (λ e. e.0 ≢ other) (select p d)
select-apart other p d h = All-select _ p d h

select-KeysDiffer :
    (p : Entry → Bool) (d : List ((String × String) × OpenGroup))
    → KeysDiffer d
    → KeysDiffer (select p d)
select-KeysDiffer p [] h = tt
select-KeysDiffer p ((j, x) ∷ d) h =
    if_ind KeysDiffer (p (j, x)) (λ _. (select-apart j p d h.0, select-KeysDiffer p d h.1))
      (λ _. select-KeysDiffer p d h.1)

module _ (settings : Settings) where
  join-IsOrderly :
      (portal : String) (monotonic_now : ℕ) (row : RawRead) (s : Debouncer)
      → IsOrderly s
      → IsOrderly
          (join settings portal monotonic_now row (lookup (row.tid, portal) s.open_groups) s)
  unfolding join add start_group to_observation
  join-IsOrderly portal now row s h = elim (Option-cases (lookup (row.tid, portal) s.open_groups)) [
    | inl e ↦ rw e (record {
      filed =
          insert-IsFiled (row.tid, portal) (start_group row.tid portal row.read_at row.rssi now)
            s.open_groups (refl, refl, omega arith, omega arith) h.filed;
      differ = insert-KeysDiffer (row.tid, portal) _ s.open_groups h.differ;
      closed = h.closed;
    })
    | inr (g, e) ↦
        let filed = lookup-IsFiled (row.tid, portal) s.open_groups h.filed e in
        rw e (
          if_ind IsOrderly (starts_new_session g row.read_at settings.quiet_period)
            (λ _. record {
              filed =
                  insert-IsFiled (row.tid, portal)
                    (start_group row.tid portal row.read_at row.rssi now) s.open_groups
                    (refl, refl, omega arith, omega arith) h.filed;
              differ = insert-KeysDiffer (row.tid, portal) _ s.open_groups h.differ;
              closed = All-append IsEvent s.closed_this_round _ h.closed ((filed.2, filed.3), tt);
            })
            (λ _. record {
              filed =
                  insert-IsFiled (row.tid, portal) (add g row.read_at row.rssi now) s.open_groups
                    (filed.0, filed.1, ground arith, ground arith) h.filed;
              differ = insert-KeysDiffer (row.tid, portal) _ s.open_groups h.differ;
              closed = h.closed;
            }))
  ]

  absorb_row-IsOrderly :
      (monotonic_now : ℕ) (utc_now : ℕ → ℕ) (row : RawRead) (s : Debouncer)
      → IsOrderly s
      → IsOrderly (absorb_row settings monotonic_now utc_now row s)
  unfolding absorb_row warn_if_future_dated
  absorb_row-IsOrderly now utc row s h =
      elim (Option-cases (lookup row.antenna_id settings.portal_of)) [
        | inl e ↦
            rw (e, absorb_row) (record { filed = h.filed; differ = h.differ; closed = h.closed })
        | inr (portal, e) ↦
            rw (e, absorb_row)
              (join-IsOrderly portal now row (warn_if_future_dated row.read_at (utc row.id) s)
                (record { filed = h.filed; differ = h.differ; closed = h.closed }))
      ]

  absorb_rows-IsOrderly :
      (monotonic_now : ℕ) (utc_now : ℕ → ℕ) (rows : List RawRead) (s : Debouncer)
      → IsOrderly s
      → IsOrderly (absorb_rows settings monotonic_now utc_now rows s)
  unfolding absorb_rows
  absorb_rows-IsOrderly now utc [] s h = h
  absorb_rows-IsOrderly now utc (row ∷ rows) s h =
      absorb_rows-IsOrderly now utc rows _ (absorb_row-IsOrderly now utc row s h)

  -- If every open group is filed under its own tag and portal, no key is there twice and every
  -- group and closed observation is a proper event, then all this still holds after a batch of
  -- reads is absorbed.
  pub absorb-IsOrderly :
      (monotonic_now : ℕ) (utc_now : ℕ → ℕ) (rows : List RawRead) (s : Debouncer)
      → IsOrderly s
      → IsOrderly (absorb settings monotonic_now utc_now rows s)
  unfolding absorb
  absorb-IsOrderly now utc rows s h =
      let k = absorb_rows-IsOrderly now utc rows s h in
      record { filed = k.filed; differ = k.differ; closed = k.closed }

  observed-IsEvent : (d : List Entry) → All IsFiled d → All IsEvent (map observed d)
  unfolding to_observation
  observed-IsEvent d h = All-map IsEvent observed d (All-imp IsFiled _ d (λ e f. (f.2, f.3)) h)

  -- If the groups are in order, then they are after the quiet ones are closed, and every
  -- observation that comes out counts a read and does not end before it starts.
  pub close_quiet_groups-IsOrderly :
      (force : Bool) (monotonic_now : ℕ) (s : Debouncer)
      → IsOrderly s
      → IsOrderly (close_quiet_groups settings force monotonic_now s).1
        × All IsEvent (close_quiet_groups settings force monotonic_now s).0
  unfolding close_quiet_groups finished
  close_quiet_groups-IsOrderly force now s h = (
    record {
      filed = All-select IsFiled _ s.open_groups h.filed;
      differ = select-KeysDiffer _ s.open_groups h.differ;
      closed = tt;
    },
    All-select IsEvent (is_kept settings) _ (
        All-append IsEvent s.closed_this_round _ h.closed (
          observed-IsEvent _
            (All-select IsFiled (is_finished settings force now) s.open_groups h.filed))),
  )
