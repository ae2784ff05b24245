-- ===== src/StateEngine/Effects/Again.antt =====
-- A container that is read twice moves once.
use tasker_rfid.Prelude.{
  ℕ, String, ◌≡◌, refl, sym, subst, map, ap, ◌∙◌, false, Option, none, some, arith, nat_eq,
  Option-cases, inl, inr,
}
use tasker_rfid.Schema.{Container, ObservationRow}
use tasker_rfid.StateEngine.Transitions.{Decision}
use tasker_rfid.StateEngine.Transitions.Rules.{decide_again}
use tasker_rfid.StateEngine.Store.{
  insert_anomaly, mark_processed, lock_container, open_in, container_tree,
}
use tasker_rfid.StateEngine.Engine.{Run, record_anomaly, handle_action}
use tasker_rfid.StateEngine.Tree.{Keyed, arrived}
use tasker_rfid.StateEngine.Effects.{decision_for, session_for, handle_action-Arrived}
use tasker_rfid.StateEngine.Effects.Repeat.{
  glimpsed, lock_container-map, arrived-root, session_for-none,
}
use tasker_rfid.StateEngine.Effects.Still.{glimpsed_if, MovesNothing, Still, handle_action-Still}

-- Another observation of the same tag, at the same portal and in the same direction.
abbrev pub reread : ObservationRow → (id first_read last_read : ℕ) → ObservationRow
reread o id first_read last_read = record o {
  id = id;
  first_read = first_read;
  last_read = last_read;
}

stranger_stays :
    (o : ObservationRow) (s : Run)
    → lock_container o.tid s.db ≡ none
    → lock_container o.tid (handle_action o s).db ≡ none
unfolding handle_action record_anomaly insert_anomaly mark_processed lock_container
stranger_stays o s e = rw (e, handle_action) e

decision_for_same :
    (o : ObservationRow) (c d : Container)
    → c.status ≡ d.status
    → c.reusable ≡ d.reusable
    → decision_for o c ≡ decision_for o d
decision_for_same o c d e f = cc

module _ (o : ObservationRow) (s : Run) where
  abbrev after : Run
  after = handle_action o s

  -- After a read that moved nothing, the same read moves nothing.
  pub MovesNothing-again :
      MovesNothing o s.db (lock_container o.tid s.db)
      → MovesNothing o after.db (lock_container o.tid after.db)
  MovesNothing-again h = go (lock_container o.tid s.db) refl h (handle_action-Still o s h)
    where
      go :
          (found : Option Container)
          → lock_container o.tid s.db ≡ found
          → MovesNothing o s.db found
          → Still o (lock_container o.tid s.db) s.db after.db
          → MovesNothing o after.db (lock_container o.tid after.db)
      go none e h stay = subst (MovesNothing o after.db) (sym (stranger_stays o s e)) tt
      go (some c) e h stay =
          let stock : after.db.containers ≡ map (glimpsed o c) s.db.containers =
            stay.stock ∙ ap (λ f. map (glimpsed_if o f) s.db.containers) e in
          subst (MovesNothing o after.db)
            (sym (lock_container-map (glimpsed o c) o.tid s.db after.db (λ d. refl) stock e))
            (elim h [
              | inl f ↦ inl f
              | inr (f, closed) ↦ inr (f, ap open_in stay.sessions ∙ closed)
            ])

  again_arrived :
      (c : Container) (to : String) (session_id : Option ℕ)
      → lock_container o.tid s.db ≡ some c
      → Keyed s.db.containers
      → (decision_for o c).to_status ≡ some to
      → (decision_for o c).detach_children ≡ false
      → session_for s.db to ≡ some session_id
      → MovesNothing o after.db (lock_container o.tid after.db)
  again_arrived c to session_id locked keyed d e covered =
      let load = arrived to o.portal session_id o.last_read (container_tree c.container_id s.db) in
      let done = handle_action-Arrived o s c to session_id keyed locked d e covered in
      subst (MovesNothing o after.db)
        (sym (lock_container-map load o.tid s.db after.db (λ d. ground arith) done.stock locked))
        (inl (
          ap (λ (d : Decision). d.to_status)
            (decision_for_same o (load c) (record c { status = to })
              (arrived-root o s c locked to o.portal session_id o.last_read) (ground arith))
          ∙ decide_again o.portal o.direction c.status c.reusable d e))

  -- After a read that is no return, whatever it did, the same read moves nothing.
  pub MovesNothing-after :
      Keyed s.db.containers
      → ((c : Container)
          → lock_container o.tid s.db ≡ some c
          → (decision_for o c).detach_children ≡ false)
      → MovesNothing o after.db (lock_container o.tid after.db)
  MovesNothing-after keyed no_return = elim (Option-cases (lock_container o.tid s.db)) [
    | inl e ↦ MovesNothing-again (subst (MovesNothing o s.db) (sym e) tt)
    | inr (c, e) ↦ elim (Option-cases (decision_for o c).to_status) [
      | inl f ↦ MovesNothing-again (subst (MovesNothing o s.db) (sym e) (inl f))
      | inr (to, f) ↦ elim (Option-cases (session_for s.db to)) [
        | inl g ↦
            let (is_dispatch, closed) = session_for-none s.db to g in
            MovesNothing-again
              (subst (MovesNothing o s.db) (sym e) (inr (f ∙ ap some is_dispatch, closed)))
        | inr (session_id, g) ↦ again_arrived c to session_id e keyed f (no_return c e) g
      ]
    ]
  ]

-- If an observation of a tag is no return of a reusable container, then handling another
-- observation of that tag, at the same portal and in the same direction, right after it writes no
-- movement: whether the first moved the container, refused to or found nothing to do.
pub handle_action-again :
    (o : ObservationRow) (s : Run) (id first_read last_read : ℕ)
    → Keyed s.db.containers
    → ((c : Container)
        → lock_container o.tid s.db ≡ some c
        → (decision_for o c).detach_children ≡ false)
    → (handle_action (reread o id first_read last_read) (handle_action o s)).db.movements
      ≡ (handle_action o s).db.movements
handle_action-again o s id first_read last_read keyed no_return =
    (handle_action-Still (reread o id first_read last_read) (handle_action o s)
      (MovesNothing-after o s keyed no_return)).ledger
