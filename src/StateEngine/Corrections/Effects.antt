-- ===== src/StateEngine/Corrections/Effects.antt =====
-- What a manual correction does and refuses.
use tasker_rfid.Prelude.{
  ℕ, String, ◌≡◌, ◌≢◌, refl, sym, subst, true≢false, true, Option, some, [], ◌∷◌, ◌++◌, arith,
  eq_iff, string_eq, elem, All-append,
}
use tasker_rfid.Prelude.Results.{Result, ok, >>=-eq-ok}
use tasker_rfid.Schema.{Container, Db}
use tasker_rfid.StateEngine.Store.{lock_container, update_where, insert_movement}
use tasker_rfid.StateEngine.Engine.{source_portal}
use tasker_rfid.StateEngine.Ledger.{IsLedger, write-IsLedger}
use tasker_rfid.StateEngine.Sessions.{AllAttributed, IsAttributed}
use tasker_rfid.StateEngine.Corrections.{
  valid_statuses, source_manual, Refusal, Correction, check_target_status, correct_row, set_status,
  manual_movement, required, apply_manual_correction,
}

check_target_status_ok :
    (current to : String)
    → check_target_status current to ≡ ok tt
    → (elem to valid_statuses ≡ true) × (current ≢ to)
unfolding check_target_status
check_target_status_ok current to h = ground (arith, eq_iff current to)

check_target_status_passes :
    (current to : String)
    → elem to valid_statuses ≡ true
    → current ≢ to
    → check_target_status current to ≡ ok tt
unfolding check_target_status
check_target_status_passes current to h g = ground (arith, eq_iff current to)

required_ok :
    (tid : String) (o : Option Container) (c : Container) → required tid o ≡ ok c → o ≡ some c
unfolding required
required_ok tid o c h = ground arith

ok-injective :
    (x y : Correction × Db) → ◌≡◌ {A = Result Refusal (Correction × Db)} (ok x) (ok y) → x ≡ y
ok-injective x y e = cc

manual≢portal : source_manual ≢ source_portal
manual≢portal e = true≢false (sym ((eq_iff source_manual source_portal).1 e))

module _ (tid to reason operator : String) (now : ℕ) (db : Db) where
  abbrev correct : Container → Correction × Db
  correct c = correct_row c to reason operator now db

  -- If the TID is registered, the status is one of the three and is not the present one, then the
  -- correction is applied.
  corrects :
      (c : Container)
      → lock_container tid db ≡ some c
      → elem to valid_statuses ≡ true
      → c.status ≢ to
      → apply_manual_correction tid to reason operator now db ≡ ok (correct c)
  unfolding apply_manual_correction required
  corrects c locked valid differs =
      rw (locked, required, check_target_status_passes c.status to valid differs)

  -- Nothing else is applied.
  corrects_only :
      (r : Correction × Db)
      → apply_manual_correction tid to reason operator now db ≡ ok r
      → (c : Container) × (lock_container tid db ≡ some c)
        × (elem to valid_statuses ≡ true)
        × (c.status ≢ to)
        × (correct c ≡ r)
  unfolding apply_manual_correction
  corrects_only r h =
      let (c, locked, rest) = >>=-eq-ok (required tid (lock_container tid db)) _ h in
      let (done, checked, same) = >>=-eq-ok (check_target_status c.status to) _ rest in
      let (valid, differs) = check_target_status_ok c.status to checked in
      (c, required_ok tid _ c locked, valid, differs, ok-injective (correct c) r same)

-- What a correction that was applied has done, and why it could be.
pub record Corrected (tid to reason operator : String) (now : ℕ) (before after : Db) : Type 0 where
  pub container : Container
  pub found : lock_container tid before ≡ some container
  pub valid : elem to valid_statuses ≡ true
  pub differs : container.status ≢ to
  pub stock :
      after.containers
      ≡ update_where container.container_id (λ c. record c { status = to }) before.containers
  pub ledger :
      after.movements ≡ before.movements ++ manual_movement container to reason operator now ∷ []

-- If a correction is applied, then the TID names a container, the new status is one of the three
-- and is not the present one, that container alone gets the status, and one movement records it.
pub apply_manual_correction-Corrected :
    (tid to reason operator : String) (now : ℕ) (db : Db) (r : Correction × Db)
    → apply_manual_correction tid to reason operator now db ≡ ok r
    → Corrected tid to reason operator now db r.1
unfolding correct_row insert_movement
apply_manual_correction-Corrected tid to reason operator now db r h =
    let (c, found, valid, differs, same) = corrects_only tid to reason operator now db r h in
    subst (λ (r : Correction × Db). Corrected tid to reason operator now db r.1) same
      (record {
        container = c;
        found = found;
        valid = valid;
        differs = differs;
        stock = refl;
        ledger = refl;
      })

-- If the TID names a container, the new status is one of the three and is not the present one,
-- then the correction is applied, and reports the status that the container had.
pub apply_manual_correction_total :
    (tid to reason operator : String) (now : ℕ) (db : Db) (c : Container)
    → lock_container tid db ≡ some c
    → elem to valid_statuses ≡ true
    → c.status ≢ to
    → (r : Correction × Db) × (apply_manual_correction tid to reason operator now db ≡ ok r)
      × (r.0.from_status ≡ c.status)
unfolding correct_row
apply_manual_correction_total tid to reason operator now db c locked valid differs = (
  correct_row c to reason operator now db,
  corrects tid to reason operator now db c locked valid differs,
  refl,
)

-- If every container stands at the status of its last movement, and every portal dispatch names a
-- session, then both are so after a correction that is applied.
pub apply_manual_correction_keeps :
    (tid to reason operator : String) (now : ℕ) (db : Db) (r : Correction × Db)
    → apply_manual_correction tid to reason operator now db ≡ ok r
    → IsLedger db
    → AllAttributed db
    → IsLedger r.1 × AllAttributed r.1
unfolding correct_row set_status insert_movement manual_movement
apply_manual_correction_keeps tid to reason operator now db r h ledger attributed =
    let (c, _, _, _, same) = corrects_only tid to reason operator now db r h in
    subst (λ (r : Correction × Db). IsLedger r.1 × AllAttributed r.1) same
      (
        write-IsLedger ledger _ (manual_movement c to reason operator now) (λ c. refl) (λ c. refl),
        record {
          each =
              All-append IsAttributed db.movements _ attributed.each
                ((λ _ e. absurd (manual≢portal e)), tt);
        },
      )
