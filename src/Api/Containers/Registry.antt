-- ===== src/Api/Containers/Registry.antt =====
-- Registering with `register_container`, and finding the row again with `LOCK_CONTAINER_SQL` of the
-- state engine.
use tasker_rfid.Prelude.{
  ℕ, ◌≡◌, ◌≢◌, refl, ap, subst, String, Bool, true, false, Option, none, some, List, [], ◌∷◌, ◌++◌,
  map, select, string_eq, ◌==◌, if◌then◌else◌, arith, eq_iff,
}
use tasker_rfid.Prelude.Results.{Result, ok, err, ◌>>=◌, >>=-eq-ok, ok-injective}
use tasker_rfid.Schema.{Container}
use tasker_rfid.StateEngine.Transitions.{registered}
use tasker_rfid.StateEngine.Store.{first, lock_container}
use tasker_rfid.Api.{HttpException, Tables}
use tasker_rfid.Api.Containers.{
  NewContainer, container_by_tid, parent_for, check_skus, content_of, insert_container,
  register_container,
}

-- A row at the end is found where there is none before it.
first-select-append :
    (p : Container → Bool) (xs : List Container) (c : Container)
    → first (select p xs) ≡ none
    → p c ≡ true
    → first (select p (xs ++ c ∷ [])) ≡ some c
first-select-append p [] c e h = ground (arith, h)
first-select-append p (x ∷ xs) c e h = go (p x) e (first-select-append p xs c)
  where
    go :
        (b : Bool)
        → first (if b then x ∷ select p xs else select p xs) ≡ none
        → (first (select p xs) ≡ none → p c ≡ true → first (select p (xs ++ c ∷ [])) ≡ some c)
        → first (if b then x ∷ select p (xs ++ c ∷ []) else select p (xs ++ c ∷ [])) ≡ some c
    go true e later = cc
    go false e later = later e h

-- It is not found where it does not fit.
select-append_other :
    (p : Container → Bool) (xs : List Container) (c : Container)
    → p c ≡ false
    → select p (xs ++ c ∷ []) ≡ select p xs
select-append_other p [] c h = ground (arith, h)
select-append_other p (x ∷ xs) c h = ground (arith, select-append_other p xs c h)

-- What a registration writes.
pub record IsRegistered (body : NewContainer) (t : Tables) (created : Container) (t' : Tables)
    : Type 0 where
  pub status : created.status ≡ registered
  pub found : lock_container body.tid t'.db ≡ some created
  pub others : (tid : String) → tid ≢ body.tid → lock_container tid t'.db ≡ lock_container tid t.db
  pub contents :
      t'.container_contents
      ≡ t.container_contents ++ map (content_of created.container_id) body.contents
  pub movements : t'.db.movements ≡ t.db.movements

-- If a container is registered, then the state engine finds the new row by its TID, as REGISTERED and
-- with its contents; no other TID leads to another row than before, and no movement is written.
pub register_container-IsRegistered :
    (body : NewContainer) (container_id : ℕ) (t : Tables) (r : Container × Tables)
    → register_container body container_id t ≡ ok r
    → IsRegistered body t r.0 r.1
unfolding register_container insert_container lock_container
register_container-IsRegistered body container_id t r e = go (container_by_tid body.tid t) refl e
  where
    written :
        (parent_id : Option ℕ)
        → container_by_tid body.tid t ≡ none
        → IsRegistered body t
            (insert_container body parent_id container_id t).0
            (insert_container body parent_id container_id t).1
    written parent_id free = record {
      status = refl;
      found =
          first-select-append (λ c. c.tid == body.tid) t.db.containers _ free
            ((eq_iff body.tid body.tid).1 refl);
      others = λ tid other. ap first (
          select-append_other (λ c. c.tid == tid) t.db.containers _
            (ground (arith, eq_iff body.tid tid, other)));
      contents = refl;
      movements = refl;
    }

    go :
        (o : Option Container)
        → container_by_tid body.tid t ≡ o
        → (elim o as (λ _. Result HttpException (Container × Tables)) [
          | some _ ↦ err (record { status_code = 409 })
          | none ↦ parent_for body.parent_tid t >>= λ parent_id. check_skus body.contents t >>= λ _.
              ok (insert_container body parent_id container_id t)
        ])
          ≡ ok r
        → IsRegistered body t r.0 r.1
    go (some c) h k = cc
    go none h k =
        let (parent_id, _, k') =
          >>=-eq-ok (parent_for body.parent_tid t)
            (λ parent_id. check_skus body.contents t >>= λ _.
              ok (insert_container body parent_id container_id t))
            k in
        let (_, _, k'') =
          >>=-eq-ok (check_skus body.contents t)
            (λ _. ok (insert_container body parent_id container_id t)) k' in
        subst (λ (r : Container × Tables). IsRegistered body t r.0 r.1) (ok-injective k'')
          (written parent_id h)
