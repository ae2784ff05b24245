-- ===== src/Api/Sessions/Race.antt =====
-- Two requests to open the dock: open_session of src/tasker_rfid/services/api/routers/
-- dispatch_sessions.py looks for an open session and then inserts one, with nothing that keeps a second
-- request from doing the same in between.
use tasker_rfid.Prelude.{
  ℕ, ◌<◌, ◌≡◌, ap, ◌∙◌, true, none, some, List, [], ◌∷◌, ◌++◌, elem, nat_eq, string_eq, arith,
}
use tasker_rfid.Prelude.Results.{ok, err, ◌>>=◌}
use tasker_rfid.Schema.{DispatchSession}
use tasker_rfid.StateEngine.Store.{latest, open_in}
use tasker_rfid.Api.{Tables}
use tasker_rfid.Api.Sessions.{NewDispatchSession, check_dock, insert_session, open_session}
use tasker_rfid.Api.Sessions.Dock.{open_sessions, session_of, open_sessions-append, inserted}

-- What two requests come to, one after the other and with both checks before both inserts.
pub record Raced (body body' : NewDispatchSession) (id id' now now' : ℕ) (t : Tables) : Type 0 where
  -- In turn: the first is accepted and the second refused.
  pub first_in_turn : open_session body id now t ≡ ok (insert_session body id now t)
  pub second_in_turn :
      open_session body' id' now' (insert_session body id now t).1
      ≡ err (record { status_code = 409 })
  -- Interleaved: neither is refused, both sessions are open, and the later one takes what leaves.
  pub first_checked : check_dock body t ≡ ok tt
  pub second_checked : check_dock body' t ≡ ok tt
  pub both :
      open_sessions
        (insert_session body' id' now' (insert_session body id now t).1).1.db.dispatch_sessions
      ≡ (insert_session body id now t).0
        ∷ (insert_session body' id' now' (insert_session body id now t).1).0
        ∷ []
  pub taken :
      open_in
        (insert_session body' id' now' (insert_session body id now t).1).1.db.dispatch_sessions
      ≡ some id'

free_dock :
    (body : NewDispatchSession) (t : Tables)
    → open_in t.db.dispatch_sessions ≡ none
    → elem body.customer_id t.customers ≡ true
    → check_dock body t ≡ ok tt
unfolding check_dock
free_dock body t free known = rw (free, known, check_dock)

-- Where one session is open, a request is refused.
busy_dock :
    (body : NewDispatchSession) (id now : ℕ) (t : Tables) (other : ℕ)
    → open_in t.db.dispatch_sessions ≡ some other
    → open_session body id now t ≡ err (record { status_code = 409 })
unfolding open_session check_dock
busy_dock body id now t other e = rw (open_session, check_dock, e)

-- If no session is open and two requests name customers that exist, then in turn the first is accepted
-- and the second refused; but if both are checked before either of them inserts, neither is refused,
-- exactly their two sessions are open, and what leaves is attributed to the later one.
pub open_session_twice :
    (body body' : NewDispatchSession) (id id' now now' : ℕ) (t : Tables)
    → open_in t.db.dispatch_sessions ≡ none
    → elem body.customer_id t.customers ≡ true
    → elem body'.customer_id t.customers ≡ true
    → now < now'
    → Raced body body' id id' now now' t
unfolding insert_session open_session open_in latest
open_session_twice body body' id id' now now' t free known known' later = record {
  first_in_turn =
      ap (λ r. r >>= λ _. ok (insert_session body id now t)) (free_dock body t free known);
  second_in_turn =
      busy_dock body' id' now' (insert_session body id now t).1 id
        (ap session_of (inserted body id now t free));
  first_checked = free_dock body t free known;
  second_checked = free_dock body' t free known';
  both = both;
  taken = ap session_of both ∙ ground (arith, later);
}
  where
    both :
        open_sessions
          (insert_session body' id' now' (insert_session body id now t).1).1.db.dispatch_sessions
        ≡ (insert_session body id now t).0
          ∷ (insert_session body' id' now' (insert_session body id now t).1).0
          ∷ []
    both =
        open_sessions-append (insert_session body id now t).1.db.dispatch_sessions _
        ∙ ap (λ (l : List DispatchSession). l ++ (insert_session body' id' now' t).0 ∷ [])
            (inserted body id now t free)
