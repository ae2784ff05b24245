-- ===== src/Api/Sessions.antt =====
-- src/tasker_rfid/services/api/routers/dispatch_sessions.py: opening and closing the dock.
pub mod Dock
pub mod Closing
pub mod Race
use tasker_rfid.Prelude.{
  ℕ, String, Bool, true, false, Option, none, some, List, [], ◌∷◌, ◌++◌, map, select, elem, nat_eq,
  string_eq, ◌==◌, if◌then◌else◌,
}
use tasker_rfid.Prelude.Results.{Result, ok, err, ◌>>=◌, ◌>>◌}
use tasker_rfid.Schema.{DispatchSession, Db}
use tasker_rfid.StateEngine.Store.{first, open_in, is_null}
use tasker_rfid.Api.{HttpException, Tables}

pub record NewDispatchSession : Type 0 where
  pub customer_id : String
  pub order_ref : Option String
  pub operator : Option String

-- The checks of open_session, before it writes.
unfoldable pub check_dock : NewDispatchSession → Tables → Result HttpException (Unit {0})
check_dock body t = elim (open_in t.db.dispatch_sessions) [
  | some session_id ↦ err (record { status_code = 409 })
  | none ↦ if elem body.customer_id t.customers then ok tt else err (record { status_code = 422 })
]

abbrev pub with_sessions : List DispatchSession → Tables → Tables
with_sessions sessions t = record t { db = record t.db { dispatch_sessions = sessions } }

-- INSERT INTO dispatch_sessions, with the key and the time that the database gives.
unfoldable pub insert_session :
    NewDispatchSession → (session_id now : ℕ) → Tables → DispatchSession × Tables
insert_session body session_id now t =
    let created : DispatchSession = record {
      session_id = session_id;
      customer_id = some body.customer_id;
      order_ref = body.order_ref;
      opened_at = now;
      closed_at = none;
      operator = body.operator;
    } in
    (created, with_sessions (t.db.dispatch_sessions ++ created ∷ []) t)

unfoldable pub open_session :
    NewDispatchSession
    → (session_id now : ℕ) → Tables
    → Result HttpException (DispatchSession × Tables)
unfolding check_dock insert_session
open_session body session_id now t = do check_dock body t; ok (insert_session body session_id now t)

-- SESSION_SQL
unfoldable pub session_by_id : ℕ → Tables → Option DispatchSession
session_by_id session_id t = first (select (λ s. s.session_id == session_id) t.db.dispatch_sessions)

-- UPDATE dispatch_sessions SET closed_at = now() WHERE session_id = %s
abbrev pub closed : ℕ → ℕ → DispatchSession → DispatchSession
closed session_id now s =
    if s.session_id == session_id then record s { closed_at = some now } else s

-- Without the report of what went out.
unfoldable pub close_session : (session_id now : ℕ) → Tables → Result HttpException Tables
unfolding session_by_id
close_session session_id now t = elim (session_by_id session_id t) [
  | none ↦ err (record { status_code = 404 })
  | some session ↦
      if is_null session.closed_at
      then ok (with_sessions (map (closed session_id now) t.db.dispatch_sessions) t)
      else err (record { status_code = 409 })
]
