-- ===== src/Api/Sessions/Dock.antt =====
-- What an open dock means to the state engine, which attributes a dispatch to the session that
-- `OPEN_SESSION_SQL` finds.
use tasker_rfid.Prelude.{
  ℕ, ◌≡◌, refl, ap, ◌∙◌, subst, Bool, true, false, Option, none, some, List, [], ◌∷◌, ◌++◌, select,
  elem, nat_eq, string_eq, if◌then◌else◌, ◌≢◌, ltb, arith,
}
use tasker_rfid.Prelude.Results.{Result, ok, err, ◌>>=◌, ok-injective}
use tasker_rfid.Schema.{DispatchSession}
use tasker_rfid.StateEngine.Store.{latest, open_in, is_null}
use tasker_rfid.Api.{HttpException, Tables}
use tasker_rfid.Api.Sessions.{NewDispatchSession, check_dock, insert_session, open_session}

abbrev pub open_sessions : List DispatchSession → List DispatchSession
open_sessions = select (λ s. is_null s.closed_at)

-- What OPEN_SESSION_SQL makes of the open sessions.
abbrev pub session_of : List DispatchSession → Option ℕ
session_of l = elim (latest none l) [ none ↦ none | some s ↦ some s.session_id ]

latest_some :
    (s : DispatchSession) (rest : List DispatchSession)
    → (b : DispatchSession) × (latest (some s) rest ≡ some b)
unfolding latest
latest_some s [] = (s, refl)
latest_some s (x ∷ xs) = latest_some (if ltb s.opened_at x.opened_at then x else s) xs

-- No session is found where none is open.
none_open :
    (sessions : List DispatchSession) → open_in sessions ≡ none → open_sessions sessions ≡ []
unfolding open_in latest
none_open sessions e = go (open_sessions sessions) e
  where
    found :
        (o : Option DispatchSession)
        → (b : DispatchSession) × (o ≡ some b)
        → (elim o as (λ _. Option ℕ) [ none ↦ none | some s ↦ some s.session_id ]) ≢ none
    found none (b, h) e = cc
    found (some x) (b, h) e = cc

    go : (l : List DispatchSession) → session_of l ≡ none → l ≡ []
    go [] e = refl
    go (x ∷ xs) e = absurd (found _ (latest_some x xs) e)

pub open_sessions-append :
    (xs ys : List DispatchSession) → open_sessions (xs ++ ys) ≡ open_sessions xs ++ open_sessions ys
open_sessions-append [] ys = refl
open_sessions-append (x ∷ xs) ys = ground (arith, open_sessions-append xs ys)

-- What the tables hold after an insert, if no session was open before.
pub inserted :
    (body : NewDispatchSession) (session_id now : ℕ) (t : Tables)
    → open_in t.db.dispatch_sessions ≡ none
    → open_sessions (insert_session body session_id now t).1.db.dispatch_sessions
      ≡ (insert_session body session_id now t).0 ∷ []
unfolding insert_session
inserted body session_id now t e =
    open_sessions-append t.db.dispatch_sessions _
    ∙ ap
        (λ (l : List DispatchSession).
          l ++ open_sessions ((insert_session body session_id now t).0 ∷ []))
        (none_open t.db.dispatch_sessions e)

-- The only open session is the one that is found.
one_open :
    (sessions : List DispatchSession) (s : DispatchSession)
    → open_sessions sessions ≡ s ∷ []
    → open_in sessions ≡ some s.session_id
unfolding open_in latest
one_open sessions s e = ap session_of e

-- If a session is opened, then it is the only one that is open, and it is the one to which the state
-- engine attributes what leaves.
pub open_session-open_in :
    (body : NewDispatchSession) (session_id now : ℕ) (t : Tables) (r : DispatchSession × Tables)
    → open_session body session_id now t ≡ ok r
    → (open_sessions r.1.db.dispatch_sessions ≡ r.0 ∷ [])
      × (open_in r.1.db.dispatch_sessions ≡ some session_id)
unfolding open_session check_dock insert_session
open_session-open_in body session_id now t r e =
    go (open_in t.db.dispatch_sessions) refl (elem body.customer_id t.customers) e
  where
    new : DispatchSession × Tables
    new = insert_session body session_id now t

    opened :
        open_in t.db.dispatch_sessions ≡ none
        → new ≡ r
        → (open_sessions r.1.db.dispatch_sessions ≡ r.0 ∷ [])
          × (open_in r.1.db.dispatch_sessions ≡ some session_id)
    opened h same =
        subst
          (λ (r : DispatchSession × Tables).
            (open_sessions r.1.db.dispatch_sessions ≡ r.0 ∷ [])
            × (open_in r.1.db.dispatch_sessions ≡ some session_id))
          same
          (
            inserted body session_id now t h,
            one_open new.1.db.dispatch_sessions new.0 (inserted body session_id now t h),
          )

    go :
        (o : Option ℕ)
        → open_in t.db.dispatch_sessions ≡ o
        → (b : Bool)
        → ((elim o as (λ _. Result HttpException (Unit {0})) [
          | some _ ↦ err (record { status_code = 409 })
          | none ↦ if b then ok tt else err (record { status_code = 422 })
        ])
            >>= λ _. ok new)
          ≡ ok r
        → (open_sessions r.1.db.dispatch_sessions ≡ r.0 ∷ [])
          × (open_in r.1.db.dispatch_sessions ≡ some session_id)
    go none h true k = opened h (ok-injective k)
    go none h false k = cc
    go (some id) h b k = cc
