-- ===== src/Api/Sessions/Closing.antt =====
-- Closing the dock: what leaves from then on has no session.
use tasker_rfid.Prelude.{
  ℕ, suc, ◌≤◌, ◌≡◌, refl, ap, subst, Bool, true, false, Option, none, some, List, [], ◌∷◌, map,
  select, length, nat_eq, string_eq, ◌==◌, if◌then◌else◌, Bool-cases, inl, inr, arith,
}
use tasker_rfid.Prelude.Results.{Result, ok, err, if-eq-ok}
use tasker_rfid.Schema.{DispatchSession}
use tasker_rfid.StateEngine.Store.{first, latest, open_in, is_null}
use tasker_rfid.Api.{HttpException, Tables}
use tasker_rfid.Api.Sessions.{with_sessions, session_by_id, closed, close_session}
use tasker_rfid.Api.Sessions.Dock.{open_sessions, session_of}

-- Closing rows leaves no more open ones.
open_sessions-closed :
    (session_id now : ℕ) (xs : List DispatchSession)
    → length (open_sessions (map (closed session_id now) xs)) ≤ length (open_sessions xs)
open_sessions-closed session_id now [] = omega arith
open_sessions-closed session_id now (x ∷ xs) =
    ground (arith, open_sessions-closed session_id now xs)

first_here :
    (p : DispatchSession → Bool) (x : DispatchSession) (xs : List DispatchSession)
    (s : DispatchSession)
    → p x ≡ true
    → first (select p (x ∷ xs)) ≡ some s
    → x ≡ s
first_here p x xs s h f = ground (arith, h, f)

first_later :
    (p : DispatchSession → Bool) (x : DispatchSession) (xs : List DispatchSession)
    (s : DispatchSession)
    → p x ≡ false
    → first (select p (x ∷ xs)) ≡ some s
    → first (select p xs) ≡ some s
first_later p x xs s h f = ground (arith, h, f)

-- Closing an open session leaves one open session less.
close_count :
    (session_id now : ℕ) (xs : List DispatchSession) (s : DispatchSession)
    → first (select (λ x. x.session_id == session_id) xs) ≡ some s
    → is_null s.closed_at ≡ true
    → suc (length (open_sessions (map (closed session_id now) xs))) ≤ length (open_sessions xs)
close_count session_id now [] s f o = cc
close_count session_id now (x ∷ xs) s f o = elim (Bool-cases (x.session_id == session_id)) [
  | inl h ↦
      let same = first_here (λ y. y.session_id == session_id) x xs s h f in
      ground (
        arith,
        h,
        ap (λ (y : DispatchSession). is_null y.closed_at) same,
        o,
        open_sessions-closed session_id now xs,
      )
  | inr h ↦ ground (
    arith,
    h,
    close_count session_id now xs s (first_later (λ y. y.session_id == session_id) x xs s h f) o,
  )
]

-- If at most one session is open, and one is closed, then none is open, and what leaves from then on
-- is attributed to none.
pub close_session-open_in :
    (session_id now : ℕ) (t t' : Tables)
    → length (open_sessions t.db.dispatch_sessions) ≤ 1
    → close_session session_id now t ≡ ok t'
    → (open_sessions t'.db.dispatch_sessions ≡ []) × (open_in t'.db.dispatch_sessions ≡ none)
unfolding close_session session_by_id open_in latest
close_session-open_in session_id now t t' one e = go (session_by_id session_id t) refl e
  where
    sessions : List DispatchSession
    sessions = map (closed session_id now) t.db.dispatch_sessions

    empty : (l : List DispatchSession) → suc (length l) ≤ 1 → l ≡ []
    empty [] h = refl
    empty (x ∷ xs) h = ground (arith, h)

    nobody :
        (s : DispatchSession)
        → session_by_id session_id t ≡ some s
        → is_null s.closed_at ≡ true
        → open_sessions sessions ≡ []
    nobody s f o =
        empty (open_sessions sessions)
          (omega (arith, one, close_count session_id now t.db.dispatch_sessions s f o))

    go :
        (o : Option DispatchSession)
        → session_by_id session_id t ≡ o
        → (elim o as (λ _. Result HttpException Tables) [
          | none ↦ err (record { status_code = 404 })
          | some s ↦
              if is_null s.closed_at
              then ok (with_sessions sessions t)
              else err (record { status_code = 409 })
        ])
          ≡ ok t'
        → (open_sessions t'.db.dispatch_sessions ≡ []) × (open_in t'.db.dispatch_sessions ≡ none)
    go none h k = cc
    go (some s) h k =
        let (o, same) = if-eq-ok (is_null s.closed_at) (record { status_code = 409 }) k in
        subst
          (λ (t' : Tables).
            (open_sessions t'.db.dispatch_sessions ≡ []) × (open_in t'.db.dispatch_sessions ≡ none))
          same (nobody s h o, ap session_of (nobody s h o))
