-- ===== src/Ingest/Validation/Rows.antt =====
-- Whatever parse_read and parse_gate_event let through fits the columns of its table.
use tasker_rfid.Prelude.{
  ℕ, if_ind, ap, ◌&&◌, Bool-cases, Option-cases, String, ◌≡◌, ◌≢◌, ◌⊎◌, refl, inl, inr, subst, true,
  false, Option, none, some, List, arith, eq_iff, not, string_eq, ◌==◌, elem, select, true≢false,
  sym, ◌∙◌,
}
use tasker_rfid.Prelude.Int.{ℤ, ◌≤ℤ◌, ltb_ℤ}
use tasker_rfid.Prelude.Dict.{Dict}
use tasker_rfid.Prelude.Results.{ok, >>=-eq-ok, if-eq-ok, ok-injective}
use tasker_rfid.Ingest.Validation.{
  Value, null, whole, text, boolean, other, object, Library, Warning, naive, aware, smallint_min,
  smallint_max, beams, beam_states, ReadRow, GateEvent, get, is_present, require, required_fields,
  gate_required_fields, smallint, optional_smallint, text_of, optional_text, timestamp, one_of,
  parse_read, parse_gate_event,
}

-- A SMALLINT column can hold the number.
abbrev pub FitsSmallint : ℤ → Type 0
FitsSmallint n = (smallint_min ≤ℤ n) × (n ≤ℤ smallint_max)

-- The value is text, and `s` is what is left of it without the white space around it: not nothing.
abbrev pub IsTextOf : Library → Value → String → Type 0
IsTextOf library v s = (raw : String) × (v ≡ text raw) × (s ≡ library.strip raw) × (s ≢ "")

abbrev pub IsWholeOf : Value → ℤ → Type 0
IsWholeOf v n = (v ≡ whole n) × FitsSmallint n

-- No value, or a number that fits.
abbrev pub IsOptionalWholeOf : Value → Option ℤ → Type 0
IsOptionalWholeOf v none = v ≡ null
IsOptionalWholeOf v (some n) = IsWholeOf v n

-- The time that `fromisoformat` read, taken for UTC if no timezone is given.
abbrev pub IsTimeOf : Library → Value → ℕ → Type 0
IsTimeOf library v at =
    (raw : String) × (v ≡ text raw)
    × ((library.fromisoformat raw ≡ some (aware at))
        ⊎ (library.fromisoformat raw ≡ some (naive at)))

-- No value, or text with nothing in it but white space; or the text without the white space.
abbrev pub IsOptionalTextOf : Library → Value → Option String → Type 0
IsOptionalTextOf library v none =
    (v ≡ null) ⊎ ((raw : String) × (v ≡ text raw) × (library.strip raw ≡ ""))
IsOptionalTextOf library v (some s) = IsTextOf library v s

differs : (a b : String) → (a == b) ≡ false → a ≢ b
differs a b f e = true≢false (sym ((eq_iff a b).1 e) ∙ f)

smallint_ok : (field : String) (v : Value) (n : ℤ) → smallint field v ≡ ok n → IsWholeOf v n
unfolding smallint
smallint_ok field null n e = cc
smallint_ok field (boolean b) n e = cc
smallint_ok field (text s) n e = cc
smallint_ok field (other s) n e = cc
smallint_ok field (whole m) n e =
    let (fits, same) = if-eq-ok (not (ltb_ℤ m smallint_min) && not (ltb_ℤ smallint_max m)) _ e in
    (ap whole same, subst FitsSmallint same (ground arith))

optional_smallint_ok :
    (field : String) (v : Value) (n : Option ℤ)
    → optional_smallint field v ≡ ok n
    → IsOptionalWholeOf v n
unfolding optional_smallint
optional_smallint_ok field null n e = subst (IsOptionalWholeOf null) (ok-injective e) refl
optional_smallint_ok field (boolean b) n e = cc
optional_smallint_ok field (text s) n e = cc
optional_smallint_ok field (other s) n e = cc
optional_smallint_ok field (whole m) n e =
    let (k, fits, same) = >>=-eq-ok (smallint field (whole m)) _ e in
    subst (IsOptionalWholeOf (whole m)) (ok-injective same) (smallint_ok field (whole m) k fits)

module _ (library : Library) where
  text_of_ok :
      (field : String) (v : Value) (s : String)
      → text_of library field v ≡ ok s
      → IsTextOf library v s
  unfolding text_of
  text_of_ok field null s e = cc
  text_of_ok field (boolean b) s e = cc
  text_of_ok field (whole n) s e = cc
  text_of_ok field (other n) s e = cc
  text_of_ok field (text raw) s e = elim (Bool-cases (library.strip raw == "")) [
    | inl f ↦ cc (rw f at e)
    | inr f ↦ (
      raw,
      refl,
      sym (ok-injective (rw (f, text_of) at e)),
      subst (λ (x : String). x ≢ "") (ok-injective (rw (f, text_of) at e)) (differs _ "" f),
    )
  ]

  optional_text_ok :
      (field : String) (v : Value) (s : Option String)
      → optional_text library field v ≡ ok s
      → IsOptionalTextOf library v s
  unfolding optional_text
  optional_text_ok field null s e =
      subst (IsOptionalTextOf library null) (ok-injective e) (inl refl)
  optional_text_ok field (boolean b) s e = cc
  optional_text_ok field (whole n) s e = cc
  optional_text_ok field (other n) s e = cc
  optional_text_ok field (text raw) s e =
      subst (IsOptionalTextOf library (text raw)) (ok-injective e) (
        if_ind (IsOptionalTextOf library (text raw)) (library.strip raw == "")
          (λ f. inr (raw, refl, (eq_iff _ "").0 f)) (λ f. (raw, refl, refl, differs _ "" f)))

  timestamp_ok :
      (field : String) (v : Value) (r : ℕ × List Warning)
      → timestamp library field v ≡ ok r
      → IsTimeOf library v r.0
  unfolding timestamp
  timestamp_ok field null r e = cc
  timestamp_ok field (boolean b) r e = cc
  timestamp_ok field (whole n) r e = cc
  timestamp_ok field (other n) r e = cc
  timestamp_ok field (text raw) r e = elim (Option-cases (library.fromisoformat raw)) [
    | inl f ↦ cc (rw (f, timestamp) at e)
    | inr (naive at, f) ↦ (
      raw,
      refl,
      inr (
          f
          ∙ ap (λ (x : ℕ × List Warning). some (naive x.0))
              (ok-injective (rw (f, timestamp) at e))),
    )
    | inr (aware at, f) ↦ (
      raw,
      refl,
      inl (
          f
          ∙ ap (λ (x : ℕ × List Warning). some (aware x.0))
              (ok-injective (rw (f, timestamp) at e))),
    )
  ]

  one_of_ok :
      (field : String) (allowed : List String) (v : Value) (s : String)
      → one_of library field allowed v ≡ ok s
      → elem s allowed ≡ true
  unfolding one_of
  one_of_ok field allowed v s e =
      let (raw, _, checked) = >>=-eq-ok (text_of library field v) _ e in
      let (member, same) = if-eq-ok (elem (library.upper raw) allowed) _ checked in
      subst (λ (x : String). elem x allowed ≡ true) same member

-- The row is made of the payload's values, and each fits its column.
pub record IsRowOf (library : Library) (payload : Dict String Value) (row : ReadRow) : Type 0 where
  pub tid : IsTextOf library (get payload "tid") row.tid
  pub epc : IsOptionalTextOf library (get payload "epc") row.epc
  pub reader_id : IsTextOf library (get payload "reader_id") row.reader_id
  pub antenna_id : IsWholeOf (get payload "antenna_id") row.antenna_id
  pub rssi : IsOptionalWholeOf (get payload "rssi") row.rssi
  pub read_at : IsTimeOf library (get payload "read_at") row.read_at

-- If a payload is accepted as a read, then the row's tag and reader are the payload's texts,
-- stripped and not empty; its EPC is the payload's, stripped, and missing exactly where the payload
-- has none or nothing but white space; its antenna and its signal (if one is given) are the payload's numbers and fit a
-- SMALLINT, and its time is the payload's, taken for UTC where no timezone is given.
pub parse_read-IsRowOf :
    (library : Library) (payload : Dict String Value) (r : ReadRow × List Warning)
    → parse_read library (object payload) ≡ ok r
    → IsRowOf library payload r.0
unfolding parse_read
parse_read-IsRowOf library payload r e =
    let (_, _, e1) =
      >>=-eq-ok (require (select (λ f. not (is_present payload f)) required_fields)) _ e in
    let (stamped, at, e2) = >>=-eq-ok (timestamp library "read_at" (get payload "read_at")) _ e1 in
    let (tid, has_tid, e3) = >>=-eq-ok (text_of library "tid" (get payload "tid")) _ e2 in
    let (epc, has_epc, e4) = >>=-eq-ok (optional_text library "epc" (get payload "epc")) _ e3 in
    let (reader_id, has_reader, e5) =
      >>=-eq-ok (text_of library "reader_id" (get payload "reader_id")) _ e4 in
    let (antenna_id, has_antenna, e6) =
      >>=-eq-ok (smallint "antenna_id" (get payload "antenna_id")) _ e5 in
    let (rssi, has_rssi, e7) = >>=-eq-ok (optional_smallint "rssi" (get payload "rssi")) _ e6 in
    subst (λ (x : ReadRow × List Warning). IsRowOf library payload x.0) (ok-injective e7)
      (record {
        tid = text_of_ok library "tid" (get payload "tid") tid has_tid;
        epc = optional_text_ok library "epc" (get payload "epc") epc has_epc;
        reader_id = text_of_ok library "reader_id" (get payload "reader_id") reader_id has_reader;
        antenna_id = smallint_ok "antenna_id" (get payload "antenna_id") antenna_id has_antenna;
        rssi = optional_smallint_ok "rssi" (get payload "rssi") rssi has_rssi;
        read_at = timestamp_ok library "read_at" (get payload "read_at") stamped at;
      })

-- If a payload is accepted as a gate event, then its beam and its state are known ones, its gate
-- is the payload's text, stripped and not empty, and its time is the payload's.
pub parse_gate_event-known :
    (library : Library) (payload : Dict String Value) (r : GateEvent × List Warning)
    → parse_gate_event library (object payload) ≡ ok r
    → (elem r.0.beam beams ≡ true)
      × (elem r.0.state beam_states ≡ true)
      × IsTextOf library (get payload "gate_id") r.0.gate_id
      × IsTimeOf library (get payload "occurred_at") r.0.occurred_at
unfolding parse_gate_event
parse_gate_event-known library payload r e =
    let (_, _, e1) =
      >>=-eq-ok (require (select (λ f. not (is_present payload f)) gate_required_fields)) _ e in
    let (stamped, at, e2) =
      >>=-eq-ok (timestamp library "occurred_at" (get payload "occurred_at")) _ e1 in
    let (gate_id, has_gate, e3) =
      >>=-eq-ok (text_of library "gate_id" (get payload "gate_id")) _ e2 in
    let (beam, has_beam, e4) = >>=-eq-ok (one_of library "beam" beams (get payload "beam")) _ e3 in
    let (state, has_state, e5) =
      >>=-eq-ok (one_of library "state" beam_states (get payload "state")) _ e4 in
    subst
      (λ (x : GateEvent × List Warning).
        (elem x.0.beam beams ≡ true)
        × (elem x.0.state beam_states ≡ true)
        × IsTextOf library (get payload "gate_id") x.0.gate_id
        × IsTimeOf library (get payload "occurred_at") x.0.occurred_at)
      (ok-injective e5)
      (
        one_of_ok library "beam" beams (get payload "beam") beam has_beam,
        one_of_ok library "state" beam_states (get payload "state") state has_state,
        text_of_ok library "gate_id" (get payload "gate_id") gate_id has_gate,
        timestamp_ok library "occurred_at" (get payload "occurred_at") stamped at,
      )
