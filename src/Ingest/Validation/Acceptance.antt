-- ===== src/Ingest/Validation/Acceptance.antt =====
-- parse_read rejects only what cannot be stored, and looks at no other field.
use tasker_rfid.Prelude.{
  ℕ, String, ◌≡◌, ◌≢◌, ◌⊎◌, refl, inl, inr, ap, Bool, true, false, Option, none, some, List, [],
  ◌∷◌, arith, eq_iff, not, string_eq, select, All,
}
use tasker_rfid.Prelude.Int.{ℤ}
use tasker_rfid.Prelude.Dict.{Dict, lookup}
use tasker_rfid.Prelude.Results.{ok}
use tasker_rfid.Ingest.Validation.{
  Value, null, whole, text, object, Library, Warning, no_timezone, ReadRow, get, is_present,
  require, required_fields, smallint, optional_smallint, text_of, optional_text, timestamp,
  parse_read,
}
use tasker_rfid.Ingest.Validation.Rows.{IsTextOf, IsWholeOf, IsOptionalWholeOf, IsTimeOf}

abbrev pub read_fields : List String
read_fields = "tid" ∷ "epc" ∷ "reader_id" ∷ "antenna_id" ∷ "rssi" ∷ "read_at" ∷ []

select_same :
    (p q : String → Bool) (xs : List String) → All (λ x. p x ≡ q x) xs → select p xs ≡ select q xs
select_same p q [] h = refl
select_same p q (x ∷ xs) h = ground (arith, h.0, select_same p q xs h.1)

absent :
    (a b : Dict String Value) (f : String)
    → lookup f a ≡ lookup f b
    → not (is_present a f) ≡ not (is_present b f)
absent a b f = ap (λ (v : Option Value). not (elim v [ none ↦ false | some _ ↦ true ]))

abbrev missing_in : Dict String Value → List String
missing_in payload = select (λ f. not (is_present payload f)) required_fields

missing_same :
    (a b : Dict String Value)
    → lookup "tid" a ≡ lookup "tid" b
    → lookup "reader_id" a ≡ lookup "reader_id" b
    → lookup "antenna_id" a ≡ lookup "antenna_id" b
    → lookup "read_at" a ≡ lookup "read_at" b
    → missing_in a ≡ missing_in b
missing_same a b tid reader_id antenna_id read_at =
    select_same (λ f. not (is_present a f)) (λ f. not (is_present b f)) required_fields
      (
        absent a b "tid" tid,
        (
          absent a b "reader_id" reader_id,
          (absent a b "antenna_id" antenna_id, (absent a b "read_at" read_at, tt)),
        ),
      )

-- If two payloads agree on the six fields that a read has, then parse_read does the same with both:
-- fields that it does not know are ignored.
pub parse_read_agree :
    (library : Library) (a b : Dict String Value)
    → All (λ f. lookup f a ≡ lookup f b) read_fields
    → parse_read library (object a) ≡ parse_read library (object b)
unfolding parse_read get
parse_read_agree library a b (tid, (epc, (reader_id, (antenna_id, (rssi, (read_at, _)))))) = rw (
  parse_read,
  missing_same a b tid reader_id antenna_id read_at,
  get,
  tid,
  epc,
  reader_id,
  antenna_id,
  rssi,
  read_at,
)

-- Text or nothing.
abbrev pub IsOptionalTextValue : Value → Type 0
IsOptionalTextValue v = (v ≡ null) ⊎ ((raw : String) × (v ≡ text raw))

-- What a payload needs to become a row.
pub record IsStorable (library : Library) (payload : Dict String Value) : Type 0 where
  pub tid : (s : String) × IsTextOf library (get payload "tid") s
  pub epc : IsOptionalTextValue (get payload "epc")
  pub reader_id : (s : String) × IsTextOf library (get payload "reader_id") s
  pub antenna_id : (n : ℤ) × IsWholeOf (get payload "antenna_id") n
  pub rssi : (n : Option ℤ) × IsOptionalWholeOf (get payload "rssi") n
  pub read_at : (at : ℕ) × IsTimeOf library (get payload "read_at") at

module _ (payload : Dict String Value) (field : String) where
  present : (v : Value) → get payload field ≡ v → v ≢ null → is_present payload field ≡ true
  unfolding get
  present v e ne = ground arith

text≢null : (s : String) → text s ≢ null
text≢null s e = cc

whole≢null : (n : ℤ) → whole n ≢ null
whole≢null n e = cc

smallint_passes : (field : String) (v : Value) (n : ℤ) → IsWholeOf v n → smallint field v ≡ ok n
unfolding smallint
smallint_passes field v n (e, (low, high)) = rw e (ground arith)

optional_smallint_passes :
    (field : String) (v : Value) (n : Option ℤ)
    → IsOptionalWholeOf v n
    → optional_smallint field v ≡ ok n
unfolding optional_smallint
optional_smallint_passes field v none e = rw e
optional_smallint_passes field v (some n) h =
    rw h.0 (rw (smallint_passes field (whole n) n (refl, h.1)))

module _ (library : Library) where
  text_of_passes :
      (field : String) (v : Value) (s : String)
      → IsTextOf library v s
      → text_of library field v ≡ ok s
  unfolding text_of
  text_of_passes field v s (raw, e, same, some_left) =
      rw (e, text_of) (ground (arith, eq_iff (library.strip raw) ""))

  optional_text_passes :
      (field : String) (v : Value)
      → IsOptionalTextValue v
      → (s : Option String) × (optional_text library field v ≡ ok s)
  unfolding optional_text
  optional_text_passes field v (inl e) = (none, rw e)
  optional_text_passes field v (inr (raw, e)) = rw e (_, refl)

  timestamp_passes :
      (field : String) (v : Value) (at : ℕ)
      → IsTimeOf library v at
      → (r : ℕ × List Warning) × (timestamp library field v ≡ ok r)
  unfolding timestamp
  timestamp_passes field v at (raw, e, inl f) = ((at, []), rw (e, timestamp, f))
  timestamp_passes field v at (raw, e, inr f) =
      ((at, no_timezone field raw ∷ []), rw (e, timestamp, f))

  -- If a payload has a text that is not blank for the tag and for the reader, an antenna that fits
  -- a SMALLINT, no signal or one that fits, no EPC or a text, and a time that can be read, then it
  -- is accepted, whatever else is in it.
  pub parse_read_total :
      (payload : Dict String Value)
      → IsStorable library payload
      → (r : ReadRow × List Warning) × (parse_read library (object payload) ≡ ok r)
  unfolding parse_read require
  parse_read_total payload h =
      let (tid, a_tid) = h.tid in
      let (reader_id, a_reader) = h.reader_id in
      let (antenna_id, an_antenna) = h.antenna_id in
      let (rssi, a_signal) = h.rssi in
      let (at, a_time) = h.read_at in
      let (epc, an_epc) = optional_text_passes "epc" (get payload "epc") h.epc in
      let (stamped, a_stamp) = timestamp_passes "read_at" (get payload "read_at") at a_time in
      (
        (
          record {
            tid = tid;
            epc = epc;
            reader_id = reader_id;
            antenna_id = antenna_id;
            rssi = rssi;
            read_at = stamped.0;
          },
          stamped.1,
        ),
        rw (
          present payload "tid" _ a_tid.1 (text≢null a_tid.0),
          present payload "reader_id" _ a_reader.1 (text≢null a_reader.0),
          present payload "antenna_id" _ an_antenna.0 (whole≢null antenna_id),
          present payload "read_at" _ a_time.1 (text≢null a_time.0),
          parse_read,
          require,
          a_stamp,
          text_of_passes "tid" (get payload "tid") tid a_tid,
          an_epc,
          text_of_passes "reader_id" (get payload "reader_id") reader_id a_reader,
          smallint_passes "antenna_id" (get payload "antenna_id") antenna_id an_antenna,
          optional_smallint_passes "rssi" (get payload "rssi") rssi a_signal,
        ),
      )
