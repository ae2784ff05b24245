-- ===== src/Api/Health/Readers.antt =====
-- When the health report says that all is well.
use tasker_rfid.Prelude.{
  ℕ, ◌+◌, ◌*◌, ◌≤◌, ◌≡◌, ◌≢◌, ◌↔◌, refl, sym, ap, ◌∙◌, String, Bool, true, false, not, ◌&&◌, Option,
  none, some, List, [], ◌∷◌, ◌++◌, map, arith, any, elem, length, length-append, length-map, All,
  string_eq, nat_eq, ◌==◌, ltb, leb, if◌then◌else◌, eq_iff,
}
use tasker_rfid.Prelude.Int.{pos, ltb_ℤ}
use tasker_rfid.Prelude.Sums.{total, total-map, sort_by, sort_by-total, only_if}
use tasker_rfid.Schema.{ObservationRow}
use tasker_rfid.StateEngine.Store.{distinct}
use tasker_rfid.Api.Health.{
  minute, HealthSection, load_health, Texts, within_working_hours, minus, reader_has_gone_quiet,
  RawRead, max_of, reads_of, ReaderRow, reader_row, reader_rows, Warning, since_last, is_quiet,
  reader_warnings, missing_reader, status_of, health,
}

-- More than `limit` ago.
late-ltb : (limit now at : ℕ) → ltb_ℤ (pos limit) (minus now at) ≡ ltb (at + limit) now
unfolding minus
late-ltb limit now at = ground arith

none_recent : (limit now : ℕ) → Option ℕ → Bool
none_recent limit now none = true
none_recent limit now (some at) = ltb (at + limit) now

none_recent-max :
    (limit now n : ℕ) (o : Option ℕ)
    → none_recent limit now (elim o [ none ↦ some n | some m ↦ some (if ltb m n then n else m) ])
      ≡ (ltb (n + limit) now && none_recent limit now o)
unfolding none_recent
none_recent-max limit now n none = ground arith
none_recent-max limit now n (some m) = ground arith

-- The last of some times is late exactly if none of them is recent.
none_recent-max_of :
    (limit now : ℕ) (ns : List ℕ)
    → none_recent limit now (max_of ns) ≡ not (any (λ m. leb now (m + limit)) ns)
unfolding max_of none_recent
none_recent-max_of limit now [] = refl
none_recent-max_of limit now (n ∷ ns) =
    none_recent-max limit now n (max_of ns)
    ∙ ap (λ b. ltb (n + limit) now && b) (none_recent-max_of limit now ns)
    ∙ ground arith

any-map_select :
    (limit now : ℕ) (reader_id : String) (reads : List RawRead)
    → any (λ m. leb now (m + limit)) (map (λ r. r.read_at) (reads_of reader_id reads))
      ≡ any (λ r. r.reader_id == reader_id && leb now (r.read_at + limit)) reads
any-map_select limit now reader_id [] = refl
any-map_select limit now reader_id (r ∷ reads) =
    ground (arith, any-map_select limit now reader_id reads)

elem-total : (f : String → ℕ) (x : String) (xs : List String) → elem x xs ≡ true → f x ≤ total f xs
elem-total f x [] e = ground arith
elem-total f x (y ∷ ys) e = ground (arith, eq_iff y x, elem-total f x ys)

-- What adds up to nothing over the distinct elements is nothing at each.
distinct-zero :
    (f : String → ℕ) (xs : List String) → total f (distinct xs) ≡ 0 → All (λ x. f x ≡ 0) xs
unfolding distinct
distinct-zero f [] e = tt
distinct-zero f (x ∷ xs) e =
    (ground (arith, elem-total f x (distinct xs)), distinct-zero f xs (ground arith))

zero-distinct :
    (f : String → ℕ) (xs : List String) → All (λ x. f x ≡ 0) xs → total f (distinct xs) ≡ 0
unfolding distinct
zero-distinct f [] h = refl
zero-distinct f (x ∷ xs) h = ground (arith, h.0, zero-distinct f xs h.1)

is_some : Option ℕ → Bool
is_some none = false
is_some (some _) = true

is_some-max_of :
    (reader_id : String) (reads : List RawRead)
    → is_some (max_of (map (λ r. r.read_at) (reads_of reader_id reads)))
      ≡ elem reader_id (map (λ r. r.reader_id) reads)
unfolding is_some max_of
is_some-max_of reader_id [] = refl
is_some-max_of reader_id (r ∷ reads) = ground (arith, is_some-max_of reader_id reads)

quiet_cases :
    (now alert_hours : ℕ) (within_hours : Bool) (o : Option ℕ)
    → reader_has_gone_quiet
        (elim o [ none ↦ none | some last ↦ some (minus now last) ])
        within_hours
        alert_hours
      ≡ (within_hours && (is_some o && none_recent (alert_hours * (60 * minute)) now o))
unfolding reader_has_gone_quiet is_some none_recent
quiet_cases now alert_hours within_hours none = ground arith
quiet_cases now alert_hours within_hours (some last) =
    ground (arith, late-ltb (alert_hours * (60 * minute)) now last)

-- The reader has a read that is not older than the limit.
abbrev pub heard : (now alert_hours : ℕ) → List RawRead → String → Bool
heard now alert_hours reads reader_id =
    any (λ r. r.reader_id == reader_id && leb now (r.read_at + alert_hours * (60 * minute))) reads

is_quiet-heard :
    (now : ℕ) (within_hours : Bool) (alert_hours : ℕ) (reads : List RawRead) (reader_id : String)
    → is_quiet now within_hours alert_hours (reader_row now reads reader_id) ≡ (
        within_hours
        && (elem reader_id (map (λ r. r.reader_id) reads)
            && not (heard now alert_hours reads reader_id)))
unfolding is_quiet since_last reader_row
is_quiet-heard now within_hours alert_hours reads reader_id =
    let times = map (λ r. r.read_at) (reads_of reader_id reads) in
    let limit = alert_hours * (60 * minute) in
    quiet_cases now alert_hours within_hours (max_of times)
    ∙ ap (λ b. within_hours && (b && none_recent limit now (max_of times)))
        (is_some-max_of reader_id reads)
    ∙ ap (λ b. within_hours && (elem reader_id (map (λ r. r.reader_id) reads) && b))
        (none_recent-max_of limit now times ∙ ap not (any-map_select limit now reader_id reads))

length-reader_warnings :
    (now : ℕ) (within_hours : Bool) (alert_hours : ℕ) (rows : List ReaderRow)
    → length (reader_warnings now within_hours alert_hours rows)
      ≡ total (λ row. only_if (is_quiet now within_hours alert_hours row) 1) rows
unfolding reader_warnings
length-reader_warnings now within_hours alert_hours [] = refl
length-reader_warnings now within_hours alert_hours (row ∷ rows) =
    ground (arith, length-reader_warnings now within_hours alert_hours rows)

length-missing_reader :
    (rows : List ReaderRow) → (length (missing_reader rows) ≡ 0) ↔ (length rows ≢ 0)
length-missing_reader [] = ground arith
length-missing_reader (row ∷ rows) = ground arith

status_of_lem : (ws : List Warning) → (status_of ws ≡ "ok") ↔ (length ws ≡ 0)
status_of_lem [] = ground arith
status_of_lem (w ∷ ws) = ground (arith, eq_iff "degraded" "ok")

length-total : {A : Type 0} (xs : List A) → length xs ≡ total (λ _. 1) xs
length-total [] = refl
length-total (x ∷ xs) = omega (arith, length-total xs)

length-distinct : (xs : List String) → (length (distinct xs) ≢ 0) ↔ (length xs ≢ 0)
length-distinct [] = unfold distinct in (λ h. h, λ h. h)
length-distinct (x ∷ xs) = (
  λ h. ground arith,
  λ h e. absurd (
      ground
        (arith, (distinct-zero (λ _. 1) (x ∷ xs) (sym (length-total (distinct (x ∷ xs))) ∙ e)).0)),
)

elem_there :
    (reads rs : List RawRead) (r : RawRead)
    → All (λ x. elem x.reader_id (map (λ y. y.reader_id) reads) ≡ true) rs
    → All (λ x. elem x.reader_id (map (λ y. y.reader_id) (r ∷ reads)) ≡ true) rs
elem_there reads [] r h = tt
elem_there reads (x ∷ rs) r h = (ground (arith, h.0), elem_there reads rs r h.1)

elem_all :
    (reads : List RawRead) → All (λ x. elem x.reader_id (map (λ y. y.reader_id) reads) ≡ true) reads
elem_all [] = tt
elem_all (r ∷ reads) =
    (ground (arith, eq_iff r.reader_id r.reader_id), elem_there reads reads r (elem_all reads))

module _ (now : ℕ) (within_hours : Bool) (alert_hours : ℕ) (reads : List RawRead) where
  -- 1 if the reader raises a warning.
  raised : String → ℕ
  raised reader_id =
      only_if (is_quiet now within_hours alert_hours (reader_row now reads reader_id)) 1

  -- During working hours the reader has been heard of.
  abbrev pub IsHeard : RawRead → Type 0
  IsHeard r = within_hours ≡ true → heard now alert_hours reads r.reader_id ≡ true

  abbrev IsThere : RawRead → Type 0
  IsThere r = elem r.reader_id (map (λ y. y.reader_id) reads) ≡ true

  raised-IsHeard :
      (rs : List RawRead)
      → All IsThere rs
      → All (λ id. raised id ≡ 0) (map (λ r. r.reader_id) rs)
      → All IsHeard rs
  unfolding raised
  raised-IsHeard [] there h = tt
  raised-IsHeard (r ∷ rs) there h = (
    λ e.
        ground (arith, h.0, there.0, is_quiet-heard now within_hours alert_hours reads r.reader_id),
    raised-IsHeard rs there.1 h.1,
  )

  IsHeard-raised :
      (rs : List RawRead)
      → All IsThere rs
      → All IsHeard rs
      → All (λ id. raised id ≡ 0) (map (λ r. r.reader_id) rs)
  unfolding raised
  IsHeard-raised [] there h = tt
  IsHeard-raised (r ∷ rs) there h = (
    ground (arith, h.0, there.0, is_quiet-heard now within_hours alert_hours reads r.reader_id),
    IsHeard-raised rs there.1 h.1,
  )

  module _ (collates : String → String → Bool) where
    abbrev rows : List ReaderRow
    rows = reader_rows collates now reads

    abbrev ids : List String
    ids = map (λ r. r.reader_id) reads

    length-warnings :
        length (reader_warnings now within_hours alert_hours rows) ≡ total raised (distinct ids)
    unfolding reader_rows raised
    length-warnings =
        length-reader_warnings now within_hours alert_hours rows
        ∙ total-map _ (reader_row now reads) (sort_by collates (distinct ids))
        ∙ sort_by-total collates raised (distinct ids)

    length-rows : length rows ≡ length (distinct ids)
    unfolding reader_rows
    length-rows =
        length-map (reader_row now reads) (sort_by collates (distinct ids))
        ∙ length-total (sort_by collates (distinct ids))
        ∙ sort_by-total collates (λ _. 1) (distinct ids)
        ∙ sym (length-total (distinct ids))

    no_warnings :
        (length (reader_warnings now within_hours alert_hours rows ++ missing_reader rows) ≡ 0)
        ↔ ((length reads ≢ 0) × All IsHeard reads)
    no_warnings =
        let sum =
          length-append (reader_warnings now within_hours alert_hours rows) (missing_reader rows) in
        let some_rows = length-missing_reader rows in
        let some_ids = length-distinct ids in
        let same = length-map (λ (r : RawRead). r.reader_id) reads in
        (
          λ e. (
            λ z. some_ids.0 (λ y. some_rows.0 (omega (arith, sum, e)) (length-rows ∙ y)) (same ∙ z),
            raised-IsHeard reads (elem_all reads)
                (distinct-zero raised ids (sym length-warnings ∙ omega (arith, sum, e))),
          ),
          λ h. omega (
            arith,
            sum,
            length-warnings ∙ zero-distinct raised ids (IsHeard-raised reads (elem_all reads) h.1),
            some_rows.1 (λ y. some_ids.1 (λ z. h.0 (sym same ∙ z)) (sym length-rows ∙ y)),
          ),
        )

-- The health report says `ok` exactly if some reader has ever reported, and, during working hours,
-- each reader that has ever reported has a read that is no older than the alert hours of the
-- settings.
pub health-IsHeard :
    (collates : String → String → Bool) (texts : Texts) (section : HealthSection) (now : ℕ)
    (reads : List RawRead) (cursors : List ℕ) (observations : List ObservationRow)
    (resolved : List Bool)
    → ((health collates texts section now reads cursors observations resolved).status ≡ "ok") ↔ (
        (length reads ≢ 0)
        × All
            (IsHeard now
              (within_working_hours texts (load_health section) now)
              (load_health section).no_read_alert_hours
              reads)
            reads)
unfolding health
health-IsHeard collates texts section now reads cursors observations resolved =
    let settings = load_health section in
    let within_hours = within_working_hours texts settings now in
    let says =
      status_of_lem
        (health collates texts section now reads cursors observations resolved).warnings in
    let none_said = no_warnings now within_hours settings.no_read_alert_hours reads collates in
    (λ e. none_said.0 (says.0 e), λ h. says.1 (none_said.1 h))
