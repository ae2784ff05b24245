-- ===== src/Sync/Copies.antt =====
-- Tables read by id: the replica holds exactly the rows that the cursor has passed.
use tasker_rfid.Prelude.{
  take-All, String, ℕ, ◌-◌, ◌≤◌, ◌≡◌, refl, sym, ap, ◌∙◌, subst, Bool, true, false, List, [], ◌∷◌,
  ◌++◌, arith, nat_eq, take, length, length-append, length-take, last_at, All, Bool-cases, inl, inr,
  ltb, ◌&&◌,
}
use mathlib.Core.List.{append-nil}
use tasker_rfid.Prelude.Pages
use tasker_rfid.Sync.Tables.{by_serial, Row, Replica}
use tasker_rfid.Sync.Read.{next_page, read_batch}
use tasker_rfid.Sync.Write.{write_rows, cursor_row, send_batch}
use tasker_rfid.Sync.Cycle.{
  Weather, Delivery, committed, foreign_key_violation, rolled_back, unacknowledged, cursor_value_of,
  deliver, send, sync_table,
}
use tasker_rfid.Sync.Serial.{
  position, IsOwnKey, IsSerial, order_of_Rising, upsert_all_new, passed-le, select-own,
}

abbrev is_written : Delivery → Bool
is_written committed = true
is_written unacknowledged = true
is_written foreign_key_violation = false
is_written rolled_back = false

-- The transaction of send_batch commits, whether or not the answer comes back.
abbrev pub delivers : Weather → Bool
delivers w = w.position_readable && w.local_readable && is_written w.delivery

module _ {A : Type 0} where
  -- The cursor of a table that is read by id.
  abbrev pub last_id_of : Replica ℕ A → ℕ
  unfolding cursor_value_of
  last_id_of cloud = cursor_value_of (by_serial "") cloud.cursor

  -- The replica holds the rows that its cursor has passed, and no others.
  abbrev pub IsCopied : List (Row ℕ A) → Replica ℕ A → Type 0
  IsCopied local cloud = cloud.rows ≡ Pages.passed position (last_id_of cloud) local

  module _ (batch : ℕ) (name : String) (local : List (Row ℕ A)) (h : IsSerial local) where
    -- The page that comes next.
    abbrev pub page : Replica ℕ A → List (Row ℕ A)
    page cloud = take batch (Pages.ahead position (last_id_of cloud) local)

    read_batch-page :
        (cloud : Replica ℕ A)
        → read_batch batch (by_serial name) (last_id_of cloud) local ≡ page cloud
    unfolding read_batch next_page
    read_batch-page cloud = ap (take batch) (
        order_of_Rising (last_id_of cloud) _
          (Pages.ahead-Rising position 0 (last_id_of cloud) local h.rising))

    -- What is sent moves the replica to the end of the page.
    pub record Moved (cloud cloud' : Replica ℕ A) : Type 0 where
      pub cursor : last_id_of cloud' ≡ last_at position (last_id_of cloud) (page cloud)
      pub rows : cloud'.rows ≡ cloud.rows ++ page cloud

    write_rows-page :
        (cloud : Replica ℕ A)
        → IsCopied local cloud
        → write_rows (by_serial name) (page cloud) cloud.rows ≡ cloud.rows ++ page cloud
    unfolding write_rows
    write_rows-page cloud copied =
        let c = last_id_of cloud in
        upsert_all_new true c (page cloud) cloud.rows
          (subst (All (λ x. x.key ≤ c)) (sym copied) (passed-le c local h.own))
          (Pages.take-Rising position c batch _ (Pages.ahead-Rising position 0 c local h.rising))
          (take-All IsOwnKey batch _ (select-own (λ r. ltb c r.position) local h.own))

    send_batch-Moved :
        (cloud : Replica ℕ A) (r : Row ℕ A) (rs : List (Row ℕ A))
        → IsCopied local cloud
        → page cloud ≡ r ∷ rs
        → Moved cloud (send_batch (by_serial name) (page cloud) cloud)
    unfolding send_batch cursor_row cursor_value_of
    send_batch-Moved cloud r rs copied e = record {
      cursor = ap (last_at position 0) e ∙ sym (ap (last_at position (last_id_of cloud)) e);
      rows = write_rows-page cloud copied;
    }

    Moved-IsCopied :
        (cloud cloud' : Replica ℕ A)
        → IsCopied local cloud
        → Moved cloud cloud'
        → IsCopied local cloud'
    Moved-IsCopied cloud cloud' copied m =
        m.rows
        ∙ ap (λ (l : List (Row ℕ A)). l ++ page cloud) copied
        ∙ sym (Pages.passed-page position 0 (last_id_of cloud) batch local h.rising)
        ∙ ap (λ c. Pages.passed position c local) (sym m.cursor)

    pub sync_table_idle :
        (w : Weather) (cloud : Replica ℕ A)
        → delivers w ≡ false
        → (sync_table batch w (by_serial name) local cloud).0 ≡ cloud
    unfolding sync_table send deliver
    sync_table_idle w cloud e = idle w.position_readable w.local_readable w.delivery e
      where
        send_idle :
            (d : Delivery) (rows : List (Row ℕ A))
            → is_written d ≡ false
            → (send batch d (by_serial name) rows cloud).0 ≡ cloud
        send_idle d [] e = refl
        send_idle committed (r ∷ rs) e = ground arith
        send_idle foreign_key_violation (r ∷ rs) e = refl
        send_idle rolled_back (r ∷ rs) e = refl
        send_idle unacknowledged (r ∷ rs) e = ground arith

        idle :
            (p l : Bool) (d : Delivery)
            → p && l && is_written d ≡ false
            → (sync_table batch
                (record { position_readable = p; local_readable = l; delivery = d })
                (by_serial name)
                local
                cloud).0
              ≡ cloud
        idle false l d e = refl
        idle true false d e = refl
        idle true true d e = send_idle d _ e

    pub sync_table-Moved :
        (w : Weather) (cloud : Replica ℕ A)
        → IsCopied local cloud
        → delivers w ≡ true
        → Moved cloud (sync_table batch w (by_serial name) local cloud).0
    unfolding sync_table send deliver
    sync_table-Moved w cloud copied e = moved w.position_readable w.local_readable w.delivery e
      where
        send-Moved :
            (d : Delivery) (rows : List (Row ℕ A))
            → page cloud ≡ rows
            → is_written d ≡ true
            → Moved cloud (send batch d (by_serial name) rows cloud).0
        send-Moved d [] k e = record {
          cursor = sym (ap (last_at position (last_id_of cloud)) k);
          rows = sym (ap (λ (l : List (Row ℕ A)). cloud.rows ++ l) k ∙ append-nil cloud.rows);
        }
        send-Moved committed (r ∷ rs) k e =
            subst (λ l. Moved cloud (send_batch (by_serial name) l cloud)) k
              (send_batch-Moved cloud r rs copied k)
        send-Moved unacknowledged (r ∷ rs) k e =
            subst (λ l. Moved cloud (send_batch (by_serial name) l cloud)) k
              (send_batch-Moved cloud r rs copied k)
        send-Moved foreign_key_violation (r ∷ rs) k e = ground arith
        send-Moved rolled_back (r ∷ rs) k e = ground arith

        moved :
            (p l : Bool) (d : Delivery)
            → p && l && is_written d ≡ true
            → Moved cloud
                (sync_table batch
                  (record { position_readable = p; local_readable = l; delivery = d })
                  (by_serial name)
                  local
                  cloud).0
        moved true true d e = send-Moved d _ (sym (read_batch-page cloud)) e
        moved true false d e = ground arith
        moved false l d e = ground arith

    -- Whatever happens in a cycle, the replica of a table that is read by id holds, after it as
    -- before it, the rows up to its cursor, each once and unchanged, and no others.
    pub sync_table-IsCopied :
        (w : Weather) (cloud : Replica ℕ A)
        → IsCopied local cloud
        → IsCopied local (sync_table batch w (by_serial name) local cloud).0
    unfolding sync_table
    sync_table-IsCopied w cloud copied = elim (Bool-cases (delivers w)) [
      | inl e ↦ Moved-IsCopied cloud _ copied (sync_table-Moved w cloud copied e)
      | inr e ↦ subst (IsCopied local) (sym (sync_table_idle w cloud e)) copied
    ]

    -- What is ahead of the cursor after a cycle.
    pub ahead_after :
        (w : Weather) (cloud : Replica ℕ A)
        → IsCopied local cloud
        → delivers w ≡ true
        → length (
            Pages.ahead position
              (last_id_of (sync_table batch w (by_serial name) local cloud).0)
              local)
          ≡ length (Pages.ahead position (last_id_of cloud) local) - batch
    unfolding sync_table
    ahead_after w cloud copied e =
        let c = last_id_of cloud in
        let m = sync_table-Moved w cloud copied e in
        omega (
          arith,
          ap (λ c'. length (Pages.ahead position c' local)) m.cursor,
          ap length (Pages.passed-page position 0 c batch local h.rising),
          length-append (Pages.passed position c local) (page cloud),
          Pages.length-passed position c local,
          Pages.length-passed position (last_at position c (page cloud)) local,
          length-take batch (Pages.ahead position c local),
        )
