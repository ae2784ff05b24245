-- ===== src/Simulator/Commands/Sound.antt =====
-- A simulated pallet: whose reads there are, and where the debouncer places them.
use tasker_rfid.Prelude.{
  ℕ, ◌≡◌, ◌≢◌, ◌⊎◌, inl, inr, refl, sym, subst, flat_map, true≢false, ◌∙◌, String, Bool, true,
  false, some, List, [], ◌∷◌, map, arith, All, All-imp, All-append, elem, string_eq, eq_iff,
  Bool-cases,
}
use tasker_rfid.Prelude.Int.{ℤ, int_eq, int_beq, int_beq_iff}
use tasker_rfid.Prelude.Dict.{Dict, lookup, insert, lookup-insert_self}
use tasker_rfid.Debouncer.Config.{Config, antennas_for_portal, assign, portal_by_antenna}
use tasker_rfid.Simulator.{merge}
use tasker_rfid.Simulator.Sorting.{sort_at-All}
use tasker_rfid.Simulator.Reads.{pass_duration, Read}
use tasker_rfid.Simulator.Reads.Passing.{pass_reads-IsPass}
use tasker_rfid.Simulator.Commands.{
  or_fresh, make_tag, Args, Passage, setup_of, stream, Box, present, cmd_pallet,
}

lookup-insert_other :
    (a b : ℤ) (p : String) (m : Dict ℤ String) → a ≢ b → lookup a (insert b p m) ≡ lookup a m
unfolding lookup insert
lookup-insert_other a b p [] ne = ground (arith, int_beq_iff b a)
lookup-insert_other a b p ((c, q) ∷ m) ne =
    ground
      (arith, int_beq_iff b a, int_beq_iff c a, int_beq_iff c b, lookup-insert_other a b p m ne)

-- An antenna that is not assigned keeps its portal.
assign-other :
    (p : String) (antennas : List ℤ) (m : Dict ℤ String) (a : ℤ)
    → elem a antennas ≡ false
    → lookup a (assign p antennas m) ≡ lookup a m
assign-other p [] m a e = refl
assign-other p (b ∷ antennas) m a e =
    assign-other p antennas (insert b p m) a (ground arith)
    ∙ lookup-insert_other a b p m (ground (arith, int_beq_iff b a))

insert-keeps :
    (p : String) (m : Dict ℤ String) (a b : ℤ)
    → lookup a m ≡ some p
    → lookup a (insert b p m) ≡ some p
insert-keeps p m a b e = elim (Bool-cases (int_beq b a)) [
  | inl f ↦
      subst (λ c. lookup a (insert c p m) ≡ some p) (sym ((int_beq_iff b a).0 f))
        (lookup-insert_self a p m)
  | inr f ↦ lookup-insert_other a b p m (ground (arith, int_beq_iff b a)) ∙ e
]

assign-same :
    (p : String) (antennas : List ℤ) (m : Dict ℤ String) (a : ℤ)
    → lookup a m ≡ some p
    → lookup a (assign p antennas m) ≡ some p
assign-same p [] m a e = e
assign-same p (b ∷ antennas) m a e =
    assign-same p antennas (insert b p m) a (insert-keeps p m a b e)

assign-lookup :
    (p : String) (antennas : List ℤ) (m : Dict ℤ String) (a : ℤ)
    → elem a antennas ≡ true
    → lookup a (assign p antennas m) ≡ some p
assign-lookup p [] m a e = ground arith
assign-lookup p (b ∷ antennas) m a e = elim (Bool-cases (int_beq b a)) [
  | inl f ↦ assign-same p antennas (insert b p m) a (
      subst (λ c. lookup a (insert c p m) ≡ some p) (sym ((int_beq_iff b a).0 f))
        (lookup-insert_self a p m))
  | inr f ↦ assign-lookup p antennas (insert b p m) a (ground arith)
]

all_of_elem : (P : ℤ → Type 0) (a : ℤ) (xs : List ℤ) → All P xs → elem a xs ≡ true → P a
all_of_elem P a [] h e = absurd (true≢false (sym e))
all_of_elem P a (x ∷ xs) h e = elim (Bool-cases (int_beq x a)) [
  | inl f ↦ subst P ((int_beq_iff x a).0 f) h.0
  | inr f ↦ all_of_elem P a xs h.1 (ground arith)
]

-- The portal's antennas are the portal's alone: those of the exit are assigned last.
abbrev pub IsOwn : Config → String → Type 0
IsOwn config portal =
    (portal ≡ "EXIT")
    ⊎ ((portal ≡ "ENTRANCE")
        × All (λ a. elem a (antennas_for_portal "EXIT" config) ≡ false)
            (antennas_for_portal "ENTRANCE" config))

placed :
    (config : Config) (portal : String) (a : ℤ)
    → IsOwn config portal
    → elem a (antennas_for_portal portal config) ≡ true
    → lookup a (portal_by_antenna config) ≡ some portal
unfolding portal_by_antenna
placed config portal a (inl e) there =
    rw e (assign-lookup "EXIT" (antennas_for_portal "EXIT" config) _ a (rw e at there))
placed config portal a (inr (e, apart)) there = rw e (
    assign-other "EXIT" (antennas_for_portal "EXIT" config) _ a (
      all_of_elem (λ b. elem b (antennas_for_portal "EXIT" config) ≡ false) a _ apart
        (rw e at there))
    ∙ assign-lookup "ENTRANCE" (antennas_for_portal "ENTRANCE" config) [] a (rw e at there))

-- The TIDs that a pallet's command reads: the pallet's, and those of the boxes that are present.
abbrev pub tids_of : List Passage → List String
tids_of = map (λ p. or_fresh p.tid p.fresh)

-- A read of one of the tags, by this reader, that the debouncer places at this portal.
pub record IsPlaced (config : Config) (args : Args) (tids : List String) (r : Read) : Type 0 where
  pub tid : elem r.tid tids ≡ true
  pub reader_id : r.reader_id ≡ args.reader_id
  pub portal : lookup r.antenna_id (portal_by_antenna config) ≡ some args.portal

IsPlaced-more :
    (config : Config) (args : Args) (tid : String) (tids : List String) (r : Read)
    → IsPlaced config args tids r
    → IsPlaced config args (tid ∷ tids) r
IsPlaced-more config args tid tids r h = record {
  tid = ground (arith, h.tid);
  reader_id = h.reader_id;
  portal = h.portal;
}

module _ (config : Config) (args : Args) (own : IsOwn config args.portal) where
  stream-IsPlaced :
      (p : Passage) (tids : List String)
      → All (IsPlaced config args (or_fresh p.tid p.fresh ∷ tids)) (stream config args p)
  unfolding make_tag
  stream-IsPlaced p tids =
      All-imp _ _ (stream config args p)
        (λ r h. record {
          tid = ground (arith, h.tid, eq_iff (or_fresh p.tid p.fresh) r.tid);
          reader_id = h.reader_id;
          portal = placed config args.portal r.antenna_id own h.antenna_id;
        })
        (pass_reads-IsPass (setup_of args p) p.step pass_duration p.heard
          (antennas_for_portal args.portal config)).0

  streams-IsPlaced :
      (ps : List Passage)
      → All (IsPlaced config args (tids_of ps)) (flat_map (λ xs. xs) (map (stream config args) ps))
  streams-IsPlaced [] = tt
  streams-IsPlaced (p ∷ ps) =
      All-append _ (stream config args p) _ (stream-IsPlaced p (tids_of ps)) (
        All-imp _ _ (flat_map (λ xs. xs) (map (stream config args) ps))
          (IsPlaced-more config args (or_fresh p.tid p.fresh) (tids_of ps)) (streams-IsPlaced ps))

  -- If the portal is the exit, or the entrance and none of its antennas is the exit's, then every read of a simulated
  -- pallet carries the TID of the pallet or of a box that is present, and the reader of the command,
  -- and the debouncer places its antenna at the portal of the command.
  pub cmd_pallet-IsPlaced :
      (pallet : Passage) (named : Bool) (boxes : List Box) (drawn : ℕ)
      → All
          (IsPlaced config args (tids_of (pallet ∷ present named boxes)))
          (cmd_pallet config args pallet named boxes drawn).0
  unfolding cmd_pallet merge
  cmd_pallet-IsPlaced pallet named boxes drawn =
      sort_at-All (λ r. r.read_at) _ _ (streams-IsPlaced (pallet ∷ present named boxes))
