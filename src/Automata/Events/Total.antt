-- ===== src/Automata/Events/Total.antt =====
-- `derive_session_event` of lltdResponder/lltdAutomata.c and its accesses to the frame.
use lltdresponder.Base.{
  ℕ, zero, suc, ◌+◌, ◌*◌, ◌≤◌, ◌≡◌, refl, ap, ◌∙◌, ◌==◌, Bool, true, false, Option, none, some,
  List, length, arith,
}
use lltdresponder.Base.Returns.{Returns, Returns-bind, Returns-if}
use lltdresponder.Protocol.{opcode_discover, opcode_hello, opcode_reset}
use lltdresponder.Wire.Endian.{lltd_ntohs}
use lltdresponder.Wire.Address.{EthernetAddress, mac_equal}
use lltdresponder.Wire.Header.{read_u16, header_opcode}
use lltdresponder.Wire.Header.Reads.{get_elem?-some, read_u16-some, read_address-some}
use lltdresponder.Automata.Sessions.{SessionEntry, SessionTable}
use lltdresponder.Automata.Sessions.View.{view}
use lltdresponder.Automata.Events.Laws.{existing_session-view}
use lltdresponder.Automata.Events.{
  in_station_list, is_acking, existing_session, classify_discover, derive_reset, derive_discover,
  derive_from_frame, derive_session_event,
}

-- The station list of a Discover frame lies inside the frame.
abbrev pub StationsFit : Bool → List ℕ → Type 0
StationsFit little frame =
    (count : ℕ)
    → header_opcode frame ≡ some opcode_discover
    → read_u16 little frame 34 ≡ some count
    → 36 + 14 * lltd_ntohs little count ≤ length frame

listed :
    (ours : Bool) (rest : Option Bool)
    → Returns rest
    → Returns (elim ours [ true ↦ some true | false ↦ rest ])
listed true rest r = (true, refl)
listed false rest r = r

in_station_list_some :
    (frame : List ℕ) (mac : EthernetAddress) (n i : ℕ)
    → 36 + 14 * (i + n) ≤ length frame
    → Returns (in_station_list frame mac n i)
unfolding in_station_list
in_station_list_some frame mac zero i h = (false, refl)
in_station_list_some frame mac (suc n) i h =
    Returns-bind _ _ (read_address-some frame (36 + 14 * i + 6) (omega (arith, h))) λ station e.
      listed (mac_equal station mac) _ (in_station_list_some frame mac n (suc i) (omega (arith, h)))

module _ (little : Bool) (frame : List ℕ) (big : 36 ≤ length frame) where
  is_acking_some :
      (mac : Option EthernetAddress)
      → ((count : ℕ)
          → read_u16 little frame 34 ≡ some count
          → 36 + 14 * lltd_ntohs little count ≤ length frame)
      → Returns (is_acking little frame mac)
  unfolding is_acking
  is_acking_some none fits = (false, refl)
  is_acking_some (some mac) fits =
      Returns-bind _ _ (read_u16-some little frame 34 (omega (arith, big))) λ count e.
        Returns-if (lltd_ntohs little count == 0) _ _ (λ z. (true, refl))
          (λ z.
            in_station_list_some frame mac (lltd_ntohs little count) 0
              (omega (arith, fits count e)))

  existing_session_some :
      (o : Option SessionTable) (generation : ℕ) → Returns (existing_session frame o generation)
  unfolding existing_session
  existing_session_some none generation = (none, refl)
  existing_session_some (some t) generation =
      let (source, e) = read_address-some frame 24 (omega (arith, big)) in
      (view t source generation, existing_session-view frame t generation source e)

  classify_some :
      (acking : Bool) (xid : ℕ) (x : Option SessionEntry)
      → Returns (classify_discover frame acking xid x)
  unfolding classify_discover
  classify_some acking xid none = (_, refl)
  classify_some acking xid (some x) =
      Returns-bind _ _ (read_address-some frame 24 (omega (arith, big))) λ source e. (_, refl)

  -- A frame with its headers and its station list stands for an event, or for none.
  pub derive_session_event_some :
      (o : Option SessionTable) (mac : Option EthernetAddress)
      → StationsFit little frame
      → Returns (derive_session_event little (some frame) o mac)
  unfolding derive_session_event derive_from_frame derive_reset derive_discover
  derive_session_event_some o mac fits =
      Returns-bind _ _ (get_elem?-some frame 17 (omega (arith, big))) λ opcode op.
        Returns-if (opcode == opcode_reset) _ _
          (λ t. Returns-bind _ _ (read_address-some frame 18 (omega (arith, big))) λ d e. (_, refl))
          (λ t.
            Returns-if (opcode == opcode_hello) _ _ (λ u. (_, refl))
              (λ u.
                Returns-if (opcode == opcode_discover) _ _
                  (λ v.
                    Returns-bind _ _ (read_u16-some little frame 32 (omega (arith, big)))
                      λ generation g.
                        Returns-bind _ _ (read_u16-some little frame 30 (omega (arith, big)))
                          λ xid x.
                            Returns-bind _ _
                              (existing_session_some o (lltd_ntohs little generation))
                              λ session s.
                                Returns-bind _ _
                                  (is_acking_some mac
                                    λ count c. fits count (op ∙ ap some (ground (arith, v))) c)
                                  λ acking a. classify_some acking (lltd_ntohs little xid) session)
                  (λ v. (_, refl))))
