-- ===== src/Automata/Events.antt =====
-- `derive_session_event` of lltdResponder/lltdAutomata.c (the build without LLTD_TESTING): the
-- session event that a received frame stands for. The frame is the memory that the pointer leads
-- to, and `none` is a read past its end.
pub mod Laws
pub mod Total
use lltdresponder.Base.{
  ℕ, zero, suc, ◌+◌, ◌*◌, ◌==◌, if◌then◌else◌, Bool, true, false, not, Option, none, some, List, ℤ,
  pos, negsuc, get_elem?,
}
use lltdresponder.Base.Fault.{◌>>=◌}
use lltdresponder.Protocol.{opcode_discover, opcode_hello, opcode_reset}
use lltdresponder.Wire.Endian.{lltd_ntohs}
use lltdresponder.Wire.Address.{EthernetAddress, ethernet_broadcast, read_address, mac_equal}
use lltdresponder.Wire.Header.{
  read_u16, header_opcode, header_real_destination, header_real_source, header_seq_number,
}
use lltdresponder.Automata.Machine.{
  sess_discover_conflicting, sess_reset, sess_discover_noack, sess_discover_acking,
  sess_discover_noack_chgd_xid, sess_discover_acking_chgd_xid, sess_topo_reset, sess_hello,
}
use lltdresponder.Automata.Sessions.{SessionEntry, SessionTable, session_table_find}

-- The source addresses of the station list, from entry `i` on, `n` entries to go.
unfoldable pub in_station_list : List ℕ → EthernetAddress → ℕ → ℕ → Option Bool
in_station_list frame our_mac zero i = some false
in_station_list frame our_mac (suc n) i = do
  station ← read_address frame (36 + 14 * i + 6)
  elim (mac_equal station our_mac) [
    | true ↦ some true
    | false ↦ in_station_list frame our_mac n (suc i)
  ]

-- `acking`: no station is listed, or ours is.
unfoldable pub is_acking : Bool → List ℕ → Option EthernetAddress → Option Bool
is_acking little frame none = some false
is_acking little frame (some our_mac) = do
  count ← read_u16 little frame 34
  let n = lltd_ntohs little count
  if n == 0 then some true else in_station_list frame our_mac n 0

-- `&table->entries[idx]`, or null for a negative index.
unfoldable pub entry_at : SessionTable → Option ℕ → Option (Option SessionEntry)
entry_at table none = some none
entry_at table (some i) = get_elem? table.entries i >>= λ e. some (some e)

-- The entry that the table has for the mapper and the generation of the frame.
unfoldable pub existing_session : List ℕ → Option SessionTable → ℕ → Option (Option SessionEntry)
unfolding entry_at
existing_session frame none generation = some none
existing_session frame (some table) generation = do
  source ← header_real_source frame
  entry_at table (session_table_find table source generation)

-- The event by the two flags.
unfoldable pub discover_event : Bool → Bool → ℤ
discover_event true changed_xid =
    pos (if changed_xid then sess_discover_acking_chgd_xid else sess_discover_acking)
discover_event false changed_xid =
    pos (if changed_xid then sess_discover_noack_chgd_xid else sess_discover_noack)

unfoldable pub classify_discover : List ℕ → Bool → ℕ → Option SessionEntry → Option ℤ
classify_discover frame acking xid none = some (discover_event acking false)
classify_discover frame acking xid (some existing) = do
  source ← header_real_source frame
  let changed_xid = not (existing.seq_number == xid)
  some (
      if not (mac_equal existing.mapper_mac source)
      then pos sess_discover_conflicting
      else discover_event acking changed_xid)

unfoldable pub derive_reset : List ℕ → Option ℤ
derive_reset frame = do
  destination ← header_real_destination frame
  some (pos (if mac_equal destination ethernet_broadcast then sess_topo_reset else sess_reset))

unfoldable pub derive_discover :
    Bool → List ℕ → Option SessionTable → Option EthernetAddress → Option ℤ
derive_discover little frame table our_mac = do
  generation ← read_u16 little frame 32
  xid ← header_seq_number little frame
  existing ← existing_session frame table (lltd_ntohs little generation)
  acking ← is_acking little frame our_mac
  classify_discover frame acking (lltd_ntohs little xid) existing

unfoldable pub derive_from_frame :
    Bool → List ℕ → Option SessionTable → Option EthernetAddress → Option ℤ
derive_from_frame little frame table our_mac = do
  opcode ← header_opcode frame
  if opcode == opcode_reset
      then derive_reset frame
      else (if opcode == opcode_hello
          then some (pos sess_hello)
          else (if opcode == opcode_discover
              then derive_discover little frame table our_mac
              else some (negsuc 0)))

-- Of a null frame the answer is -1.
unfoldable pub derive_session_event :
    Bool → Option (List ℕ) → Option SessionTable → Option EthernetAddress → Option ℤ
unfolding derive_from_frame
derive_session_event little none table our_mac = some (negsuc 0)
derive_session_event little (some frame) table our_mac =
    derive_from_frame little frame table our_mac
