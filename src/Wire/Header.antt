-- ===== src/Wire/Header.antt =====
-- The frame headers: `setLltdHeader`, `setLltdHeaderEx` and `setHelloHeader` of
-- lltdResponder/lltdWire.c, and the fields that the handlers read. The structures are packed, so a
-- field is an offset: `lltd_demultiplex_header_t` has 32 bytes and `lltd_hello_upper_header_t` 14.
pub mod Layout
pub mod Reads
pub mod Writes
use lltdresponder.Base.{ℕ, ◌+◌, Bool, Option, none, some, List, [], ◌∷◌, get_elem?}
use lltdresponder.Base.Fault.{◌>>=◌, write, read}
use lltdresponder.Protocol.{lltd_ether_type}
use lltdresponder.Wire.Endian.{lltd_htons, store16, load16}
use lltdresponder.Wire.Address.{EthernetAddress, address_bytes, read_address}

abbrev pub demultiplex_header_size : ℕ
demultiplex_header_size = 32

abbrev pub hello_upper_header_size : ℕ
hello_upper_header_size = 14

abbrev pub read_u16 : Bool → List ℕ → ℕ → Option ℕ
read_u16 little frame offset = elim (read frame offset 2) [
  | some (a ∷ b ∷ []) ↦ some (load16 little a b)
  | _ ↦ none
]

-- The fields of `lltd_demultiplex_header_t`.
abbrev pub header_destination : List ℕ → Option EthernetAddress
header_destination frame = read_address frame 0

abbrev pub header_source : List ℕ → Option EthernetAddress
header_source frame = read_address frame 6

abbrev pub header_tos : List ℕ → Option ℕ
header_tos frame = get_elem? frame 15

abbrev pub header_opcode : List ℕ → Option ℕ
header_opcode frame = get_elem? frame 17

abbrev pub header_real_destination : List ℕ → Option EthernetAddress
header_real_destination frame = read_address frame 18

abbrev pub header_real_source : List ℕ → Option EthernetAddress
header_real_source frame = read_address frame 24

module _ (little : Bool) where
  abbrev pub header_seq_number : List ℕ → Option ℕ
  header_seq_number frame = read_u16 little frame 30

  unfoldable pub set_lltd_header_ex :
      List ℕ
      → (eth_source eth_dest real_source real_dest : EthernetAddress) (seq_number opcode tos : ℕ)
      → Option (List ℕ × ℕ)
  set_lltd_header_ex buffer eth_source eth_dest real_source real_dest seq_number opcode tos = do
    b ← write buffer 12 (store16 little (lltd_htons little lltd_ether_type))
    b ← write b 6 (address_bytes eth_source)
    b ← write b 0 (address_bytes eth_dest)
    b ← write b 24 (address_bytes real_source)
    b ← write b 18 (address_bytes real_dest)
    b ← write b 30 (store16 little (lltd_htons little seq_number))
    b ← write b 17 (opcode ∷ [])
    b ← write b 15 (tos ∷ [])
    b ← write b 14 (1 ∷ [])
    some (b, demultiplex_header_size)

  unfoldable pub set_lltd_header :
      List ℕ
      → (source destination : EthernetAddress) (seq_number opcode tos : ℕ) → Option (List ℕ × ℕ)
  set_lltd_header buffer source destination seq_number opcode tos = do
    b ← write buffer 12 (store16 little (lltd_htons little lltd_ether_type))
    b ← write b 6 (address_bytes source)
    b ← write b 0 (address_bytes destination)
    b ← write b 24 (address_bytes source)
    b ← write b 18 (address_bytes destination)
    b ← write b 30 (store16 little (lltd_htons little seq_number))
    b ← write b 17 (opcode ∷ [])
    b ← write b 15 (tos ∷ [])
    b ← write b 14 (1 ∷ [])
    some (b, demultiplex_header_size)

  unfoldable pub set_hello_header :
      List ℕ
      → ℕ
      → (apparent_mapper current_mapper : EthernetAddress) (generation : ℕ) → Option (List ℕ × ℕ)
  set_hello_header buffer offset apparent_mapper current_mapper generation = do
    b ← write buffer (offset + 8) (address_bytes apparent_mapper)
    b ← write b (offset + 2) (address_bytes current_mapper)
    b ← write b offset (store16 little (lltd_htons little generation))
    some (b, hello_upper_header_size)
