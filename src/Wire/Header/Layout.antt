-- ===== src/Wire/Header/Layout.antt =====
-- `lltd_demultiplex_header_t` of lltdResponder/lltdProtocol.h as 32 bytes in network order: what the
-- builders of lltdWire.c write, and what the readers of the fields find.
use lltdresponder.Base.{
  ℕ, ◌/◌, ◌^◌, ◌<◌, ◌≡◌, refl, Bool, some, List, [], ◌∷◌, ◌++◌, arith, ap, ◌%◌,
}
use lltdresponder.Base.Fault.{◌>>=◌}
use lltdresponder.Protocol.{lltd_ether_type}
use lltdresponder.Wire.Endian.{lltd_ntohs, be16, store16-htons, ntohs-load16}
use lltdresponder.Wire.Address.{EthernetAddress, address_bytes, zero_address}
use lltdresponder.Wire.Header.{
  demultiplex_header_size, header_destination, header_source, header_tos, header_opcode,
  header_real_destination, header_real_source, header_seq_number, set_lltd_header_ex,
  set_lltd_header,
}

-- The fields; a number is the value that the network order stands for.
pub record DemultiplexHeader : Type 0 where
  pub destination : EthernetAddress
  pub source : EthernetAddress
  pub frame_type : ℕ
  pub version : ℕ
  pub tos : ℕ
  pub reserved : ℕ
  pub opcode : ℕ
  pub real_destination : EthernetAddress
  pub real_source : EthernetAddress
  pub seq_number : ℕ

abbrev pub header_bytes : DemultiplexHeader → List ℕ
header_bytes h =
    address_bytes h.destination
    ++ (address_bytes h.source
        ++ (be16 h.frame_type
            ++ ((h.version ∷ h.tos ∷ h.reserved ∷ h.opcode ∷ [])
                ++ (address_bytes h.real_destination
                    ++ (address_bytes h.real_source ++ be16 h.seq_number)))))

-- The header of a zeroed buffer.
abbrev pub zero_header : DemultiplexHeader
zero_header = record {
  destination = zero_address;
  source = zero_address;
  frame_type = 0;
  version = 0;
  tos = 0;
  reserved = 0;
  opcode = 0;
  real_destination = zero_address;
  real_source = zero_address;
  seq_number = 0;
}

-- The header of a frame of this responder.
abbrev pub lltd_header :
    (eth_source eth_dest real_source real_dest : EthernetAddress) (seq_number opcode tos : ℕ)
    → DemultiplexHeader
lltd_header eth_source eth_dest real_source real_dest seq_number opcode tos = record {
  destination = eth_dest;
  source = eth_source;
  frame_type = lltd_ether_type;
  version = 1;
  tos = tos;
  reserved = 0;
  opcode = opcode;
  real_destination = real_dest;
  real_source = real_source;
  seq_number = seq_number;
}

-- On a buffer that starts with any header, and with a 16-bit sequence number, the builder writes
-- every field but the reserved one, in network order on every host, and leaves what follows
-- alone.
pub set_lltd_header_ex-bytes :
    (little : Bool) (h : DemultiplexHeader) (rest : List ℕ)
    (eth_source eth_dest real_source real_dest : EthernetAddress) (seq_number opcode tos : ℕ)
    → seq_number < 2 ^ 16
    → set_lltd_header_ex little
        (header_bytes h ++ rest)
        eth_source
        eth_dest
        real_source
        real_dest
        seq_number
        opcode
        tos
      ≡ some (
        header_bytes
              (record (lltd_header eth_source eth_dest real_source real_dest seq_number opcode
                tos) { reserved = h.reserved })
            ++ rest,
        demultiplex_header_size,
      )
unfolding set_lltd_header_ex
set_lltd_header_ex-bytes little h rest eth_source eth_dest real_source real_dest seq_number opcode
      tos small =
    rw (store16-htons little lltd_ether_type (omega arith), store16-htons little seq_number small)
      refl

pub set_lltd_header-ex :
    (little : Bool) (buffer : List ℕ) (source destination : EthernetAddress)
    (seq_number opcode tos : ℕ)
    → set_lltd_header little buffer source destination seq_number opcode tos
      ≡ set_lltd_header_ex little buffer source destination source destination seq_number opcode tos
unfolding set_lltd_header set_lltd_header_ex
set_lltd_header-ex little buffer source destination seq_number opcode tos = refl

-- Every field of a header with a 16-bit sequence number is read back from a frame that starts
-- with it, on every host.
pub header-fields :
    (little : Bool) (h : DemultiplexHeader) (rest : List ℕ)
    → h.seq_number < 2 ^ 16
    → (header_destination (header_bytes h ++ rest) ≡ some h.destination)
      × (header_source (header_bytes h ++ rest) ≡ some h.source)
      × (header_tos (header_bytes h ++ rest) ≡ some h.tos)
      × (header_opcode (header_bytes h ++ rest) ≡ some h.opcode)
      × (header_real_destination (header_bytes h ++ rest) ≡ some h.real_destination)
      × (header_real_source (header_bytes h ++ rest) ≡ some h.real_source)
      × ((header_seq_number little (header_bytes h ++ rest) >>= λ s. some (lltd_ntohs little s))
          ≡ some h.seq_number)
header-fields little h rest small = (
  refl,
  refl,
  refl,
  refl,
  refl,
  refl,
  rw (ntohs-load16 little (h.seq_number / 256) (h.seq_number % 256) (omega arith) (omega arith))
      (ap some (omega arith)),
)
