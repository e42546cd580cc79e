-- ===== src/Wire/Header/Writes.antt =====
-- The builders of lltdResponder/lltdWire.c, and the buffers that they need.
use lltdresponder.Base.{ℕ, ◌+◌, ◌≤◌, ◌≡◌, refl, Bool, true, false, List, [], ◌∷◌, length, arith}
use lltdresponder.Base.Writes.{Sized, Sized-write}
use lltdresponder.Protocol.{lltd_ether_type}
use lltdresponder.Wire.Endian.{store16, store32, lltd_htons}
use lltdresponder.Wire.Address.{EthernetAddress, address_bytes}
use lltdresponder.Wire.Header.{set_lltd_header_ex, set_hello_header}

pub length-store16 : (little : Bool) (v : ℕ) → length (store16 little v) ≡ 2
length-store16 true v = refl
length-store16 false v = refl

pub length-store32 : (little : Bool) (v : ℕ) → length (store32 little v) ≡ 4
length-store32 true v = refl
length-store32 false v = refl

module _ (little : Bool) (n : ℕ) (buffer : List ℕ) (l : length buffer ≡ n) where
  pub set_lltd_header_ex-Sized :
      (eth_source eth_dest real_source real_dest : EthernetAddress) (seq_number opcode tos : ℕ)
      → 32 ≤ n
      → Sized n 32 (
          set_lltd_header_ex little buffer eth_source eth_dest real_source real_dest seq_number
            opcode tos)
  unfolding set_lltd_header_ex
  set_lltd_header_ex-Sized eth_source eth_dest real_source real_dest seq_number opcode tos h =
      Sized-write buffer 12 (store16 little (lltd_htons little lltd_ether_type)) _ l
        (omega (arith, h, length-store16 little _))
        λ b1 l1. Sized-write b1 6 (address_bytes eth_source) _ l1 (omega (arith, h)) λ b2 l2.
          Sized-write b2 0 (address_bytes eth_dest) _ l2 (omega (arith, h)) λ b3 l3.
            Sized-write b3 24 (address_bytes real_source) _ l3 (omega (arith, h)) λ b4 l4.
              Sized-write b4 18 (address_bytes real_dest) _ l4 (omega (arith, h)) λ b5 l5.
                Sized-write b5 30 (store16 little (lltd_htons little seq_number)) _ l5
                  (omega (arith, h, length-store16 little _))
                  λ b6 l6. Sized-write b6 17 (opcode ∷ []) _ l6 (omega (arith, h)) λ b7 l7.
                    Sized-write b7 15 (tos ∷ []) _ l7 (omega (arith, h)) λ b8 l8.
                      Sized-write b8 14 (1 ∷ []) _ l8 (omega (arith, h))
                        λ b9 l9. (b9, 32, refl, l9, omega arith)

  pub set_hello_header-Sized :
      (offset : ℕ) (apparent_mapper current_mapper : EthernetAddress) (generation : ℕ)
      → offset + 14 ≤ n
      → Sized n 14 (set_hello_header little buffer offset apparent_mapper current_mapper generation)
  unfolding set_hello_header
  set_hello_header-Sized offset apparent_mapper current_mapper generation h =
      Sized-write buffer (offset + 8) (address_bytes apparent_mapper) _ l (omega (arith, h))
        λ b1 l1.
          Sized-write b1 (offset + 2) (address_bytes current_mapper) _ l1 (omega (arith, h))
            λ b2 l2.
              Sized-write b2 offset (store16 little (lltd_htons little generation)) _ l2
                (omega (arith, h, length-store16 little _)) λ b3 l3. (b3, 14, refl, l3, omega arith)
