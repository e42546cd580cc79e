-- ===== src/Responder/Query/Response.antt =====
-- The answer to a Query frame, byte for byte: `parseQuery` of lltdResponder/lltdBlock.c.
use mathlib.Core.List.{append_assoc}
use mathlib.Core.Path.{ap₂}
use lltdresponder.Base.{
  ℕ, zero, suc, ◌+◌, ◌-◌, ◌*◌, ◌/◌, ◌^◌, ◌<◌, ◌≤◌, ◌≡◌, refl, sym, ap, ◌∙◌, min, Bool, true, false,
  Option, some, List, [], ◌∷◌, ◌++◌, replicate, length, take, drop, arith, length-append,
  length-replicate, le→ltb-false, length-drop, length-take,
}
use lltdresponder.Base.Fault.{write, overwrite_fits, write_behind}
use lltdresponder.Protocol.{opcode_query_resp, tos_discovery}
use lltdresponder.Wire.Endian.{store16, lltd_htons, be16, store16-htons}
use lltdresponder.Wire.Address.{EthernetAddress, address_bytes}
use lltdresponder.Wire.Header.{set_lltd_header}
use lltdresponder.Wire.Header.Layout.{
  DemultiplexHeader, header_bytes, zero_header, lltd_header, set_lltd_header_ex-bytes,
  set_lltd_header-ex,
}
use lltdresponder.Responder.State.{Probe}
use lltdresponder.Responder.Query.{probe_desc, write_descs, max_descs, num_descs, query_response}

-- The descriptors of some probes, one behind the other.
pub wire_descs : Bool → List Probe → List ℕ
wire_descs little [] = []
wire_descs little (q ∷ qs) =
    (store16 little q.type
      ++ address_bytes q.real_source_addr
      ++ address_bytes q.source_addr
      ++ address_bytes q.dest_addr)
    ++ wire_descs little qs

pub length-probe_desc : (little : Bool) (q : Probe) → length (probe_desc little q) ≡ 20
length-probe_desc true q = refl
length-probe_desc false q = refl

-- A store right behind a prefix.
pub write_next :
    (pre room bytes : List ℕ)
    → length bytes ≤ length room
    → write (pre ++ room) (length pre) bytes ≡ some (pre ++ (bytes ++ drop (length bytes) room))
write_next pre room bytes h =
    rw (write_behind pre room 0 (length pre) bytes (omega arith), overwrite_fits room bytes h) refl

write_descs_stop :
    (little : Bool) (mtu : ℕ) (buffer : List ℕ) (offset : ℕ) (qs : List Probe)
    → write_descs little mtu buffer offset 0 qs ≡ some (buffer, offset)
unfolding write_descs
write_descs_stop little mtu buffer offset [] = refl
write_descs_stop little mtu buffer offset (q ∷ qs) = refl

write_descs_step :
    (little : Bool) (mtu : ℕ) (buffer b : List ℕ) (offset n : ℕ) (q : Probe) (qs : List Probe)
    → offset + 20 ≤ mtu
    → write buffer offset (probe_desc little q) ≡ some b
    → write_descs little mtu buffer offset (suc n) (q ∷ qs)
      ≡ write_descs little mtu b (offset + 20) n qs
unfolding write_descs
write_descs_step little mtu buffer b offset n q qs fits w =
    rw (write_descs, le→ltb-false mtu (offset + 20) fits, w) refl

drop-nil : (n : ℕ) → drop {A = ℕ} n [] ≡ []
drop-nil zero = refl
drop-nil (suc n) = refl

pub drop-drop : (m n : ℕ) (xs : List ℕ) → drop m (drop n xs) ≡ drop (n + m) xs
drop-drop m zero xs = let e : m ≡ zero + m = omega arith in ap (λ k. drop k xs) e
drop-drop m (suc n) [] = drop-nil m ∙ sym (drop-nil (suc n + m))
drop-drop m (suc n) (x ∷ xs) =
    drop-drop m n xs
    ∙ (let e : suc (n + m) ≡ suc n + m = omega arith in ap (λ k. drop k (x ∷ xs)) e)

regroup :
    (pre d w r r' : List ℕ) (m n : ℕ)
    → r ≡ r'
    → m ≡ n
    → ◌≡◌ {A = Option (List ℕ × ℕ)}
        (some ((pre ++ d) ++ (w ++ r), m))
        (some (pre ++ ((d ++ w) ++ r'), n))
regroup pre d w r r' m n e f =
    rw (e, f)
      (ap (λ (b : List ℕ). some (b, n))
        (append_assoc pre d (w ++ r') ∙ ap (λ b. pre ++ b) (sym (append_assoc d w r'))))

pub write_descs_lem :
    (little : Bool) (mtu : ℕ) (pre room : List ℕ) (n : ℕ) (qs : List Probe)
    → length pre + length room ≡ mtu
    → length pre + 20 * n ≤ mtu
    → write_descs little mtu (pre ++ room) (length pre) n qs
      ≡ some (
        pre ++ (wire_descs little (take n qs) ++ drop (20 * length (take n qs)) room),
        length pre + 20 * length (take n qs),
      )
unfolding wire_descs
write_descs_lem little mtu pre room zero qs e fits =
    ground (arith, write_descs_stop little mtu (pre ++ room) (length pre) qs)
write_descs_lem little mtu pre room (suc n) [] e fits = unfold write_descs in ground arith
write_descs_lem little mtu pre room (suc n) (q ∷ qs) e fits =
    let d = probe_desc little q in
    let k = length (take n qs) in
    let twenty = length-probe_desc little q in
    let longer : length (pre ++ d) ≡ length pre + 20 = omega (arith, length-append pre d, twenty) in
    let room' = drop (length d) room in
    let rest =
      write_descs_lem little mtu (pre ++ d) room' n qs
        (omega (arith, longer, length-drop (length d) room, twenty)) (omega (arith, longer)) in
    write_descs_step little mtu (pre ++ room) (pre ++ (d ++ room')) (length pre) n q qs
      (omega arith) (write_next pre room d (omega arith))
    ∙ ap₂ (λ b o. write_descs little mtu b o n qs) (sym (append_assoc pre d room')) (sym longer)
    ∙ rest
    ∙ regroup pre d (wire_descs little (take n qs)) _ _ _ _
        (drop-drop (20 * k) (length d) room ∙ ap (λ m. drop m room) (omega (arith, twenty)))
        (omega (arith, longer))

-- How many descriptors fit behind the header, and are there.
pub listed : ℕ → List Probe → ℕ
listed mtu probes = min ((mtu - 34) / 20) (length probes)

num_descs_lem :
    (mtu : ℕ) (probes : List Probe)
    → 34 ≤ mtu
    → mtu < 2 ^ 16
    → num_descs mtu (length probes) ≡ listed mtu probes
unfolding num_descs max_descs listed
num_descs_lem mtu probes h small = ground arith

length-wire_descs :
    (little : Bool) (qs : List Probe) → length (wire_descs little qs) ≡ 20 * length qs
unfolding wire_descs
length-wire_descs little [] = refl
length-wire_descs little (q ∷ qs) = omega (
  arith,
  length-append (probe_desc little q) (wire_descs little qs),
  length-probe_desc little q,
  length-wire_descs little qs,
)

take-listed :
    (mtu : ℕ) (probes : List Probe) → length (take (listed mtu probes) probes) ≡ listed mtu probes
unfolding listed
take-listed mtu probes = omega (arith, length-take (listed mtu probes) probes)

-- A zeroed block.
abbrev pub zeros : ℕ → List ℕ
zeros n = replicate n 0

renumber : {m n : ℕ} → m ≡ n → zeros m ≡ zeros n
renumber e = ap zeros e

replicate-add : (m n : ℕ) → zeros (m + n) ≡ zeros m ++ zeros n
replicate-add zero n = renumber (omega arith)
replicate-add (suc m) n =
    renumber {n = suc (m + n)} (omega arith) ∙ ap (λ xs. 0 ∷ xs) (replicate-add m n)

-- A zeroed buffer starts with a zero header.
pub replicate-header :
    (n k : ℕ) → n ≡ 34 + k → zeros n ≡ header_bytes zero_header ++ (0 ∷ 0 ∷ zeros k)
replicate-header n k e = renumber e ∙ replicate-add 34 k

-- The header of an answer, and the 16-bit number behind it.
pub answer_header :
    (little : Bool) (size k : ℕ) (our dest : EthernetAddress) (seq opcode tos : ℕ)
    → size ≡ 34 + k
    → seq < 2 ^ 16
    → set_lltd_header little (zeros size) our dest seq opcode tos
      ≡ some (header_bytes (lltd_header our dest our dest seq opcode tos) ++ (0 ∷ 0 ∷ zeros k), 32)
answer_header little size k our dest seq opcode tos e small =
    ap (λ b. set_lltd_header little b our dest seq opcode tos) (replicate-header size k e)
    ∙ set_lltd_header-ex little (header_bytes zero_header ++ (0 ∷ 0 ∷ zeros k)) our dest seq opcode
        tos
    ∙ set_lltd_header_ex-bytes little zero_header (0 ∷ 0 ∷ zeros k) our dest our dest seq opcode tos
        small

pub answer_number :
    (little : Bool) (h : DemultiplexHeader) (n : ℕ) (rest : List ℕ)
    → n < 2 ^ 16
    → write (header_bytes h ++ (0 ∷ 0 ∷ rest)) 32 (store16 little (lltd_htons little n))
      ≡ some ((header_bytes h ++ be16 n) ++ rest)
answer_number little h n rest small = rw (store16-htons little n small) refl

pub drop-replicate : (n k : ℕ) → drop n (zeros k) ≡ zeros (k - n)
drop-replicate zero k = renumber {m = k} (omega arith)
drop-replicate (suc n) zero = renumber {m = 0} {n = 0 - suc n} (omega arith)
drop-replicate (suc n) (suc k) =
    drop-replicate n k ∙ renumber {m = k - n} {n = suc k - suc n} (omega arith)

query_response_steps :
    (little : Bool) (mtu : ℕ) (our dest : EthernetAddress) (seq count n o : ℕ) (probes : List Probe)
    (b b' : List ℕ)
    → set_lltd_header little (zeros mtu) our dest seq opcode_query_resp tos_discovery ≡ some (b, o)
    → num_descs mtu count ≡ n
    → write b 32 (store16 little (lltd_htons little n)) ≡ some b'
    → query_response little mtu our dest seq count probes
      ≡ write_descs little mtu b' (o + 2) n probes
unfolding query_response
query_response_steps little mtu our dest seq count n o probes b b' e f g =
    rw (query_response, e, f, g, f) refl

-- For an MTU of at least 34 and below 2^16 and a 16-bit sequence number, the answer to a Query
-- is the header, the number of descriptors, and the descriptors of the newest probes, as many as
-- fit the MTU and are there, in a buffer whose rest is zero; the length of the frame does not
-- exceed the MTU.
pub query_response-bytes :
    (little : Bool) (mtu : ℕ) (our dest : EthernetAddress) (seq : ℕ) (probes : List Probe)
    → 34 ≤ mtu
    → mtu < 2 ^ 16
    → seq < 2 ^ 16
    → (query_response little mtu our dest seq (length probes) probes
        ≡ some (
          (header_bytes (lltd_header our dest our dest seq opcode_query_resp tos_discovery)
                ++ be16 (listed mtu probes))
              ++ (wire_descs little (take (listed mtu probes) probes)
                  ++ zeros (mtu - 34 - 20 * listed mtu probes)),
          34 + 20 * listed mtu probes,
        ))
      × (34 + 20 * listed mtu probes ≤ mtu)
query_response-bytes little mtu our dest seq probes room small s =
    let n = listed mtu probes in
    let h = lltd_header our dest our dest seq opcode_query_resp tos_discovery in
    let room' = zeros (mtu - 34) in
    let few : 20 * n ≤ mtu - 34 = unfold listed in omega arith in
    let descs =
      write_descs_lem little mtu (header_bytes h ++ be16 n) room' n probes
        (omega (arith, length-replicate {A = ℕ} (mtu - 34) 0)) (omega (arith, few)) in
    (
      query_response_steps little mtu our dest seq (length probes) n 32 probes _ _
            (answer_header little mtu (mtu - 34) our dest seq opcode_query_resp tos_discovery
              (omega arith) s)
            (num_descs_lem mtu probes room small)
            (answer_number little h n room' (omega (arith, few)))
          ∙ descs
          ∙ rw (take-listed mtu probes, drop-replicate (20 * n) (mtu - 34)) refl,
      omega (arith, few),
    )
