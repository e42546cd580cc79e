-- ===== src/Automata/Events/Laws.antt =====
-- `derive_session_event` of lltdResponder/lltdAutomata.c in terms of the session table and the station
-- list.
use mathlib.Core.Path.{subst}
use mathlib.Core.Option.{some-injective}
use lltdresponder.Base.{
  ℕ, suc, ◌+◌, ◌*◌, ◌≡◌, ◌⊎◌, inl, inr, refl, sym, ap, ◌∙◌, pos, length, ◌==◌, Bool, true, false,
  not, Option, none, some, List, [], ◌∷◌, arith, Bool-cases, Option-cases,
}
use lltdresponder.Protocol.{opcode_discover}
use lltdresponder.Wire.Endian.{lltd_ntohs}
use lltdresponder.Wire.Address.{EthernetAddress, read_address, mac_equal, mac_equal_iff}
use lltdresponder.Wire.Header.{read_u16, header_opcode, header_real_source, header_seq_number}
use lltdresponder.Automata.Sessions.{SessionEntry, SessionTable, session_table_find, matches}
use lltdresponder.Automata.Sessions.Slots.{first}
use lltdresponder.Automata.Sessions.Steps.{first-Hit, first-Miss}
use lltdresponder.Automata.Sessions.View.{view}
use lltdresponder.Automata.Events.{
  is_acking, in_station_list, entry_at, existing_session, discover_event, classify_discover,
  derive_discover, derive_session_event,
}

first-test :
    (test : SessionEntry → Bool) (es : List SessionEntry) (e : SessionEntry)
    → first test es ≡ some e
    → test e ≡ true
unfolding first
first-test test [] e h = cc
first-test test (x ∷ es) e h = elim (Bool-cases (test x)) [
  | inl hit ↦ subst (λ (y : SessionEntry). test y ≡ true) (some-injective _ _ (rw hit at h)) hit
  | inr miss ↦ first-test test es e (rw miss at h)
]

-- The existing session is the table's entry for the sender of the frame.
pub existing_session-view :
    (frame : List ℕ) (t : SessionTable) (generation : ℕ) (source : EthernetAddress)
    → header_real_source frame ≡ some source
    → existing_session frame (some t) generation ≡ some (view t source generation)
unfolding existing_session session_table_find entry_at
existing_session-view frame t generation source h = elim (Option-cases (view t source generation)) [
  | inl q ↦ rw (q, h, first-Miss (matches source generation) t.entries q)
  | inr (x, q) ↦
      let (k, hit) = first-Hit (matches source generation) t.entries x q in rw (q, h, hit.0, hit.1)
]

-- Whether the sequence number differs from that of the session that the table has, if any.
abbrev pub changed_xid : Option SessionEntry → ℕ → Bool
changed_xid none xid = false
changed_xid (some e) xid = not (e.seq_number == xid)

classify-same :
    (frame : List ℕ) (acking : Bool) (xid generation : ℕ) (t : SessionTable)
    (source : EthernetAddress)
    → header_real_source frame ≡ some source
    → classify_discover frame acking xid (view t source generation)
      ≡ some (discover_event acking (changed_xid (view t source generation) xid))
unfolding classify_discover
classify-same frame acking xid generation t source h =
    elim (Option-cases (view t source generation)) [
      | inl e ↦ rw e
      | inr (x, e) ↦
          rw (e, classify_discover, h)
            (ground (arith, first-test (matches source generation) t.entries x e))
    ]

-- The source addresses of the stations of a frame, from entry `i` of its list on.
abbrev pub StationsAt : List ℕ → ℕ → List EthernetAddress → Type 0
StationsAt frame i [] = Unit
StationsAt frame i (x ∷ xs) =
    (read_address frame (36 + 14 * i + 6) ≡ some x) × StationsAt frame (suc i) xs

abbrev pub Listed : EthernetAddress → List EthernetAddress → Type 0
Listed ours [] = ⊥
Listed ours (x ∷ xs) = (x ≡ ours) ⊎ Listed ours xs

-- Whether a Discover with this station list is to be acknowledged by the station with this address:
-- by everybody if it lists nobody, and else by those that it lists; not without an address.
pub data Acks : Option EthernetAddress → List EthernetAddress → Bool → Type 0 where
  unknown : (xs : List EthernetAddress) → Acks none xs false
  nobody : (ours : EthernetAddress) → Acks (some ours) [] true
  ours_too :
      (ours : EthernetAddress) (xs : List EthernetAddress)
      → Listed ours xs
      → Acks (some ours) xs true
  others_only :
      (ours x : EthernetAddress) (xs : List EthernetAddress)
      → (Listed ours (x ∷ xs) → ⊥)
      → Acks (some ours) (x ∷ xs) false

-- The numbers of the four events, by whether the frame is to be acknowledged and whether the session
-- was known with another sequence number.
abbrev pub event_number : Bool → Bool → ℕ
event_number true true = 5
event_number true false = 3
event_number false true = 4
event_number false false = 2

Listed-true :
    (frame : List ℕ) (ours : EthernetAddress) (xs : List EthernetAddress) (i : ℕ)
    → StationsAt frame i xs
    → Listed ours xs
    → in_station_list frame ours (length xs) i ≡ some true
unfolding in_station_list
Listed-true frame ours [] i at l = absurd l
Listed-true frame ours (x ∷ xs) i at l = elim (Bool-cases (mac_equal x ours)) [
  | inl hit ↦ rw (at.0) (
      ap
        (λ (b : Bool). elim b as (λ x'. Option Bool) [
          | true ↦ some true
          | false ↦ in_station_list frame ours (length xs) (suc i)
        ])
        hit)
  | inr miss ↦ elim l [
    | inl here ↦ absurd (ground (arith, miss, (mac_equal_iff x ours).1 here))
    | inr later ↦ rw (at.0) (
        ap
          (λ (b : Bool). elim b as (λ x'. Option Bool) [
            | true ↦ some true
            | false ↦ in_station_list frame ours (length xs) (suc i)
          ])
          miss
        ∙ Listed-true frame ours xs (suc i) (at.1) later)
  ]
]

Listed-false :
    (frame : List ℕ) (ours : EthernetAddress) (xs : List EthernetAddress) (i : ℕ)
    → StationsAt frame i xs
    → (Listed ours xs → ⊥)
    → in_station_list frame ours (length xs) i ≡ some false
unfolding in_station_list
Listed-false frame ours [] i at l = refl
Listed-false frame ours (x ∷ xs) i at l = elim (Bool-cases (mac_equal x ours)) [
  | inl hit ↦ absurd (l (inl ((mac_equal_iff x ours).0 hit)))
  | inr miss ↦ rw (at.0) (
      ap
        (λ (b : Bool). elim b as (λ x'. Option Bool) [
          | true ↦ some true
          | false ↦ in_station_list frame ours (length xs) (suc i)
        ])
        miss
      ∙ Listed-false frame ours xs (suc i) (at.1) (λ later. l (inr later)))
]

positive : (n m : ℕ) → suc n ≡ m → (m == 0) ≡ false
positive n m h = ground (arith, h)

is_acking-Acks :
    (little : Bool) (frame : List ℕ) (our_mac : Option EthernetAddress) (count : ℕ)
    (xs : List EthernetAddress) (acking : Bool)
    → read_u16 little frame 34 ≡ some count
    → length xs ≡ lltd_ntohs little count
    → StationsAt frame 0 xs
    → Acks our_mac xs acking
    → is_acking little frame our_mac ≡ some acking
unfolding is_acking
is_acking-Acks little frame our_mac count xs acking r l at (unknown ys) = refl
is_acking-Acks little frame our_mac count xs acking r l at (nobody ours) = rw (r, sym l) refl
is_acking-Acks little frame our_mac count xs acking r l at (ours_too ours [] i) = absurd i
is_acking-Acks little frame our_mac count xs acking r l at (ours_too ours (y ∷ ys) i) =
    rw (r, positive (length ys) (lltd_ntohs little count) l, sym l)
      (Listed-true frame ours (y ∷ ys) 0 at i)
is_acking-Acks little frame our_mac count xs acking r l at (others_only ours y ys i) =
    rw (r, positive (length ys) (lltd_ntohs little count) l, sym l)
      (Listed-false frame ours (y ∷ ys) 0 at i)

discover_event-number :
    (acking changed : Bool) → discover_event acking changed ≡ pos (event_number acking changed)
unfolding discover_event
discover_event-number true true = refl
discover_event-number true false = refl
discover_event-number false true = refl
discover_event-number false false = refl

-- The event of a Discover frame whose fields and station list lie in the buffer, with a session table:
-- it is 2 or 4 if the frame lists stations but not this one, or if this one has no address, and else
-- 3 or 5, which acknowledge it; it is 4 or 5 if the table has a session of the frame's mapper and
-- generation with another sequence number. It is never 0, a conflict.
pub derive_session_event-discover :
    (little : Bool) (frame : List ℕ) (t : SessionTable) (our_mac : Option EthernetAddress)
    (generation xid count : ℕ) (source : EthernetAddress) (stations : List EthernetAddress)
    (acking : Bool)
    → header_opcode frame ≡ some opcode_discover
    → read_u16 little frame 32 ≡ some generation
    → header_seq_number little frame ≡ some xid
    → header_real_source frame ≡ some source
    → read_u16 little frame 34 ≡ some count
    → length stations ≡ lltd_ntohs little count
    → StationsAt frame 0 stations
    → Acks our_mac stations acking
    → derive_session_event little (some frame) (some t) our_mac
      ≡ some (
          pos (
            event_number acking
              (changed_xid (view t source (lltd_ntohs little generation)) (lltd_ntohs little xid))))
unfolding derive_session_event derive_discover
derive_session_event-discover little frame t our_mac generation xid count source stations acking o g
      x s c l at a =
    rw
      (
        o,
        g,
        x,
        existing_session-view frame t (lltd_ntohs little generation) source s,
        is_acking-Acks little frame our_mac count stations acking c l at a,
        sym (
            discover_event-number acking
              (changed_xid (view t source (lltd_ntohs little generation)) (lltd_ntohs little xid))),
      )
      (classify-same frame acking (lltd_ntohs little xid) (lltd_ntohs little generation) t source s)
