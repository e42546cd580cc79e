-- ===== src/Automata/Sessions.antt =====
-- The session table of lltdResponder/lltdAutomata.c: 16 slots keyed by mapper address and
-- generation, the number of used slots, and whether every used slot is complete. A pointer to an
-- entry is the index of its slot, and null is `none`. A null table is the callers' matter.
pub mod Slots
pub mod Counting
pub mod Adding
pub mod Leaving
pub mod Steps
pub mod Invariant
pub mod Storing
pub mod View
use lltdresponder.Base.{
  ℕ, zero, suc, ◌+◌, ◌-◌, ◌==◌, ltb, if◌then◌else◌, Bool, true, false, ◌&&◌, ◌||◌, not, Option,
  none, some, List, [], ◌∷◌, replicate, u8, u64,
}
use lltdresponder.Wire.Address.{EthernetAddress, zero_address, mac_equal}
use lltdresponder.Automata.Machine.{sess_discover_noack}

abbrev pub session_table_max_entries : ℕ
session_table_max_entries = 16

pub record SessionEntry : Type 0 where
  pub mapper_mac : EthernetAddress
  pub generation : ℕ
  pub seq_number : ℕ
  pub state : ℕ
  pub complete : Bool
  pub valid : Bool
  pub last_activity_ts : ℕ
  pub created_ts : ℕ

pub record SessionTable : Type 0 where
  pub entries : List SessionEntry
  pub count : ℕ
  pub all_complete : Bool

-- A slot after `memset` to 0.
abbrev pub zero_entry : SessionEntry
zero_entry = record {
  mapper_mac = zero_address;
  generation = 0;
  seq_number = 0;
  state = 0;
  complete = false;
  valid = false;
  last_activity_ts = 0;
  created_ts = 0;
}

-- Null if the allocation fails.
unfoldable pub session_table_create : Bool → Option SessionTable
session_table_create false = none
session_table_create true = some (record {
  entries = replicate session_table_max_entries zero_entry;
  count = 0;
  all_complete = true;
})

abbrev pub matches : EthernetAddress → ℕ → SessionEntry → Bool
matches mac generation e = e.valid && (mac_equal e.mapper_mac mac && e.generation == generation)

-- The loops over the slots: the index of the first one that passes a test, from index `i` on.
unfoldable pub index_from : (SessionEntry → Bool) → ℕ → List SessionEntry → Option ℕ
index_from test i [] = none
index_from test i (e ∷ es) = if test e then some i else index_from test (suc i) es

unfoldable pub session_table_find : SessionTable → EthernetAddress → ℕ → Option ℕ
session_table_find table mac generation = index_from (matches mac generation) 0 table.entries

-- A store through a pointer to a slot.
unfoldable pub modify : (SessionEntry → SessionEntry) → List SessionEntry → ℕ → List SessionEntry
modify f [] i = []
modify f (e ∷ es) zero = f e ∷ es
modify f (e ∷ es) (suc i) = e ∷ modify f es i

abbrev pub unused : SessionEntry → Bool
unused e = not e.valid

-- The entry that a new session starts with.
abbrev pub new_entry : EthernetAddress → ℕ → ℕ → ℕ → SessionEntry
new_entry mac generation seq now = record {
  mapper_mac = mac;
  generation = generation;
  seq_number = seq;
  state = sess_discover_noack;
  complete = false;
  valid = true;
  last_activity_ts = now;
  created_ts = now;
}

-- The table afterwards and the slot. The clock is read once on each path that reads it.
unfoldable pub session_table_add :
    SessionTable → EthernetAddress → ℕ → ℕ → ℕ → SessionTable × Option ℕ
session_table_add table mac generation seq now = elim (session_table_find table mac generation) [
  | some i ↦ (
    record table {
      entries = modify (λ e. record e { seq_number = seq; last_activity_ts = now }) table.entries i;
    },
    some i,
  )
  | none ↦ elim (index_from unused 0 table.entries) [
    | some i ↦ (
      record {
        entries = modify (λ e. new_entry mac generation seq now) table.entries i;
        count = u8 (table.count + 1);
        all_complete = false;
      },
      some i,
    )
    | none ↦ (table, none)
  ]
]

-- The loop of `session_table_update_complete_status`: `any_valid` and `all_complete`; it stops at
-- the first used slot that is not complete.
unfoldable pub complete_status : Bool → List SessionEntry → Bool × Bool
complete_status any_valid [] = (any_valid, true)
complete_status any_valid (e ∷ es) = elim e.valid [
  | true ↦ elim e.complete [ true ↦ complete_status true es | false ↦ (true, false) ]
  | false ↦ complete_status any_valid es
]

unfoldable pub session_table_update_complete_status : SessionTable → SessionTable
unfolding complete_status
session_table_update_complete_status table =
    let (any_valid, all_complete) = complete_status false table.entries in
    record table { all_complete = not any_valid || all_complete }

-- `if (table->count > 0) table->count--`
abbrev pub drop_count : ℕ → ℕ
drop_count n = if ltb 0 n then n - 1 else n

unfoldable pub session_table_remove : SessionTable → EthernetAddress → ℕ → SessionTable
session_table_remove table mac generation =
    session_table_update_complete_status (elim (session_table_find table mac generation) [
      | some i ↦ record table {
        entries = modify (λ e. record e { valid = false }) table.entries i;
        count = drop_count table.count;
      }
      | none ↦ table
    ])

-- Of a null table the answer is true.
unfoldable pub session_table_is_empty : Option SessionTable → Bool
session_table_is_empty none = true
session_table_is_empty (some table) = table.count == 0

unfoldable pub session_table_all_complete : Option SessionTable → Bool
session_table_all_complete none = true
session_table_all_complete (some table) = table.all_complete

unfoldable pub session_table_clear : SessionTable → SessionTable
session_table_clear table = record {
  entries = replicate session_table_max_entries zero_entry;
  count = 0;
  all_complete = true;
}

-- The expiry loop of `automata_tick`: sessions silent for more than 60 seconds.
unfoldable pub expire : ℕ → ℕ → List SessionEntry → ℕ × List SessionEntry
expire now_s count [] = (count, [])
expire now_s count (e ∷ es) =
    let stale = e.valid && ltb (u64 (e.last_activity_ts + 60)) now_s in
    let (n, rest) = expire now_s (if stale then drop_count count else count) es in
    (n, (if stale then record e { valid = false } else e) ∷ rest)

unfoldable pub expire_sessions : ℕ → SessionTable → SessionTable
unfolding expire
expire_sessions now_s table =
    let (count, entries) = expire now_s table.count table.entries in
    session_table_update_complete_status (record table { entries = entries; count = count })
