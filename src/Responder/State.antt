-- ===== src/Responder/State.antt =====
-- `lltd_iface_state` of lltdResponder/lltdBlock.c, the monad of its handlers, and the functions
-- that work on the state alone. The list of seen probes is newest first, as the linked list is.
use lltdresponder.Base.{
  ℕ, ◌==◌, if◌then◌else◌, Bool, true, false, not, Option, none, some, List, [], ◌∷◌,
}
use lltdresponder.Protocol.{tos_quick_discovery}
use lltdresponder.Wire.Address.{EthernetAddress, zero_address, compare_ethernet_address}
use lltdresponder.Port.{Effect, alloc, free, send, Port}

-- `probe_t`, without the link to the next one.
pub record Probe : Type 0 where
  pub type : ℕ
  pub real_source_addr : EthernetAddress
  pub source_addr : EthernetAddress
  pub dest_addr : EthernetAddress

pub record IfaceState : Type 0 where
  pub see_list : List Probe
  pub see_list_count : ℕ
  pub mapper_real : EthernetAddress
  pub mapper_apparent : EthernetAddress
  pub mapper_known : Bool
  pub mapper_seq : ℕ
  pub mapper_gen_topology : ℕ
  pub mapper_gen_quick : ℕ
  pub small_icon : Option (List ℕ)

-- The state of an interface after `memset` to 0.
abbrev pub zero_state : IfaceState
zero_state = record {
  see_list = [];
  see_list_count = 0;
  mapper_real = zero_address;
  mapper_apparent = zero_address;
  mapper_known = false;
  mapper_seq = 0;
  mapper_gen_topology = 0;
  mapper_gen_quick = 0;
  small_icon = none;
}

-- The state and all effects so far, the latest first.
pub record World : Type 0 where
  pub st : IfaceState
  pub history : List Effect

-- `none` is a fault: an access outside a block of memory.
abbrev pub M : Type 0 → Type 0
M A = World → Option (A × World)

infixl 5 ◌>>=◌ ◌>>◌
unfoldable pub ◌>>=◌ : {A B : Type 0} → M A → (A → M B) → M B
◌>>=◌ m f w = elim (m w) [ none ↦ none | some (a, w') ↦ f a w' ]

abbrev pub ◌>>◌ : {A B : Type 0} → M A → M B → M B
◌>>◌ m k = m >>= λ _. k

abbrev pub return : {A : Type 0} → A → M A
return a w = some (a, w)

abbrev pub done : M (Unit {0})
done = return tt

unfoldable pub lift : {A : Type 0} → Option A → M A
lift none w = none
lift (some a) w = some (a, w)

unfoldable pub get : M IfaceState
get w = some (w.st, w)

abbrev pub modify : (IfaceState → IfaceState) → M (Unit {0})
modify f w = some (tt, record w { st = f w.st })

abbrev pub perform : Effect → M (Unit {0})
perform e w = some (tt, record w { history = e ∷ w.history })

module _ (p : Port) where
  -- Whether the allocation succeeded.
  abbrev pub malloc : M Bool
  malloc w =
      if p.malloc w.history
      then some (true, record w { history = alloc ∷ w.history })
      else some (false, w)

  -- Whether the frame was sent; the attempt is an effect either way.
  abbrev pub send_frame : List ℕ → M Bool
  send_frame frame w =
      some (p.send_frame w.history frame, record w { history = send frame ∷ w.history })

-- One `free` for each probe.
unfoldable pub free_probes : List Probe → List Effect → List Effect
free_probes [] history = history
free_probes (q ∷ qs) history = free_probes qs (free ∷ history)

unfoldable pub lltd_state_clear_seen_probes : M (Unit {0})
unfolding free_probes
lltd_state_clear_seen_probes w = some (
  tt,
  record {
    st = record w.st { see_list = []; see_list_count = 0 };
    history = free_probes w.st.see_list w.history;
  },
)

unfoldable pub lltd_state_clear_icon_cache : M (Unit {0})
lltd_state_clear_icon_cache w = some (
  tt,
  record {
    st = record w.st { small_icon = none };
    history = elim w.st.small_icon [ none ↦ w.history | some icon ↦ free ∷ w.history ];
  },
)

unfoldable pub mapper_generation_for_tos : IfaceState → ℕ → ℕ
mapper_generation_for_tos st tos =
    if tos == tos_quick_discovery then st.mapper_gen_quick else st.mapper_gen_topology

-- A store through the pointer that `mapper_generation_for_tos` returns.
unfoldable pub set_mapper_generation : ℕ → ℕ → IfaceState → IfaceState
set_mapper_generation tos generation st =
    if tos == tos_quick_discovery
    then record st { mapper_gen_quick = generation }
    else record st { mapper_gen_topology = generation }

unfoldable pub mapper_matches : IfaceState → EthernetAddress → Bool
mapper_matches st real_src =
    if not st.mapper_known then true else compare_ethernet_address st.mapper_real real_src

unfoldable pub set_active_mapper : EthernetAddress → EthernetAddress → IfaceState → IfaceState
set_active_mapper real_src eth_src st =
    if not st.mapper_known
    then record st { mapper_real = real_src; mapper_apparent = eth_src; mapper_known = true }
    else st

-- `lltd_state_for_iface`: the states of the interfaces, newest first. The state of an interface
-- that has none is allocated; null if that fails.
unfoldable pub find_iface : ℕ → List (ℕ × IfaceState) → Option IfaceState
find_iface ctx [] = none
find_iface ctx ((c, st) ∷ rest) = if c == ctx then some st else find_iface ctx rest

unfoldable pub store_iface : ℕ → IfaceState → List (ℕ × IfaceState) → List (ℕ × IfaceState)
store_iface ctx new [] = []
store_iface ctx new ((c, st) ∷ rest) =
    if c == ctx then (c, new) ∷ rest else (c, st) ∷ store_iface ctx new rest

unfoldable pub lltd_state_for_iface :
    Port
    → ℕ
    → List (ℕ × IfaceState)
    → List Effect
    → Option (IfaceState × List (ℕ × IfaceState) × List Effect)
unfolding find_iface
lltd_state_for_iface p ctx states history = elim (find_iface ctx states) [
  | some st ↦ some (st, states, history)
  | none ↦
      if p.malloc history
      then some (zero_state, (ctx, zero_state) ∷ states, alloc ∷ history)
      else none
]
