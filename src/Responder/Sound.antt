-- ===== src/Responder/Sound.antt =====
-- The list of seen probes of lltdResponder/lltdBlock.c, its counter, and the number of blocks of memory
-- that are in use. Blocks have no identity here: which one is freed is not told apart.
pub mod Probes
pub mod Frame
use lltdresponder.Base.{
  ℕ, zero, suc, ◌+◌, ◌≡◌, ◌≢◌, ◌⊎◌, inl, inr, ◌&&◌, Bool-cases, refl, Bool, true, false, not,
  if◌then◌else◌, Option, none, some, List, [], ◌∷◌, length, u32, arith,
}
use lltdresponder.Port.{Effect, alloc, free, sleep, send, Port}
use lltdresponder.Wire.Address.{
  EthernetAddress, compare_ethernet_address, compare_ethernet_address_iff,
}
use lltdresponder.Responder.State.{
  Probe, IfaceState, World, M, ◌>>=◌, ◌>>◌, return, done, lift, get, modify, perform, malloc,
  send_frame, free_probes, lltd_state_clear_seen_probes, lltd_state_clear_icon_cache,
}
use lltdresponder.Responder.Probes.{seen, add_probe}
use lltdresponder.Responder.Triple.{Triple, triple_bind, After}

-- The probes of a list differ from these senders in one address or the other.
abbrev Fresh : EthernetAddress → EthernetAddress → List Probe → Type 0
Fresh source real_source [] = Unit
Fresh source real_source (q ∷ qs) =
    ((source ≢ q.source_addr) ⊎ (real_source ≢ q.real_source_addr)) × Fresh source real_source qs

-- No probe is listed twice for the same senders.
unfoldable pub NoTwin : List Probe → Type 0
NoTwin [] = Unit
NoTwin (q ∷ qs) = Fresh q.source_addr q.real_source_addr qs × NoTwin qs

differs :
    (a b c d : EthernetAddress)
    → (compare_ethernet_address a b && compare_ethernet_address c d) ≡ false
    → (a ≢ b) ⊎ (c ≢ d)
differs a b c d h = elim (Bool-cases (compare_ethernet_address a b)) [
  | inr other ↦ inl (λ e. cc ((compare_ethernet_address_iff a b).1 e))
  | inl same ↦ inr (λ e. ground (arith, h, same, (compare_ethernet_address_iff c d).1 e))
]

-- A search that finds nothing has looked at all of the list.
seen-Fresh :
    (source real_source : EthernetAddress) (qs : List Probe)
    → seen source real_source qs ≡ false
    → Fresh source real_source qs
unfolding seen
seen-Fresh source real_source [] h = tt
seen-Fresh source real_source (q ∷ qs) h = (
  differs source q.source_addr real_source q.real_source_addr (ground (arith, h)),
  seen-Fresh source real_source qs (ground (arith, h)),
)

unfoldable pub allocs : List Effect → ℕ
allocs [] = 0
allocs (alloc ∷ es) = allocs es + 1
allocs (free ∷ es) = allocs es
allocs (sleep n ∷ es) = allocs es
allocs (send f ∷ es) = allocs es

unfoldable pub frees : List Effect → ℕ
frees [] = 0
frees (alloc ∷ es) = frees es
frees (free ∷ es) = frees es + 1
frees (sleep n ∷ es) = frees es
frees (send f ∷ es) = frees es

abbrev pub icon_blocks : Option (List ℕ) → ℕ
icon_blocks none = 0
icon_blocks (some icon) = 1

-- With `k` further blocks in use: there are as many allocations that were not freed as listed probes,
-- the icon if there is one, and these.
pub record Sound (k : ℕ) (w : World) : Type 0 where
  pub counted : w.st.see_list_count ≡ u32 (length w.st.see_list)
  pub distinct : NoTwin w.st.see_list
  pub balance :
      allocs w.history ≡ frees w.history + length w.st.see_list + icon_blocks w.st.small_icon + k

abbrev pub Keeps : {A : Type 0} → ℕ → M A → Type 0
Keeps k m = Triple (Sound k) m (λ _. Sound k)

After-malloc :
    (k : ℕ) (ok : Bool) (w : World)
    → Sound k w
    → After
        (λ (b : Bool). Sound (if b then suc k else k))
        (if ok then some (true, record w { history = alloc ∷ w.history }) else some (false, w))
unfolding allocs frees
After-malloc k true w s = record {
  counted = s.counted;
  distinct = s.distinct;
  balance = omega (arith, s.balance);
}
After-malloc k false w s = s

pub malloc-Sound :
    (p : Port) (k : ℕ) → Triple (Sound k) (malloc p) (λ ok. Sound (if ok then suc k else k))
malloc-Sound p k = record { holds = λ w s. After-malloc k (p.malloc w.history) w s }

pub free-Sound : (k : ℕ) → Triple (Sound (suc k)) (perform free) (λ _. Sound k)
unfolding allocs frees
free-Sound k = record {
  holds = λ w s. record {
    counted = s.counted;
    distinct = s.distinct;
    balance = omega (arith, s.balance);
  };
}

pub sleep-Sound : (k n : ℕ) → Keeps k (perform (sleep n))
unfolding allocs frees
sleep-Sound k n = record {
  holds = λ w s. record { counted = s.counted; distinct = s.distinct; balance = s.balance };
}

pub send_frame-Sound : (p : Port) (k : ℕ) (frame : List ℕ) → Keeps k (send_frame p frame)
unfolding allocs frees
send_frame-Sound p k frame = record {
  holds = λ w s. record { counted = s.counted; distinct = s.distinct; balance = s.balance };
}

-- The list, its counter and the icon are the same.
pub record Untouched (st st' : IfaceState) : Type 0 where
  pub list : st'.see_list ≡ st.see_list
  pub list_count : st'.see_list_count ≡ st.see_list_count
  pub icon : st'.small_icon ≡ st.small_icon

pub Untouched-if :
    {s st st' : IfaceState} (b : Bool)
    → Untouched s st
    → Untouched s st'
    → Untouched s (if b then st else st')
Untouched-if true h k = h
Untouched-if false h k = k

pub modify-Sound :
    (k : ℕ) (f : IfaceState → IfaceState)
    → ((st : IfaceState) → Untouched st (f st))
    → Keeps k (modify f)
modify-Sound k f same = record {
  holds = λ w s. record {
    counted = rw ((same w.st).list, (same w.st).list_count) s.counted;
    distinct = rw (same w.st).list s.distinct;
    balance = rw ((same w.st).list, (same w.st).icon) s.balance;
  };
}

allocs-free_probes : (qs : List Probe) (es : List Effect) → allocs (free_probes qs es) ≡ allocs es
unfolding free_probes allocs
allocs-free_probes [] es = refl
allocs-free_probes (q ∷ qs) es = allocs-free_probes qs (free ∷ es)

frees-free_probes :
    (qs : List Probe) (es : List Effect) → frees (free_probes qs es) ≡ frees es + length qs
unfolding free_probes frees
frees-free_probes [] es = omega arith
frees-free_probes (q ∷ qs) es = omega (arith, frees-free_probes qs (free ∷ es))

pub clear_seen_probes-Sound : (k : ℕ) → Keeps k lltd_state_clear_seen_probes
unfolding lltd_state_clear_seen_probes NoTwin
clear_seen_probes-Sound k = record {
  holds = λ w s. record {
    counted = refl;
    distinct = tt;
    balance = omega (
      arith,
      s.balance,
      allocs-free_probes w.st.see_list w.history,
      frees-free_probes w.st.see_list w.history,
    );
  };
}

cleared :
    (k : ℕ) (w : World) (icon : Option (List ℕ))
    → w.st.see_list_count ≡ u32 (length w.st.see_list)
    → NoTwin w.st.see_list
    → allocs w.history ≡ frees w.history + length w.st.see_list + icon_blocks icon + k
    → Sound k (record {
      st = record w.st { small_icon = none };
      history = elim icon [ none ↦ w.history | some i ↦ free ∷ w.history ];
    })
unfolding allocs frees
cleared k w none c d b = record { counted = c; distinct = d; balance = b }
cleared k w (some i) c d b = record { counted = c; distinct = d; balance = omega (arith, b) }

pub clear_icon_cache-Sound : (k : ℕ) → Keeps k lltd_state_clear_icon_cache
unfolding lltd_state_clear_icon_cache
clear_icon_cache-Sound k = record {
  holds = λ w s. cleared k w w.st.small_icon s.counted s.distinct s.balance;
}

-- A block that becomes the newest probe, when no twin of it is listed.
pub add_probe-Sound :
    (k : ℕ) (q : Probe) (st : IfaceState)
    → seen q.source_addr q.real_source_addr st.see_list ≡ false
    → Triple (λ w. Sound (suc k) w × (w.st ≡ st)) (add_probe q) (λ _. Sound k)
unfolding NoTwin
add_probe-Sound k q st fresh = record {
  holds = λ w s. record {
    counted = omega (arith, s.0.counted);
    distinct =
        (rw s.1 (seen-Fresh q.source_addr q.real_source_addr st.see_list fresh), s.0.distinct);
    balance = omega (arith, s.0.balance);
  };
}

-- An allocation, with what happens if it succeeds and if it fails.
pub triple_malloc :
    {A : Type 0} {m n : M A} {Q : A → World → Type 0} (p : Port) (k : ℕ)
    → Triple (Sound (suc k)) m Q
    → Triple (Sound k) n Q
    → Triple (Sound k) (malloc p >>= λ ok. if ok then m else n) Q
triple_malloc {m = m} {n = n} {Q = Q} p k h j = triple_bind (malloc-Sound p k) branch
  where
    branch : (ok : Bool) → Triple (Sound (if ok then suc k else k)) (if ok then m else n) Q
    branch true = h
    branch false = j

-- The same, with the test the other way round.
pub triple_no_malloc :
    {A : Type 0} {m n : M A} {Q : A → World → Type 0} (p : Port) (k : ℕ)
    → Triple (Sound (suc k)) m Q
    → Triple (Sound k) n Q
    → Triple (Sound k) (malloc p >>= λ ok. if not ok then n else m) Q
triple_no_malloc {m = m} {n = n} {Q = Q} p k h j = triple_bind (malloc-Sound p k) branch
  where
    branch : (ok : Bool) → Triple (Sound (if ok then suc k else k)) (if not ok then n else m) Q
    branch true = h
    branch false = j
