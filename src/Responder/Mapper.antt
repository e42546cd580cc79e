-- ===== src/Responder/Mapper.antt =====
-- The active mapper in lltdResponder/lltdBlock.c: which Discover frames are ignored, and what a Reset
-- forgets.
use lltdresponder.Base.{
  ℕ, zero, suc, ◌∙◌, replicate, length, ◌≡◌, ◌≢◌, refl, ap, ◌++◌, ◌∷◌, true, false, if◌then◌else◌,
  Option, some, none, List, [], arith,
}
use lltdresponder.Protocol.{opcode_discover, opcode_reset, tos_discovery}
use lltdresponder.Wire.Address.{EthernetAddress, compare_ethernet_address_iff}
use lltdresponder.Wire.Endian.{load16}
use lltdresponder.Wire.Header.{
  read_u16, header_opcode, header_tos, header_source, header_real_source,
}
use lltdresponder.Wire.Header.Layout.{DemultiplexHeader, header_bytes}
use lltdresponder.Port.{Port, Effect, free}
use lltdresponder.Responder.State.{
  Probe, IfaceState, World, M, ◌>>=◌, done, lift, get, mapper_matches, free_probes,
  lltd_state_clear_seen_probes, lltd_state_clear_icon_cache,
}
use lltdresponder.Responder.Dispatch.{
  note_mapper, dispatch, dispatch_discovery, reset_discovery, handle_frame,
}

foreign-differs :
    (st : IfaceState) (real_src : EthernetAddress)
    → st.mapper_known ≡ true
    → st.mapper_real ≢ real_src
    → mapper_matches st real_src ≡ false
unfolding mapper_matches
foreign-differs st real_src known other =
    rw known (ground (arith, compare_ethernet_address_iff st.mapper_real real_src))

note_mapper-foreign :
    (p : Port) (frame : List ℕ) (tos generation : ℕ) (real_src eth_src : EthernetAddress)
    (w : World)
    → read_u16 p.little frame 32 ≡ some generation
    → header_real_source frame ≡ some real_src
    → header_source frame ≡ some eth_src
    → mapper_matches w.st real_src ≡ false
    → note_mapper p frame opcode_discover tos w ≡ some (false, w)
unfolding note_mapper ◌>>=◌ lift get
note_mapper-foreign p frame tos generation real_src eth_src w g r e m = rw (g, r, e, m) refl

bind_some :
    {A B : Type 0} (m : M A) (f : A → M B) (w w' : World) (a : A)
    → m w ≡ some (a, w')
    → (m >>= f) w ≡ f a w'
unfolding ◌>>=◌
bind_some m f w w' a e = rw (◌>>=◌, e) refl

handle_frame-stops :
    (p : Port) (frame : List ℕ) (opcode tos : ℕ) (w : World)
    → header_opcode frame ≡ some opcode
    → header_tos frame ≡ some tos
    → note_mapper p frame opcode tos w ≡ some (false, w)
    → handle_frame p frame w ≡ some (tt, w)
unfolding handle_frame ◌>>=◌ lift
handle_frame-stops p frame opcode tos w o t n =
    rw (o, t)
      (bind_some (note_mapper p frame opcode tos)
        (λ go_on. if go_on then dispatch p frame tos opcode else done) w w false n)

-- While a mapper is active, a Discover of another mapper is ignored: the state is the same, and
-- nothing is sent, allocated or freed.
pub handle_frame-foreign :
    (p : Port) (h : DemultiplexHeader) (g₀ g₁ : ℕ) (rest : List ℕ) (w : World)
    → h.opcode ≡ opcode_discover
    → w.st.mapper_known ≡ true
    → w.st.mapper_real ≢ h.real_source
    → handle_frame p (header_bytes h ++ (g₀ ∷ g₁ ∷ rest)) w ≡ some (tt, w)
handle_frame-foreign p h g₀ g₁ rest w op known other =
    let frame = header_bytes h ++ (g₀ ∷ g₁ ∷ rest) in
    handle_frame-stops p frame opcode_discover h.tos w (ap some op) refl (
      note_mapper-foreign p frame h.tos (load16 p.little g₀ g₁) h.real_source h.source w refl refl
        refl (foreign-differs w.st h.real_source known other))

free-later :
    (n : ℕ) (es : List Effect) → replicate n free ++ (free ∷ es) ≡ free ∷ (replicate n free ++ es)
free-later zero es = refl
free-later (suc n) es = ap (λ xs. free ∷ xs) (free-later n es)

free_probes_lem :
    (qs : List Probe) (es : List Effect) → free_probes qs es ≡ replicate (length qs) free ++ es
unfolding free_probes
free_probes_lem [] es = refl
free_probes_lem (q ∷ qs) es = free_probes_lem qs (free ∷ es) ∙ free-later (length qs) es

-- The end of the handling of a Reset, by the effects before the icon.
abbrev forgotten : World → List Effect → Option (Unit {0} × World)
forgotten w es = some (
  tt,
  record {
    st = record w.st {
      see_list = [];
      see_list_count = 0;
      small_icon = none;
      mapper_known = false;
      mapper_seq = 0;
      mapper_gen_topology = 0;
      mapper_gen_quick = 0;
    };
    history = elim w.st.small_icon [ none ↦ es | some icon ↦ free ∷ es ];
  },
)

-- A Reset in the discovery service forgets the mapper, its generations, the probes and the icon,
-- and frees one block for each listed probe and one for the icon, if there is one; it sends nothing.
pub handle_frame-reset :
    (p : Port) (h : DemultiplexHeader) (rest : List ℕ) (w : World)
    → h.opcode ≡ opcode_reset
    → h.tos ≡ tos_discovery
    → handle_frame p (header_bytes h ++ rest) w
      ≡ some (
        tt,
        record {
          st = record w.st {
            see_list = [];
            see_list_count = 0;
            small_icon = none;
            mapper_known = false;
            mapper_seq = 0;
            mapper_gen_topology = 0;
            mapper_gen_quick = 0;
          };
          history = elim w.st.small_icon [
            | none ↦ replicate (length w.st.see_list) free ++ w.history
            | some icon ↦ free ∷ (replicate (length w.st.see_list) free ++ w.history)
          ];
        },
      )
unfolding handle_frame note_mapper dispatch dispatch_discovery reset_discovery ◌>>=◌ lift get
    lltd_state_clear_seen_probes lltd_state_clear_icon_cache
handle_frame-reset p h rest w op t =
    rw (op, t) (ap (λ (es : List Effect). forgotten w es) (free_probes_lem w.st.see_list w.history))
