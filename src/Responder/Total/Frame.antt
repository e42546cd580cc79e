-- ===== src/Responder/Total/Frame.antt =====
-- Faults of `parseFrame` of lltdResponder/lltdBlock.c: its accesses to the frame, and those of its
-- handlers to the buffers that are allocated for them.
use lltdresponder.Base.{
  ℕ, ◌+◌, ◌*◌, ◌≤◌, ◌≡◌, refl, ap, ◌∙◌, ◌==◌, Bool, true, false, not, some, List, length, arith,
  Option-cases, inl, inr,
}
use lltdresponder.Base.Returns.{Returns}
use lltdresponder.Protocol.{
  opcode_query, opcode_query_large_tlv, opcode_reset, tos_quick_discovery, opcode_emit,
  opcode_discover, opcode_hello, opcode_probe, opcode_train, tos_discovery,
}
use lltdresponder.Wire.Endian.{lltd_ntohs}
use lltdresponder.Wire.Header.{read_u16, header_opcode}
use lltdresponder.Wire.Header.Reads.{get_elem?-some, read_u16-some, read_address-some}
use lltdresponder.Port.{Port, Effect, free, sleep}
use lltdresponder.Tlv.Fits.{Documented}
use lltdresponder.Responder.State.{store_iface, lltd_state_for_iface, mapper_matches, IfaceState, M}
use lltdresponder.Responder.Query.{effective_mtu}
use lltdresponder.Responder.Hello.{send_hello, keep_generation, answer_hello}
use lltdresponder.Responder.Dispatch.{
  parse_frame, note_mapper, dispatch, dispatch_discovery, dispatch_quick_discovery, reset_discovery,
  answer_if_matching, handle_frame,
}
use lltdresponder.Responder.Total.Buffers.{hello_frame_some}
use lltdresponder.Responder.Total.Probes.{parse_emit-Total, parse_probe-Total, parse_query-Total}
use lltdresponder.Responder.Total.LargeTlv.{parse_query_large_tlv-Total}
use lltdresponder.Responder.Total.{
  Total, Total-bind, Total-then, Total-lift, Total-get, Total-if, Total-done, Total-modify,
  Total-perform, Total-return, Total-send, Total-malloc, Total-clear_probes, Total-clear_icon,
}

module _ (p : Port) (frame : List ℕ) where
  module _ (big : 36 ≤ length frame) where
    answer_hello-Total : Documented p → 206 ≤ effective_mtu p → Total (answer_hello p frame)
    unfolding answer_hello send_hello keep_generation
    answer_hello-Total d mtu = Total-bind (Total-malloc p) λ ok.
        Total-if (not ok) (λ t. Total-done)
          (λ t. Total-lift _ (read_address-some frame 24 (omega (arith, big))) λ real b.
            Total-lift _ (read_address-some frame 6 (omega (arith, big))) λ eth c.
              Total-then (Total-modify _) (
                Total-lift _ (read_u16-some p.little frame 30 (omega (arith, big))) λ seq a.
                  Total-then (Total-modify _) (
                    Total-lift _ (read_u16-some p.little frame 32 (omega (arith, big)))
                      λ generation g.
                        Total-lift _ (get_elem?-some frame 15 (omega (arith, big))) λ tos e.
                          Total-then (Total-modify _) (
                            Total-get λ st.
                              Total-lift _
                                (hello_frame_some p (effective_mtu p) eth real _ tos d mtu)
                                λ x h. Total-bind (Total-send p _) λ sent. Total-perform free))))

-- The list of an Emit frame lies inside the frame.
abbrev pub EmitFits : Bool → List ℕ → Type 0
EmitFits little frame =
    (count : ℕ)
    → header_opcode frame ≡ some opcode_emit
    → read_u16 little frame 32 ≡ some count
    → 34 + 14 * lltd_ntohs little count ≤ length frame

module _ (p : Port) (frame : List ℕ) where
  module _ (big : 36 ≤ length frame) (d : Documented p) (mtu : 206 ≤ effective_mtu p) where
    answer_if_matching-Total :
        (wait : M (Unit {0})) → Total wait → Total (answer_if_matching p frame wait)
    unfolding answer_if_matching
    answer_if_matching-Total wait h = Total-get λ st.
        Total-lift _ (read_address-some frame 24 (omega (arith, big))) λ real b.
          Total-if (mapper_matches st real)
            (λ t. Total-then h (answer_hello-Total p frame big d mtu)) (λ t. Total-done)

    reset_discovery-Total : Total reset_discovery
    unfolding reset_discovery
    reset_discovery-Total =
        Total-then Total-clear_probes (Total-then Total-clear_icon (Total-modify _))

    note_mapper-Total : (opcode tos : ℕ) → Total (note_mapper p frame opcode tos)
    unfolding note_mapper
    note_mapper-Total opcode tos =
        Total-if (opcode == opcode_discover)
          (λ t. Total-lift _ (read_u16-some p.little frame 32 (omega (arith, big))) λ generation a.
            Total-lift _ (read_address-some frame 24 (omega (arith, big))) λ real b.
              Total-lift _ (read_address-some frame 6 (omega (arith, big))) λ eth c. Total-get λ st.
                Total-if (not (mapper_matches st real)) (λ u. Total-return false)
                  (λ u. Total-then (Total-modify _) (Total-return true)))
          (λ t.
            Total-if (opcode == opcode_hello)
              (λ u.
                Total-lift _ (read_u16-some p.little frame 32 (omega (arith, big)))
                  λ generation a. Total-return true)
              (λ u. Total-return true))

    dispatch_discovery-Total :
        (opcode : ℕ)
        → header_opcode frame ≡ some opcode
        → EmitFits p.little frame
        → Total (dispatch_discovery p frame opcode)
    unfolding dispatch_discovery
    dispatch_discovery-Total opcode op fits =
        Total-if (opcode == opcode_discover)
          (λ t. answer_if_matching-Total _ (Total-perform (sleep 10)))
          (λ t.
            Total-if (opcode == opcode_emit)
              (λ u.
                parse_emit-Total p frame big
                  λ count c. fits count (op ∙ ap some (ground (arith, u))) c)
              (λ u.
                Total-if (opcode == opcode_train) (λ v. parse_probe-Total p frame big)
                  (λ v.
                    Total-if (opcode == opcode_probe) (λ w. parse_probe-Total p frame big)
                      (λ w.
                        Total-if (opcode == opcode_query)
                          (λ x. parse_query-Total p frame big (omega (arith, mtu)))
                          (λ x.
                            Total-if (opcode == opcode_query_large_tlv)
                              (λ y. parse_query_large_tlv-Total p frame big d)
                              (λ y.
                                Total-if (opcode == opcode_reset) (λ z. reset_discovery-Total)
                                  (λ z. Total-done)))))))

    dispatch_quick_discovery-Total : (opcode : ℕ) → Total (dispatch_quick_discovery p frame opcode)
    unfolding dispatch_quick_discovery
    dispatch_quick_discovery-Total opcode =
        Total-if (opcode == opcode_discover) (λ t. answer_if_matching-Total _ Total-done)
          (λ t.
            Total-if (opcode == opcode_query_large_tlv)
              (λ u. parse_query_large_tlv-Total p frame big d)
              (λ u. Total-if (opcode == opcode_reset) (λ v. Total-modify _) (λ v. Total-done)))

    dispatch-Total :
        (tos opcode : ℕ)
        → header_opcode frame ≡ some opcode
        → EmitFits p.little frame
        → Total (dispatch p frame tos opcode)
    unfolding dispatch
    dispatch-Total tos opcode op fits =
        Total-if (tos == tos_discovery) (λ t. dispatch_discovery-Total opcode op fits)
          (λ t.
            Total-if (tos == tos_quick_discovery) (λ u. dispatch_quick_discovery-Total opcode)
              (λ u. Total-done))

    handle_frame-Total : EmitFits p.little frame → Total (handle_frame p frame)
    unfolding handle_frame
    handle_frame-Total fits =
        Total-lift _ (get_elem?-some frame 17 (omega (arith, big))) λ opcode op.
          Total-lift _ (get_elem?-some frame 15 (omega (arith, big))) λ tos t.
            Total-bind (note_mapper-Total opcode tos)
              λ go_on. Total-if go_on (λ u. dispatch-Total tos opcode op fits) (λ u. Total-done)

    -- Whatever the states and the history are, `parseFrame` returns, without an access outside the frame
    -- or outside a buffer, for every frame of at least 36 bytes whose Emit list, if it is an Emit, lies
    -- inside it, on a platform that keeps to what it documents and has an MTU of at least 206.
    pub parse_frame_returns :
        (ctx : ℕ) (states : List (ℕ × IfaceState)) (history : List Effect)
        → EmitFits p.little frame
        → Returns (parse_frame p (some frame) ctx states history)
    unfolding parse_frame
    parse_frame_returns ctx states history fits =
        elim (Option-cases (lltd_state_for_iface p ctx states history)) [
          | inl no_memory ↦ ((states, history), rw (parse_frame, no_memory) refl)
          | inr ((st, states', history'), e) ↦
              let (x, e') =
                (handle_frame-Total fits).returns (record { st = st; history = history' }) in
              ((store_iface ctx x.1.st states', x.1.history), rw (parse_frame, e, e') refl)
        ]
