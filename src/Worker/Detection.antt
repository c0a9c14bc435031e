-- ===== src/Worker/Detection.antt =====
-- One packet in a worker that follows a flow: its own, or another.
use nethex.Base.{
  ℕ, suc, ◌^◌, ◌<◌, ◌≡◌, sym, ap, subst, ◌∙◌, inl, inr, Bool, true, false, List, ◌++◌, Option,
  Option-cases, Yields, Yields-cases,
}
use nethex.Wire.{ByteOrder, ParsedPacket}
use nethex.FiveTuple.{FiveTuple, same_tuple}
use nethex.Connection.Bypass.{should_bypass-early}
use nethex.ConnectionTracker.{ConnectionTracker, find_flow, write_conn}
use nethex.ConnectionTracker.Lookups.{write_conn_self, write_conn-other}
use nethex.RuleManager.Signatures.{IsFile}
use nethex.Worker.{Worker, tuple_of, track, inspect_flow, inspect_stateless, process_packet}
use nethex.Worker.Envelopes.{slot_of, IsEnvelope}
use nethex.Worker.Handling.{
  payload_in, KeepsAside, IsReached, IsValid, inspect_stateless-Yields, inspect_flow-Yields,
}
use nethex.Worker.Safety.{track-IsScanned}
use nethex.Worker.Watching.{
  is_of, own_tuple, Knows, marked-Knows, IsWatched, Shows, track-other, track-shown,
}

module _ (rules : Option (List ℕ)) where
  module _ (capacity size : ℕ) (file : IsFile rules) (small : size < 2 ^ 31) (o : ByteOrder)
      (k : FiveTuple) (p : ParsedPacket) (now : ℕ) (others : List ℕ) (w : Worker)
      (valid : IsValid rules capacity size (slot_of p others) w)
      (envelope : IsEnvelope size p) where
    -- A packet of the flow adds what it says.
    pub own-Yields :
        (text : List ℕ) (count : ℕ)
        → count < 10
        → is_of k p ≡ true
        → Shows rules k text count (track w.tracker p now).0 (track w.tracker p now).1
        → Yields
            (λ (r : Bool × Worker).
              IsValid rules capacity size others r.1
              × KeepsAside w r.1
              × IsWatched rules k (text ++ payload_in w.mem_pool.pool p) (suc count) r.1)
            (process_packet o w p now)
    unfolding process_packet Shows IsWatched
    own-Yields text count few own (flow, shown, there, v) =
        let (tcp, same) = own_tuple k p own in
        let scanned =
          (track-IsScanned rules capacity size file small o w.tracker p now valid.scanned).1 in
        let ((bypassed, w'), runs, (valid', aside, (conn, written, judged))) =
          Yields-cases _ (inspect_flow o w p (track w.tracker p now).1 flow.conn) (
            inspect_flow-Yields rules capacity size file small o w p others _ flow.conn text valid
              envelope scanned v.state) in
        let full = (should_bypass-early flow.conn count few v.inspected v.few).0 in
        let (i, made, found) = judged full in
        let kept : Knows rules (text ++ payload_in w.mem_pool.pool p) (suc count) conn =
          subst (Knows rules (text ++ payload_in w.mem_pool.pool p) (suc count)) (sym made) (
            marked-Knows rules text (payload_in w.mem_pool.pool p) count flow.conn i few v found) in
        rw (process_packet, shown, runs)
          (
            valid',
            aside,
            (
              record flow { conn = conn },
              ap (λ (t : ConnectionTracker). find_flow k t.flow_table) written
                  ∙ ap
                      (λ (j : FiveTuple).
                        find_flow k (write_conn (track w.tracker p now).1 j conn).flow_table)
                      same
                  ∙ write_conn_self (track w.tracker p now).1 k flow conn there,
              kept,
            ),
          )

    -- A packet of another flow, or of none, does not touch it.
    pub other-Yields :
        is_of k p ≡ false
        → Yields
            (λ (r : Bool × Worker).
              IsValid rules capacity size others r.1
              × KeepsAside w r.1
              × (find_flow k r.1.tracker.flow_table ≡ find_flow k w.tracker.flow_table))
            (process_packet o w p now)
    unfolding process_packet
    other-Yields strange =
        let (shown, scanned) =
          track-IsScanned rules capacity size file small o w.tracker p now valid.scanned in
        elim (Option-cases (track w.tracker p now).0) [
          | inl e ↦
              let ((bypassed, w'), runs, (valid', aside, same)) =
                Yields-cases _ (inspect_stateless o w p (track w.tracker p now).1) (
                  inspect_stateless-Yields rules capacity size file small o w p others _ valid
                    envelope scanned) in
              rw (process_packet, e, runs)
                (
                  valid',
                  aside,
                  ap (λ (t : ConnectionTracker). find_flow k t.flow_table) same
                      ∙ track-other rules k p now w strange,
                )
          | inr (conn, e) ↦
              let tcp = track-shown rules w.tracker p now e in
              let (text, at) : IsReached rules conn.ac_state = rw e at shown in
              let foreign : same_tuple (tuple_of p) k ≡ false = rw tcp at strange in
              let ((bypassed, w'), runs, (valid', aside, (conn', written, judged))) =
                Yields-cases _ (inspect_flow o w p (track w.tracker p now).1 conn) (
                  inspect_flow-Yields rules capacity size file small o w p others _ conn text valid
                    envelope scanned at) in
              rw (process_packet, e, runs)
                (
                  valid',
                  aside,
                  ap (λ (t : ConnectionTracker). find_flow k t.flow_table) written
                      ∙ write_conn-other (track w.tracker p now).1 k (tuple_of p) foreign conn'
                      ∙ track-other rules k p now w strange,
                )
        ]
