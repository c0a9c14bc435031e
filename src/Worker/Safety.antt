-- ===== src/Worker/Safety.antt =====
-- A worker handles every packet without a fault, and gives back the slot of each, once.
use nethex.Base.{
  ℕ, ◌+◌, ◌%◌, ◌^◌, ◌<◌, refl, subst, inl, inr, Bool, List, [], ◌∷◌, Option, All, ◌==◌, leb,
  Bool-cases, Option-cases, Yields, Yields-cases,
}
use nethex.Wire.{ByteOrder, ParsedPacket}
use nethex.ConnectionTracker.{ConnectionTracker}
use nethex.ConnectionTracker.Scanned.{
  IsScanned, ShowsScanned, process_tcp_packet-IsScanned, evict_stale_sessions-IsScanned,
}
use nethex.RuleManager.Signatures.{IsFile}
use nethex.Worker.Handling.{IsReached, IsValid, inspect_stateless-Yields, inspect_flow-Yields}
use nethex.Worker.{
  Worker, Poll, popped, idle, tuple_of, track, inspect_flow, inspect_stateless, process_packet,
  collect, round, worker_node,
}
use nethex.Worker.Envelopes.{one_more, slot_of, slots_of, IsEnvelope, IsEnvelopePoll}

module _ (rules : Option (List ℕ)) (capacity size : ℕ) where
  module _ (file : IsFile rules) (small : size < 2 ^ 31) (o : ByteOrder) where
    pub track-IsScanned :
        (tracker : ConnectionTracker) (p : ParsedPacket) (now : ℕ)
        → IsScanned (IsReached rules) tracker
        → ShowsScanned (IsReached rules) (track tracker p now).0
          × IsScanned (IsReached rules) (track tracker p now).1
    track-IsScanned tracker p now h = elim (Bool-cases (p.protocol == 6)) [
      | inl tcp ↦
          rw (track, tcp, ShowsScanned)
            (process_tcp_packet-IsScanned (IsReached rules) tracker (tuple_of p) p.tcp_flags
              p.payload_length now ([], refl) h)
      | inr other ↦ rw (track, other, ShowsScanned) (tt, h)
    ]

    -- A packet that a worker has taken from its queue is handled without a fault, whatever its bytes;
    -- its slot, if it has one, is back in the pool exactly once, bypassed or not, while all others
    -- are held as before; and each connection's scanner state stays one that the rules' machine has
    -- after some text.
    pub process_packet-Yields :
        (w : Worker) (p : ParsedPacket) (others : List ℕ) (now : ℕ)
        → IsValid rules capacity size (slot_of p others) w
        → IsEnvelope size p
        → Yields
            (λ (r : Bool × Worker). IsValid rules capacity size others r.1)
            (process_packet o w p now)
    unfolding process_packet
    process_packet-Yields w p others now v envelope =
        let (shown, scanned) = track-IsScanned w.tracker p now v.scanned in
        elim (Option-cases (track w.tracker p now).0) [
          | inl e ↦
              let (r, runs, both) =
                Yields-cases _ (inspect_stateless o w p (track w.tracker p now).1) (
                  inspect_stateless-Yields rules capacity size file small o w p others _ v envelope
                    scanned) in
              rw (process_packet, e, runs) both.0
          | inr (conn, e) ↦
              let (text, at) : IsReached rules conn.ac_state = rw e at shown in
              let (r, runs, both) =
                Yields-cases _ (inspect_flow o w p (track w.tracker p now).1 conn) (
                  inspect_flow-Yields rules capacity size file small o w p others _ conn text v
                    envelope scanned at) in
              rw (process_packet, e, runs) both.0
        ]

    pub collect-IsValid :
        (w : Worker) (held : List ℕ) (now : ℕ)
        → IsValid rules capacity size held w
        → IsValid rules capacity size held (collect w now)
    unfolding collect
    collect-IsValid w held now v = elim (Bool-cases (leb 100000 ((w.loop_counter + 1) % 2 ^ 32))) [
      | inl due ↦
          rw (collect, due)
            (record {
              built = v.built;
              scanned = evict_stale_sessions-IsScanned (IsReached rules) w.tracker now v.scanned;
              balanced = v.balanced;
              buffers = v.buffers;
            })
      | inr not_yet ↦
          rw (collect, not_yet)
            (record {
              built = v.built;
              scanned = v.scanned;
              balanced = v.balanced;
              buffers = v.buffers;
            })
    ]

    pub round-Yields :
        (w : Worker) (poll : Poll) (others : List ℕ)
        → IsValid rules capacity size (slots_of (poll ∷ []) others) w
        → IsEnvelopePoll size poll
        → Yields (IsValid rules capacity size others) (round o w poll)
    unfolding round
    round-Yields w (idle now) others v envelope = collect-IsValid w others now v
    round-Yields w (popped p now) others v envelope =
        let ((bypassed, w'), runs, v') =
          Yields-cases _ (process_packet o w p now)
            (process_packet-Yields w p others now v envelope) in
        elim (Bool-cases bypassed) [
          | inl skip ↦ rw (round, runs, skip) v'
          | inr on ↦ rw (round, runs, on) (collect-IsValid w' others now v')
        ]

    -- Over rounds whose packets' slots are all lent to them at the start, from a valid state, the
    -- worker never faults, and at the end those slots are back in the pool, each once.
    pub worker_node-Yields :
        (w : Worker) (polls : List Poll) (others : List ℕ)
        → IsValid rules capacity size (slots_of polls others) w
        → All (IsEnvelopePoll size) polls
        → Yields (IsValid rules capacity size others) (worker_node o w polls)
    unfolding worker_node
    worker_node-Yields w [] others v envelopes = v
    worker_node-Yields w (poll ∷ polls) others v envelopes =
        let (w', runs, v') =
          Yields-cases (IsValid rules capacity size (slots_of polls others)) (round o w poll) (
            round-Yields w poll (slots_of polls others)
              (subst (λ held. IsValid rules capacity size held w) (one_more poll polls others) v)
              envelopes.0) in
        rw (worker_node, runs) (worker_node-Yields w' polls others v' envelopes.1)
