-- ===== src/Worker/Watching.antt =====
-- What is followed of one flow: its packets among the polls, and what its connection knows of them.
use nethex.Base.{
  ℕ, suc, ◌+◌, ◌≤◌, ◌<◌, ◌≡◌, refl, sym, ap, ap₂, subst, ◌∙◌, inl, inr, Bool, true, false, not,
  ◌||◌, ◌&&◌, List, [], ◌∷◌, ◌++◌, Option, none, some, arith, ◌==◌, if◌then◌else◌, Bool-cases,
}
use nethex.Wire.{ParsedPacket}
use nethex.FiveTuple.{FiveTuple, same_tuple}
use nethex.FiveTuple.Symmetry.{same_tuple_iff}
use nethex.Connection.{Connection, new_connection, should_bypass}
use nethex.Connection.Bypass.{should_bypass-early}
use nethex.ConnectionTracker.{
  TrackedFlow, ConnectionTracker, find_flow, flags_of, update_conn, opened_conn,
}
use nethex.ConnectionTracker.Lookups.{
  SameInspection, update_conn-SameInspection, opened_conn-SameInspection, process_tcp_packet_self,
  process_tcp_packet-other, process_tcp_packet-opens,
}
use nethex.PatternMatcher.Words.{occurrences}
use nethex.PatternMatcher.Search.{occurrences-append}
use nethex.RuleManager.Signatures.{file_signatures}
use nethex.DpiEngine.{no_alerts, Inspection}
use nethex.Worker.{Worker, Poll, popped, idle, tuple_of, track, marked}
use nethex.Worker.Handling.{payload_in, StateAfter, matches, Scans}

-- Is the packet one of the flow?
abbrev pub is_of : FiveTuple → ParsedPacket → Bool
is_of k p = p.protocol == 6 && same_tuple (tuple_of p) k

pub own_tuple :
    (k : FiveTuple) (p : ParsedPacket)
    → is_of k p ≡ true
    → ((p.protocol == 6) ≡ true) × (tuple_of p ≡ k)
own_tuple k p own = ground (arith, same_tuple_iff (tuple_of p) k)

-- What a poll says of the flow, and whether it counts.
abbrev pub says : FiveTuple → List (List ℕ) → Poll → List ℕ
says k buffers (idle now) = []
says k buffers (popped p now) = if is_of k p then payload_in buffers p else []

abbrev pub sends : FiveTuple → Poll → ℕ
sends k (idle now) = 0
sends k (popped p now) = if is_of k p then 1 else 0

-- What the flow's packets say together, and how many there are.
abbrev pub text_of : FiveTuple → List (List ℕ) → List Poll → List ℕ
text_of k buffers [] = []
text_of k buffers (poll ∷ polls) = says k buffers poll ++ text_of k buffers polls

abbrev pub count_of : FiveTuple → List Poll → ℕ
count_of k [] = 0
count_of k (poll ∷ polls) = sends k poll + count_of k polls

no_alerts-append :
    (xs ys : List (List ℕ))
    → not (no_alerts (xs ++ ys)) ≡ (not (no_alerts xs) || not (no_alerts ys))
no_alerts-append [] ys = refl
no_alerts-append (x ∷ xs) ys = refl

module _ (rules : Option (List ℕ)) where
  matches-append :
      (before now : List ℕ)
      → matches rules [] (before ++ now) ≡ (matches rules [] before || matches rules before now)
  matches-append before now =
      ap (λ (x : List (List ℕ)). not (no_alerts x))
        (occurrences-append (file_signatures rules) [] before now)
      ∙ no_alerts-append (occurrences (file_signatures rules) [] before)
          (occurrences (file_signatures rules) before now)

  -- What a connection knows, when so many of its packets have said this.
  pub record Knows (text : List ℕ) (count : ℕ) (conn : Connection) : Type 0 where
    pub inspected : conn.is_bypassed ≡ false
    pub few : conn.packet_count ≤ count
    pub verdict : conn.is_malicious ≡ matches rules [] text
    pub state : StateAfter rules text conn.ac_state

  -- The next packet is inspected, and adds to the verdict.
  pub marked-Knows :
      (text now : List ℕ) (count : ℕ) (conn : Connection) (i : Inspection)
      → count < 10
      → Knows text count conn
      → Scans rules text now i
      → Knows (text ++ now) (suc count) (marked (should_bypass conn).1 i)
  marked-Knows text now count conn i c v found =
      let (full, inspected, few, same) = should_bypass-early conn count c v.inspected v.few in
      record {
        inspected = inspected;
        few = few;
        verdict =
            ap₂ (λ (a b : Bool). a || b) (same ∙ v.verdict) found.verdict
            ∙ sym (matches-append text now);
        state = found.state;
      }

  unfoldable pub IsWatched : FiveTuple → List ℕ → ℕ → Worker → Type 0
  IsWatched k text count w =
      (flow : TrackedFlow) × (find_flow k w.tracker.flow_table ≡ some flow)
      × Knows text count flow.conn

  -- The tracker shows the flow's connection, and has it in its table.
  unfoldable pub Shows : FiveTuple → List ℕ → ℕ → Option Connection → ConnectionTracker → Type 0
  Shows k text count shown tracker =
      (flow : TrackedFlow) × (shown ≡ some flow.conn)
      × (find_flow k tracker.flow_table ≡ some flow)
      × Knows text count flow.conn

  Knows-SameInspection :
      {text : List ℕ} {count : ℕ} {c d : Connection}
      → SameInspection c d
      → Knows text count c
      → Knows text count d
  Knows-SameInspection {text} {count} same v = record {
    inspected = sym same.is_bypassed ∙ v.inspected;
    few = subst (λ (n : ℕ). n ≤ count) same.packet_count v.few;
    verdict = sym same.is_malicious ∙ v.verdict;
    state = subst (StateAfter rules text) same.ac_state v.state;
  }

  new_connection-Knows : (now : ℕ) → Knows [] 0 (new_connection now)
  new_connection-Knows now = record {
    inspected = refl;
    few = omega arith;
    verdict = refl;
    state = refl;
  }

  module _ (k : FiveTuple) (p : ParsedPacket) (now : ℕ) (own : is_of k p ≡ true) (w : Worker) where
    pub track-Shows :
        (text : List ℕ) (count : ℕ)
        → IsWatched k text count w
        → Shows k text count (track w.tracker p now).0 (track w.tracker p now).1
    unfolding IsWatched Shows
    track-Shows text count (flow, here, v) =
        let (tcp, same) = own_tuple k p own in
        let (shown, there) =
          process_tcp_packet_self w.tracker k p.tcp_flags p.payload_length now flow here in
        rw (track, tcp, same)
          (
            record flow {
              conn = update_conn flow.conn (flags_of p.tcp_flags) p.payload_length now;
            },
            shown,
            there,
            Knows-SameInspection
                (update_conn-SameInspection flow.conn (flags_of p.tcp_flags) p.payload_length now)
                v,
          )

    pub track-opens :
        find_flow k w.tracker.flow_table ≡ none
        → (flags_of p.tcp_flags).is_syn && not (flags_of p.tcp_flags).is_ack ≡ true
        → Shows k [] 0 (track w.tracker p now).0 (track w.tracker p now).1
    unfolding Shows
    track-opens free syn =
        let (tcp, same) = own_tuple k p own in
        let (shown, there) =
          process_tcp_packet-opens w.tracker k p.tcp_flags p.payload_length now free syn in
        rw (track, tcp, same)
          (
            record { conn = opened_conn p.payload_length now; lru_it = w.tracker.next_node },
            shown,
            there,
            Knows-SameInspection (opened_conn-SameInspection p.payload_length now)
                (new_connection-Knows now),
          )

  pub track-other :
      (k : FiveTuple) (p : ParsedPacket) (now : ℕ) (w : Worker)
      → is_of k p ≡ false
      → find_flow k (track w.tracker p now).1.flow_table ≡ find_flow k w.tracker.flow_table
  track-other k p now w strange = elim (Bool-cases (p.protocol == 6)) [
    | inl tcp ↦
        let strange' : same_tuple (tuple_of p) k ≡ false = rw tcp at strange in
        rw (track, tcp)
          (process_tcp_packet-other w.tracker k (tuple_of p) strange' p.tcp_flags p.payload_length
            now)
    | inr other ↦ rw (track, other) refl
  ]

  pub track-shown :
      (tracker : ConnectionTracker) (p : ParsedPacket) (now : ℕ) {conn : Connection}
      → (track tracker p now).0 ≡ some conn
      → (p.protocol == 6) ≡ true
  track-shown tracker p now e = elim (Bool-cases (p.protocol == 6)) [
    | inl tcp ↦ tcp
    | inr other ↦ let nothing : (track tracker p now).0 ≡ none = rw (track, other) refl in cc
  ]
