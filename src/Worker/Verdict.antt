-- ===== src/Worker/Verdict.antt =====
-- What a worker says of a flow whose packets come among those of others: the verdict of its rules on
-- all that the flow's first ten packets have said, however a signature is cut up between them.
use nethex.Base.{
  ℕ, suc, ◌+◌, ◌^◌, ◌≤◌, ◌<◌, ◌≡◌, refl, sym, ap, subst, ◌∙◌, inl, inr, Bool, true, false, not,
  ◌&&◌, List, [], ◌∷◌, ◌++◌, append-nil, append_assoc, Option, none, some, arith, length, All,
  Bool-cases, accept, Yields, Yields-cases, if◌then◌else◌,
}
use nethex.Wire.{ByteOrder, ParsedPacket}
use nethex.FiveTuple.{FiveTuple}
use nethex.ConnectionTracker.{TrackedFlow, find_flow, flags_of}
use nethex.RuleManager.Signatures.{IsFile}
use nethex.Worker.{Worker, Poll, popped, idle, track, process_packet, collect, round, worker_node}
use nethex.Worker.Envelopes.{slot_of, slots_of, IsEnvelope, IsEnvelopePoll, one_more}
use nethex.Worker.Handling.{payload_in, matches, IsValid}
use nethex.Worker.Safety.{collect-IsValid}
use nethex.Worker.Detection.{own-Yields, other-Yields}
use nethex.Worker.Watching.{
  is_of, says, sends, text_of, count_of, IsWatched, Shows, track-Shows, track-opens,
}

-- A round in which no garbage collection is due.
collect_early :
    (w : Worker) (now : ℕ)
    → w.loop_counter + 1 < 100000
    → collect w now ≡ record w { loop_counter = w.loop_counter + 1 }
unfolding collect
collect_early w now h = ground arith

module _ (rules : Option (List ℕ)) (capacity size : ℕ) (file : IsFile rules) (small : size < 2 ^ 31)
    (o : ByteOrder) (k : FiveTuple) where
  -- The worker after a round, where the flow has said this.
  record Goes (others text : List ℕ) (count : ℕ) (w w' : Worker) : Type 0 where
    valid : IsValid rules capacity size others w'
    counter : w'.loop_counter ≤ w.loop_counter + 1
    buffers : w'.mem_pool.pool ≡ w.mem_pool.pool
    watched : IsWatched rules k text count w'

  collect-Goes :
      (others text : List ℕ) (count now : ℕ) (w w' : Worker)
      → w.loop_counter + 1 < 100000
      → IsValid rules capacity size others w'
      → w'.loop_counter ≡ w.loop_counter
      → w'.mem_pool.pool ≡ w.mem_pool.pool
      → IsWatched rules k text count w'
      → (skip : Bool) → Goes others text count w (if skip then w' else collect w' now)
  unfolding IsWatched
  collect-Goes others text count now w w' early valid counter buffers watched true = record {
    valid = valid;
    counter = omega (arith, counter);
    buffers = buffers;
    watched = watched;
  }
  collect-Goes others text count now w w' early valid counter buffers watched false =
      let same = collect_early w' now (omega (arith, counter)) in
      record {
        valid = collect-IsValid rules capacity size file small o w' others now valid;
        counter = rw same (omega (arith, counter));
        buffers = rw same buffers;
        watched = rw same watched;
      }

  Goes-same :
      {others text text' : List ℕ} {count count' : ℕ} {w w' : Worker}
      → text ≡ text'
      → count ≡ count'
      → Goes others text count w w'
      → Goes others text' count' w w'
  Goes-same {others} {text} {text'} {count} {count'} {w} {w'} e c g =
      subst (λ (n : ℕ). Goes others text' n w w') c
        (subst (λ (x : List ℕ). Goes others x count w w') e g)

  module _ (others text : List ℕ) (count : ℕ) (w : Worker) (p : ParsedPacket) (now : ℕ)
      (valid : IsValid rules capacity size (slot_of p others) w) (envelope : IsEnvelope size p)
      (early : w.loop_counter + 1 < 100000) where
    -- A packet of the flow, that the tracker has found or opened.
    own-Goes :
        count < 10
        → is_of k p ≡ true
        → Shows rules k text count (track w.tracker p now).0 (track w.tracker p now).1
        → Yields
            (Goes others (text ++ payload_in w.mem_pool.pool p) (suc count) w)
            (round o w (popped p now))
    unfolding round
    own-Goes few own shows =
        let ((skip, w'), runs, (valid', aside, watched)) =
          Yields-cases _ (process_packet o w p now) (
            own-Yields rules capacity size file small o k p now others w valid envelope text count
              few own shows) in
        rw (round, runs)
          (collect-Goes others (text ++ payload_in w.mem_pool.pool p) (suc count) now w w' early
            valid' aside.counter aside.buffers watched skip)

    other-Goes :
        is_of k p ≡ false
        → IsWatched rules k text count w
        → Yields (Goes others text count w) (round o w (popped p now))
    unfolding round IsWatched
    other-Goes strange (flow, here, knows) =
        let ((skip, w'), runs, (valid', aside, same)) =
          Yields-cases _ (process_packet o w p now) (
            other-Yields rules capacity size file small o k p now others w valid envelope
              strange) in
        rw (round, runs)
          (collect-Goes others text count now w w' early valid' aside.counter aside.buffers
            (flow, same ∙ here, knows) skip)

  round-Goes :
      (others text : List ℕ) (count : ℕ) (w : Worker) (poll : Poll)
      → IsValid rules capacity size (slots_of (poll ∷ []) others) w
      → IsEnvelopePoll size poll
      → w.loop_counter + 1 < 100000
      → count + sends k poll ≤ 10
      → IsWatched rules k text count w
      → Yields
          (Goes others (text ++ says k w.mem_pool.pool poll) (count + sends k poll) w)
          (round o w poll)
  unfolding round IsWatched
  round-Goes others text count w (idle now) valid envelope early few watched =
      Goes-same (sym (append-nil text)) (omega arith)
        (collect-Goes others text count now w w early valid refl refl watched false)
  round-Goes others text count w (popped p now) valid envelope early few watched =
      elim (Bool-cases (is_of k p)) [
        | inl own ↦
            let (w', runs, goes) = Yields-cases _ (round o w (popped p now)) (
              own-Goes others text count w p now valid envelope early (ground (arith, few, own)) own
                (track-Shows rules k p now own w text count watched)) in
            rw (runs, own) (Goes-same refl (omega arith) goes)
        | inr strange ↦
            let (w', runs, goes) =
              Yields-cases _ (round o w (popped p now))
                (other-Goes others text count w p now valid envelope early strange watched) in
            rw (runs, strange) (Goes-same (sym (append-nil text)) (omega arith) goes)
      ]

  IsWatched-same :
      {text text' : List ℕ} {count count' : ℕ} (w : Worker)
      → text ≡ text'
      → count ≡ count'
      → IsWatched rules k text count w
      → IsWatched rules k text' count' w
  IsWatched-same {text} {text'} {count} {count'} w e c watched =
      subst (λ (n : ℕ). IsWatched rules k text' n w) c
        (subst (λ (x : List ℕ). IsWatched rules k x count w) e watched)

  worker_node-IsWatched :
      (others text : List ℕ) (count : ℕ) (w : Worker) (polls : List Poll)
      → IsValid rules capacity size (slots_of polls others) w
      → All (IsEnvelopePoll size) polls
      → w.loop_counter + length polls < 100000
      → count + count_of k polls ≤ 10
      → IsWatched rules k text count w
      → (w' : Worker) × (worker_node o w polls ≡ accept w')
        × IsWatched rules k (text ++ text_of k w.mem_pool.pool polls) (count + count_of k polls) w'
  unfolding worker_node
  worker_node-IsWatched others text count w [] valid envelopes early few watched =
      (w, refl, IsWatched-same w (sym (append-nil text)) (omega arith) watched)
  worker_node-IsWatched others text count w (poll ∷ polls) valid envelopes early few watched =
      let (w', runs, goes) = Yields-cases _ (round o w poll) (
        round-Goes (slots_of polls others) text count w poll
          (subst (λ held. IsValid rules capacity size held w) (one_more poll polls others) valid)
          envelopes.0 (omega (arith, early)) (omega (arith, few)) watched) in
      let (final, rest, seen) =
        worker_node-IsWatched others (text ++ says k w.mem_pool.pool poll) (count + sends k poll) w'
          polls goes.valid envelopes.1 (omega (arith, early, goes.counter)) (omega (arith, few))
          goes.watched in
      (
        final,
        rw (worker_node, runs) rest,
        IsWatched-same final
            (ap (λ (b : List (List ℕ)). (text ++ says k w.mem_pool.pool poll) ++ text_of k b polls)
                goes.buffers
              ∙ append_assoc text (says k w.mem_pool.pool poll) (text_of k w.mem_pool.pool polls))
            (omega arith) seen,
      )

  -- From a valid state in which the flow is not in the table, and with envelopes as the ingestion
  -- thread makes them, each with its slot lent to it: a flow that a SYN opens, and of whose packets
  -- the worker sees at most ten, is called malicious at the end exactly if a signature of the rules
  -- occurs in the joined payloads of its packets, however it is cut up between them, whatever
  -- packets of other flows come in between, and whatever bytes they hold. The worker does not fault
  -- on the way. The rounds are too few for a garbage collection.
  pub worker_node-verdict :
      (w : Worker) (p : ParsedPacket) (now : ℕ) (polls : List Poll) (others : List ℕ)
      → IsValid rules capacity size (slots_of (popped p now ∷ polls) others) w
      → All (IsEnvelopePoll size) (popped p now ∷ polls)
      → is_of k p ≡ true
      → find_flow k w.tracker.flow_table ≡ none
      → (flags_of p.tcp_flags).is_syn && not (flags_of p.tcp_flags).is_ack ≡ true
      → count_of k (popped p now ∷ polls) ≤ 10
      → w.loop_counter + length (popped p now ∷ polls) < 100000
      → (w' : Worker) × (flow : TrackedFlow) × (worker_node o w (popped p now ∷ polls) ≡ accept w')
        × (find_flow k w'.tracker.flow_table ≡ some flow)
        × (flow.conn.is_malicious
            ≡ matches rules [] (text_of k w.mem_pool.pool (popped p now ∷ polls)))
  unfolding worker_node IsWatched
  worker_node-verdict w p now polls others valid envelopes own free syn few early =
      let one : count_of k (popped p now ∷ polls) ≡ 1 + count_of k polls = rw own refl in
      let (w', runs, goes) = Yields-cases _ (round o w (popped p now)) (
        own-Goes (slots_of polls others) [] 0 w p now
          (subst (λ held. IsValid rules capacity size held w) (one_more (popped p now) polls others)
            valid)
          envelopes.0 (omega (arith, early)) (omega arith) own
          (track-opens rules k p now own w free syn)) in
      let (final, rest, (flow, here, knows)) =
        worker_node-IsWatched others (payload_in w.mem_pool.pool p) 1 w' polls goes.valid
          envelopes.1 (omega (arith, early, goes.counter)) (omega (arith, few, one)) goes.watched in
      (
        final,
        flow,
        rw (worker_node, runs) rest,
        here,
        knows.verdict
            ∙ ap
                (λ (b : List (List ℕ)).
                  matches rules [] (payload_in w.mem_pool.pool p ++ text_of k b polls))
                goes.buffers
            ∙ ap (λ (x : List ℕ). matches rules [] (x ++ text_of k w.mem_pool.pool polls))
                (sym (rw own refl)),
      )
