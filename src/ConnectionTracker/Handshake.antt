-- ===== src/ConnectionTracker/Handshake.antt =====
-- The TCP state machine over the packets of one flow.
use nethex.Base.{ℕ, ◌≤◌, ◌≡◌, ◌≢◌, refl, true, false, List, [], ◌∷◌, arith, ◌⊎◌}
use nethex.Connection.{TcpState, unknown, syn_sent, syn_rcvd, established, fin_wait, closed}
use nethex.ConnectionTracker.{Flags, next_state}

-- The states after the packets of a list.
unfoldable pub run_states : TcpState → List Flags → TcpState
run_states s [] = s
run_states s (f ∷ fs) = run_states (next_state s f) fs

abbrev pub rank : TcpState → ℕ
rank unknown = 0
rank syn_sent = 1
rank syn_rcvd = 2
rank established = 3
rank fin_wait = 4
rank closed = 5

rank-next_state : (s : TcpState) (f : Flags) → rank s ≤ rank (next_state s f)
unfolding next_state
rank-next_state unknown f = ground arith
rank-next_state _ f = ground arith

-- No packet takes a flow back to an earlier state of its life.
pub rank-run_states : (s : TcpState) (fs : List Flags) → rank s ≤ rank (run_states s fs)
unfolding run_states
rank-run_states s [] = omega arith
rank-run_states s (f ∷ fs) = omega (arith, rank-next_state s f, rank-run_states (next_state s f) fs)

-- An acknowledgement stands in the list, and no teardown before it.
abbrev pub Acked : List Flags → Type 0
Acked [] = ⊥
Acked (f ∷ fs) = (f.is_ack ≡ true) ⊎ ((f.is_fin ≡ false) × (f.is_rst ≡ false) × Acked fs)

-- A SYN-ACK stands in the list, no teardown before it, and an acknowledgement follows it.
abbrev pub Shaken : List Flags → Type 0
Shaken [] = ⊥
Shaken (f ∷ fs) =
    ((f.is_syn ≡ true) × (f.is_ack ≡ true) × Acked fs)
    ⊎ ((f.is_fin ≡ false) × (f.is_rst ≡ false) × Shaken fs)

closed-run_states : (fs : List Flags) → run_states closed fs ≡ closed
unfolding run_states next_state
closed-run_states [] = refl
closed-run_states (f ∷ fs) = ground (arith, closed-run_states fs)

not-closed : (fs : List Flags) → run_states closed fs ≢ established
not-closed fs e = ground (arith, closed-run_states fs)

Acked-of_established : (fs : List Flags) → run_states syn_rcvd fs ≡ established → Acked fs
unfolding run_states next_state
Acked-of_established [] e = cc
Acked-of_established (f ∷ fs) e = ground (arith, Acked-of_established fs, not-closed fs)

-- A flow is ESTABLISHED only after its SYN was answered by a SYN-ACK and that acknowledged, with
-- no FIN or RST before either.
pub Shaken-of_established : (fs : List Flags) → run_states syn_sent fs ≡ established → Shaken fs
unfolding run_states next_state
Shaken-of_established [] e = cc
Shaken-of_established (f ∷ fs) e =
    ground (arith, Shaken-of_established fs, Acked-of_established fs, not-closed fs)
