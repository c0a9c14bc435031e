-- ===== src/Connection.antt =====
-- include/connection.h and include/fast_path.h: the state of one flow, and when it is bypassed.
pub mod Bypass
mod Examples
use nethex.Base.{ℕ, zero, suc, ◌+◌, ◌%◌, ◌^◌, Bool, true, false, ltb, if◌then◌else◌}

pub data TcpState : Type 0 where
  unknown syn_sent syn_rcvd established fin_wait closed : TcpState

-- Time points are in nanoseconds of the steady clock.
pub record Connection : Type 0 where
  pub state : TcpState
  pub total_bytes : ℕ
  pub total_packets : ℕ
  pub first_seen : ℕ
  pub last_seen : ℕ
  pub packet_count : ℕ
  pub is_bypassed : Bool
  pub is_malicious : Bool
  pub ac_state : ℕ
  pub l7_protocol : ℕ

-- `Connection()` at the time `now`.
abbrev pub new_connection : ℕ → Connection
new_connection now = record {
  state = unknown;
  total_bytes = 0;
  total_packets = 0;
  first_seen = now;
  last_seen = now;
  packet_count = 0;
  is_bypassed = false;
  is_malicious = false;
  ac_state = 0;
  l7_protocol = 0;
}

abbrev pub bypass_threshold : ℕ
bypass_threshold = 10

-- `FastPath::should_bypass`; `packet_count` is a `uint32_t`.
unfoldable pub should_bypass : Connection → Bool × Connection
should_bypass conn =
    if conn.is_bypassed
    then (true, conn)
    else if conn.is_malicious
    then (false, conn)
    else let counted : Connection = record conn {
      packet_count = (conn.packet_count + 1) % 2 ^ 32;
    } in
      if ltb bypass_threshold counted.packet_count
      then (true, record counted { is_bypassed = true })
      else (false, counted)

-- The answers for the next `n` packets of a flow that no inspection marks in between.
pub bypass_run : ℕ → Connection → Connection
bypass_run zero conn = conn
bypass_run (suc n) conn = bypass_run n (should_bypass conn).1
