-- ===== src/Connection/Bypass.antt =====
-- When a flow leaves inspection.
use nethex.Base.{ℕ, zero, suc, ◌+◌, ◌≤◌, ◌<◌, ◌≡◌, ◌⊎◌, refl, ◌∙◌, true, false, arith, ltb}
use nethex.Connection.{Connection, should_bypass, bypass_run, bypass_threshold, new_connection}

-- A flow is bypassed only after its count has passed the threshold, and not while marked.
abbrev pub CountsRight : Connection → Type 0
CountsRight c = (c.is_bypassed ≡ (ltb bypass_threshold c.packet_count)) × (c.packet_count ≤ 11)

should_bypass-CountsRight :
    (c : Connection)
    → c.is_malicious ≡ false
    → CountsRight c
    → CountsRight (should_bypass c).1
      × ((should_bypass c).1.is_malicious ≡ false)
      × ((c.is_bypassed ≡ true) ⊎ ((should_bypass c).1.packet_count ≡ c.packet_count + 1))
      × (c.is_bypassed ≡ true → (should_bypass c).1.packet_count ≡ c.packet_count)
unfolding should_bypass
should_bypass-CountsRight c e v = ground arith

bypass_run-count :
    (n : ℕ) (c : Connection)
    → c.is_malicious ≡ false
    → CountsRight c
    → (should_bypass (bypass_run n c)).0 ≡ ltb bypass_threshold (c.packet_count + n + 1)
unfolding bypass_run
bypass_run-count zero c e v = unfold should_bypass in ground arith
bypass_run-count (suc n) c e v =
    let (w, m, count, same) = should_bypass-CountsRight c e v in
    let rest = bypass_run-count n (should_bypass c).1 m w in ground (arith, rest, w, v, count)

-- Of a new flow that no inspection marks as malicious, the first ten packets are inspected and
-- every later one is bypassed.
pub bypass_after_ten : (now n : ℕ) → (should_bypass (bypass_run n (new_connection now))).0 ≡ ltb 9 n
bypass_after_ten now n =
    bypass_run-count n (new_connection now) refl (refl, omega arith) ∙ ground arith

-- A marked flow is inspected for ever, unless it was bypassed before; the call changes nothing.
pub malicious_inspected :
    (c : Connection) → c.is_malicious ≡ true → c.is_bypassed ≡ false → should_bypass c ≡ (false, c)
unfolding should_bypass
malicious_inspected c m b = ground arith

-- Fewer than ten packets have been counted: this one is inspected.
pub should_bypass-early :
    (c : Connection) (count : ℕ)
    → count < 10
    → c.is_bypassed ≡ false
    → c.packet_count ≤ count
    → ((should_bypass c).0 ≡ false)
      × ((should_bypass c).1.is_bypassed ≡ false)
      × ((should_bypass c).1.packet_count ≤ suc count)
      × ((should_bypass c).1.is_malicious ≡ c.is_malicious)
unfolding should_bypass
should_bypass-early c count h e le = ground arith
