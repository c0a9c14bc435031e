-- ===== src/FiveTuple/Symmetry.antt =====
-- The key of a flow: equality, independence of direction, and nothing else is identified.
use nethex.Base.{ℕ, ◌≤◌, ◌<◌, ◌≡◌, ◌↔◌, ◌⊎◌, true, arith}
use nethex.FiveTuple.{FiveTuple, same_tuple, create_bidirectional_tuple}

-- `operator==` decides equality of keys.
pub same_tuple_iff : (a b : FiveTuple) → (same_tuple a b ≡ true) ↔ (a ≡ b)
unfolding same_tuple
same_tuple_iff a b = (λ h. ground arith, λ e. ground arith)

-- The two directions of a flow have one key.
pub create_bidirectional_tuple_symm :
    (s d sp dp proto : ℕ)
    → create_bidirectional_tuple s d sp dp proto ≡ create_bidirectional_tuple d s dp sp proto
unfolding create_bidirectional_tuple
create_bidirectional_tuple_symm s d sp dp proto = ground arith

-- A key names its endpoints in rising order.
pub create_bidirectional_tuple_ordered :
    (s d sp dp proto : ℕ)
    → let t = create_bidirectional_tuple s d sp dp proto in
      (t.src_ip < t.dest_ip) ⊎ ((t.src_ip ≡ t.dest_ip) × (t.src_port ≤ t.dest_port))
unfolding create_bidirectional_tuple
create_bidirectional_tuple_ordered s d sp dp proto = ground arith

-- Two packets have one key exactly when they agree on the protocol and on the two endpoints, in
-- the same or in the opposite direction.
pub create_bidirectional_tuple_iff :
    (s d sp dp proto s' d' sp' dp' proto' : ℕ)
    → (create_bidirectional_tuple s d sp dp proto ≡ create_bidirectional_tuple s' d' sp' dp' proto')
      ↔ ((proto ≡ proto')
          × (((s ≡ s') × (d ≡ d') × (sp ≡ sp') × (dp ≡ dp'))
              ⊎ ((s ≡ d') × (d ≡ s') × (sp ≡ dp') × (dp ≡ sp'))))
unfolding create_bidirectional_tuple
create_bidirectional_tuple_iff s d sp dp proto s' d' sp' dp' proto' =
    (λ h. ground arith, λ h. ground arith)
