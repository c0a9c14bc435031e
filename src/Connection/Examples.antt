-- ===== src/Connection/Examples.antt =====
-- Bypass decisions of small flows.
use nethex.Base.{◌≡◌, refl, false, ltb}
use nethex.Connection.{new_connection, should_bypass, bypass_run}
use nethex.Connection.Bypass.{bypass_after_ten}

tenth : (should_bypass (bypass_run 9 (new_connection 0))).0 ≡ false
unfolding should_bypass bypass_run
tenth = refl

bypass_after_ten_example : (should_bypass (bypass_run 10 (new_connection 7))).0 ≡ ltb 9 10
bypass_after_ten_example = bypass_after_ten 7 10
