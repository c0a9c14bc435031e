-- ===== src/FiveTuple/Examples.antt =====
-- Keys of small flows.
use nethex.Base.{ℕ, ◌≡◌, ◌↔◌, ◌⊎◌, refl}
use nethex.FiveTuple.{FiveTuple, create_bidirectional_tuple}
use nethex.FiveTuple.Symmetry.{create_bidirectional_tuple_iff}

abbrev web : FiveTuple
web = record { src_ip = 5; dest_ip = 9; src_port = 80; dest_port = 4000; protocol = 6 }

web-key : create_bidirectional_tuple 9 5 4000 80 6 ≡ web
unfolding create_bidirectional_tuple
web-key = refl

create_bidirectional_tuple_iff_example :
    (create_bidirectional_tuple 9 5 4000 80 6 ≡ create_bidirectional_tuple 5 9 80 4000 6) ↔ (
      (◌≡◌ {A = ℕ} 6 6)
      × (((◌≡◌ {A = ℕ} 9 5) × (◌≡◌ {A = ℕ} 5 9) × (◌≡◌ {A = ℕ} 4000 80) × (◌≡◌ {A = ℕ} 80 4000))
          ⊎ ((◌≡◌ {A = ℕ} 9 9)
              × (◌≡◌ {A = ℕ} 5 5)
              × (◌≡◌ {A = ℕ} 4000 4000)
              × (◌≡◌ {A = ℕ} 80 80))))
create_bidirectional_tuple_iff_example = create_bidirectional_tuple_iff 9 5 4000 80 6 5 9 80 4000 6
