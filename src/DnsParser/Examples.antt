-- ===== src/DnsParser/Examples.antt =====
-- A message with two questions, the second through a pointer into the first.
use nethex.Base.{
  ℕ, ◌≡◌, refl, List, [], ◌∷◌, ◌≤◌, arith, some, accept, reject, length, All, Returns, Yields,
}
use nethex.Wire.{little}
use nethex.PacketParser.Safety.{IsPacket}
use nethex.DnsParser.{
  DnsQuery, decode_name, decode_loop, follow_pointer, append_label, extract_queries,
}
use nethex.DnsParser.Safety.{NamePost, QueryPost, decode_name-Returns, extract_queries-Yields}
use nethex.DnsParser.Names.{NameAt, root, label, pointer, decode_name-NameAt}
use nethex.DnsParser.Questions.{QuestionsAt, none_left, question, extract_queries-QuestionsAt}

abbrev message : List ℕ
message =
    0x12 ∷ 0x34 ∷ 1 ∷ 0 ∷ 0 ∷ 2 ∷ 0 ∷ 0 ∷ 0 ∷ 0 ∷ 0 ∷ 0
    -- www.ab, type A
    ∷ 3 ∷ 0x77 ∷ 0x77 ∷ 0x77 ∷ 2 ∷ 0x61 ∷ 0x62 ∷ 0 ∷ 0 ∷ 1 ∷ 0 ∷ 1
    -- m.ab, its second label at 16, type AAAA
    ∷ 1 ∷ 0x6D ∷ 0xC0 ∷ 16 ∷ 0 ∷ 28 ∷ 0 ∷ 1 ∷ []

message-IsPacket : IsPacket message 32
message-IsPacket = omega arith

first_name : NameAt message 32 12 0 20 ((0x77 ∷ 0x77 ∷ 0x77 ∷ []) ∷ (0x61 ∷ 0x62 ∷ []) ∷ [])
first_name = label (0x77 ∷ 0x77 ∷ 0x77 ∷ []) refl (omega arith) (omega arith) (omega arith) refl (
    label (0x61 ∷ 0x62 ∷ []) refl (omega arith) (omega arith) (omega arith) refl
      (root (omega arith) refl))

second_name : NameAt message 32 24 1 28 ((0x6D ∷ []) ∷ (0x61 ∷ 0x62 ∷ []) ∷ [])
second_name = label (0x6D ∷ []) refl (omega arith) (omega arith) (omega arith) refl (
    pointer 0 (omega arith) (omega arith) refl (omega arith) (
      label (0x61 ∷ 0x62 ∷ []) refl (omega arith) (omega arith) (omega arith) refl
        (root (omega arith) refl)))

abbrev asked : List DnsQuery
asked =
    record { domain = 0x77 ∷ 0x77 ∷ 0x77 ∷ 0x2E ∷ 0x61 ∷ 0x62 ∷ []; qtype = 1 }
    ∷ record { domain = 0x6D ∷ 0x2E ∷ 0x61 ∷ 0x62 ∷ []; qtype = 28 }
    ∷ []

questions : QuestionsAt message 32 12 asked
questions =
    question first_name (omega arith) (omega arith)
      (question second_name (omega arith) (omega arith) none_left)

-- A pointer to itself is followed sixteen times and then refused.
pointer_loop : decode_name (0xC0 ∷ 0 ∷ []) 2 0 ≡ reject
unfolding decode_name decode_loop follow_pointer append_label
pointer_loop = refl

-- A label that runs over the end.
label_cut : decode_name (3 ∷ 0x77 ∷ []) 2 0 ≡ reject
unfolding decode_name decode_loop follow_pointer append_label
label_cut = refl

decode_name-Returns_example : Returns (NamePost 32 24) (decode_name message 32 24)
decode_name-Returns_example =
    decode_name-Returns message 32 24 (omega arith) (omega arith) (omega arith)

decode_name-NameAt_example :
    decode_name message 32 24
    ≡ accept (record { offset = 28; out_name = 0x6D ∷ 0x2E ∷ 0x61 ∷ 0x62 ∷ [] })
decode_name-NameAt_example = decode_name-NameAt message-IsPacket second_name (omega arith)

extract_queries-Yields_example :
    Yields
      (λ qs. (length qs ≤ 64) × All (QueryPost 32) qs)
      (extract_queries little (some message) 32)
extract_queries-Yields_example = extract_queries-Yields little (some message) 32 message-IsPacket

extract_queries-QuestionsAt_example : extract_queries little (some message) 32 ≡ accept asked
extract_queries-QuestionsAt_example =
    extract_queries-QuestionsAt little message-IsPacket (omega arith) refl (omega arith)
      (omega arith) questions
