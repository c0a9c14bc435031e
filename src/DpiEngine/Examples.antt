-- ===== src/DpiEngine/Examples.antt =====
-- An engine with one signature, and a request with an escape byte in a header.
use nethex.Base.{
  ℕ, ◌≡◌, refl, true, List, [], ◌∷◌, ◌++◌, Option, none, some, accept, arith, take, Yields,
}
use nethex.Wire.{little}
use nethex.FiveTuple.{FiveTuple}
use nethex.PacketParser.Safety.{IsPacket}
use nethex.PatternMatcher.{Trie}
use nethex.RuleManager.{content_keyword}
use nethex.DpiEngine.{
  init, inspect_payload, http_request, sanitize_for_log, header_value, parse_http, host_text,
}
use nethex.DpiEngine.Detection.{Inspected, inspect_payload-Inspected}

abbrev tuple : FiveTuple
tuple = record { src_ip = 1; dest_ip = 2; src_port = 4000; dest_port = 80; protocol = 6 }

-- content:"evil"
abbrev rules : Option (List ℕ)
rules = some (content_keyword ++ (0x65 ∷ 0x76 ∷ 0x69 ∷ 0x6C ∷ 0x22 ∷ []))

-- GET il Host: a, and an escape byte
abbrev request : List ℕ
request = 0x47 ∷ 0x45 ∷ 0x54 ∷ 0x20 ∷ (host_text ++ (0x61 ∷ 0x1B ∷ 0x0D ∷ 0x0A ∷ []))

logged : parse_http request ≡ (true, http_request (some (0x61 ∷ 0x2E ∷ [])) none ∷ [])
unfolding parse_http header_value sanitize_for_log
logged = refl

request-IsPacket : IsPacket request 14
request-IsPacket = omega arith

inspect_payload-Inspected_example :
    (scanner : Trie) × (init rules ≡ accept scanner)
    × Yields
        (Inspected rules [] (take 14 request) 0)
        (inspect_payload scanner little (some request) 14 tuple 0 0)
inspect_payload-Inspected_example =
    inspect_payload-Inspected rules little tuple [] 0 0 (omega arith) request-IsPacket refl
