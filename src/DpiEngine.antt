-- ===== src/DpiEngine.antt =====
-- src/dpi_engine.cpp. What the engine logs is part of its result. The
-- rule file is what can be read of threats.rules. `size_t` is taken to have 64 bits.
pub mod Detection
pub mod HexDump
mod Examples
use nethex.Base.{
  ℕ, zero, suc, ◌+◌, ◌-◌, ◌%◌, ◌^◌, Bool, true, false, not, ◌&&◌, ◌||◌, ◌==◌, leb, List, [], ◌∷◌,
  ◌++◌, map, Option, none, some, Outcome, accept, ◌>>=◌, ◌>>◌, in_array, read, take, length,
  if◌then◌else◌,
}
use nethex.Wire.{ByteOrder}
use nethex.FiveTuple.{FiveTuple}
use nethex.PatternMatcher.{Trie, root_only, build_machine, search}
use nethex.PatternMatcher.Words.{same_bytes}
use nethex.RuleManager.{find, substr, load_rules}
use nethex.SniExtractor.{extract_sni}
use nethex.DnsParser.{DnsQuery, extract_queries}

-- The texts that are logged of a packet.
pub data Event : Type 0 where
  http_request : Option (List ℕ) → Option (List ℕ) → Event
  http_response : Event
  tls_connection : List ℕ → Event
  dns_message : List (List ℕ) → Event

pub record Inspection : Type 0 where
  pub is_malicious : Bool
  pub ac_state : ℕ
  pub l7_protocol : ℕ
  pub alerts : List (List ℕ)
  pub log : List Event

abbrev pub printable : ℕ → ℕ
printable c = if leb 32 c && leb c 126 then c else 0x2E

pub sanitize_for_log : List ℕ → List ℕ
sanitize_for_log [] = []
sanitize_for_log (c ∷ input) = printable c ∷ sanitize_for_log input

-- `DpiEngine()`
pub init : Option (List ℕ) → Outcome Trie
init rules = build_machine (load_rules rules root_only).1

-- "GET ", "POST ", "HTTP/", "Host: ", "User-Agent: " and the end of a line.
abbrev pub get_text : List ℕ
get_text = 0x47 ∷ 0x45 ∷ 0x54 ∷ 0x20 ∷ []

abbrev pub post_text : List ℕ
post_text = 0x50 ∷ 0x4F ∷ 0x53 ∷ 0x54 ∷ 0x20 ∷ []

abbrev pub http_text : List ℕ
http_text = 0x48 ∷ 0x54 ∷ 0x54 ∷ 0x50 ∷ 0x2F ∷ []

abbrev pub host_text : List ℕ
host_text = 0x48 ∷ 0x6F ∷ 0x73 ∷ 0x74 ∷ 0x3A ∷ 0x20 ∷ []

abbrev pub user_agent_text : List ℕ
user_agent_text =
    0x55 ∷ 0x73 ∷ 0x65 ∷ 0x72 ∷ 0x2D ∷ 0x41 ∷ 0x67 ∷ 0x65 ∷ 0x6E ∷ 0x74 ∷ 0x3A ∷ 0x20 ∷ []

abbrev pub line_end : List ℕ
line_end = 0x0D ∷ 0x0A ∷ []

abbrev pub is_request : List ℕ → Bool
is_request data_view =
    same_bytes (substr data_view 0 4) get_text || same_bytes (substr data_view 0 5) post_text

abbrev pub is_response : List ℕ → Bool
is_response data_view = same_bytes (substr data_view 0 5) http_text

-- What stands between a header's name and the end of its line, as it is logged.
pub header_value : List ℕ → List ℕ → Option (List ℕ)
header_value data_view name = elim (find data_view name 0) [
  | none ↦ none
  | some pos ↦ elim (find data_view line_end pos) [
    | none ↦ none
    | some end_pos ↦ some (
        sanitize_for_log (
          substr data_view (pos + length name) ((end_pos + 2 ^ 64 - (pos + length name)) % 2 ^ 64)))
  ]
]

pub parse_http : List ℕ → Bool × List Event
parse_http data_view =
    if is_request data_view
    then (
      true,
      http_request (header_value data_view host_text) (header_value data_view user_agent_text) ∷ [],
    )
    else if is_response data_view
    then (true, http_response ∷ [])
    else (false, [])

-- `payload_length >= 6 && payload[0] == 0x16 && payload[5] == 0x01`
pub is_client_hello : List ℕ → ℕ → Outcome Bool
is_client_hello payload payload_length = elim (leb 6 payload_length) [
  | false ↦ accept false
  | true ↦ do
    first ← read payload 0
    elim (first == 0x16) [
      | false ↦ accept false
      | true ↦ do sixth ← read payload 5; accept (sixth == 0x01)
    ]
]

abbrev pub sni_log : List ℕ → List Event
sni_log [] = []
sni_log (c ∷ sni_domain) = tls_connection (sanitize_for_log (c ∷ sni_domain)) ∷ []

abbrev pub domains : List DnsQuery → List (List ℕ)
domains [] = []
domains (q ∷ queries) = sanitize_for_log q.domain ∷ domains queries

abbrev pub dns_log : ℕ → List DnsQuery → ℕ × List Event
dns_log l7_protocol [] = (l7_protocol, [])
dns_log l7_protocol (q ∷ queries) = (3, dns_message (domains (q ∷ queries)) ∷ [])

-- The protocol and the log behind the test for HTTP.
pub identify_other : ByteOrder → List ℕ → ℕ → FiveTuple → ℕ → Outcome (ℕ × List Event)
identify_other order payload payload_length tuple l7_protocol = do
  hello ← is_client_hello payload payload_length
  elim (l7_protocol == 2 || hello) [
    | true ↦ do sni_domain ← extract_sni payload payload_length; accept (2, sni_log sni_domain)
    | false ↦ elim (tuple.src_port == 53 || tuple.dest_port == 53) [
      | true ↦ do
        queries ← extract_queries order (some payload) payload_length
        accept (dns_log l7_protocol queries)
      | false ↦ accept (l7_protocol, [])
    ]
  ]

pub identify : ByteOrder → List ℕ → ℕ → FiveTuple → ℕ → Outcome (ℕ × List Event)
identify order payload payload_length tuple l7_protocol = do
  in_array payload 0 payload_length
  let data_view = take payload_length payload
  elim (l7_protocol == 1 || is_request data_view || is_response data_view) [
    | true ↦ accept (1, (parse_http data_view).1)
    | false ↦ identify_other order payload payload_length tuple l7_protocol
  ]

abbrev pub no_alerts : List (List ℕ) → Bool
no_alerts [] = true
no_alerts (alert ∷ alerts) = false

abbrev pub not_inspected : ℕ → ℕ → Inspection
not_inspected ac_state l7_protocol = record {
  is_malicious = false;
  ac_state = ac_state;
  l7_protocol = l7_protocol;
  alerts = [];
  log = [];
}

pub inspect_payload :
    Trie → ByteOrder → Option (List ℕ) → ℕ → FiveTuple → ℕ → ℕ → Outcome Inspection
inspect_payload scanner order none payload_length tuple ac_state l7_protocol =
    accept (not_inspected ac_state l7_protocol)
inspect_payload scanner order (some payload) payload_length tuple ac_state l7_protocol =
    elim (payload_length == 0) [
      | true ↦ accept (not_inspected ac_state l7_protocol)
      | false ↦ do
        (alerts, state) ← search scanner (some payload) payload_length ac_state
        (protocol, log) ← identify order payload payload_length tuple l7_protocol
        accept (record {
          is_malicious = not (no_alerts alerts);
          ac_state = state;
          l7_protocol = protocol;
          alerts = alerts;
          log = log;
        })
    ]
