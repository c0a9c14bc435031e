-- ===== src/DpiEngine/Detection.antt =====
-- The engine of a rule file finds the file's signatures in a flow, and reads and logs safely.
use nethex.Base.{
  ℕ, ◌≤◌, ◌≡◌, refl, ap, ◌∙◌, inl, inr, Bool, false, not, ◌||◌, List, [], ◌∷◌, ◌++◌, Option, none,
  some, arith, take, get_or, All, leb, ◌==◌, ==_iff, Bool-cases, Option-cases, accept, ◌>>=◌, ◌>>◌,
  Yields, Yields-cases, read_in_bounds, in_array_ok, append-nil,
}
use nethex.Wire.{ByteOrder}
use nethex.FiveTuple.{FiveTuple}
use nethex.PacketParser.Safety.{IsPacket}
use nethex.PatternMatcher.{Trie, root_only, build_machine}
use nethex.PatternMatcher.Words.{occurrences, longest}
use nethex.PatternMatcher.Adding.{add_patterns, add_patterns-IsTrie}
use nethex.PatternMatcher.Links.{StateOf, known}
use nethex.PatternMatcher.Trie.{IsTrie, walk}
use nethex.PatternMatcher.Levels.{IsMachine}
use nethex.PatternMatcher.Machine.{build_machine-IsMachine}
use nethex.PatternMatcher.Search.{search-occurrences, equal_to-nil}
use nethex.RuleManager.{find}
use nethex.RuleManager.Signatures.{
  IsFile, file_signatures, file_signatures_sound, load_rules-signatures,
}
use nethex.SniExtractor.{extract_sni}
use nethex.SniExtractor.Safety.{SliceOf, extract_sni-Yields}
use nethex.DnsParser.{DnsQuery, extract_queries}
use nethex.DnsParser.Safety.{extract_queries-Yields}
use nethex.DpiEngine.{
  Event, http_request, http_response, tls_connection, dns_message, Inspection, sanitize_for_log,
  init, host_text, user_agent_text, is_request, is_response, line_end, header_value, parse_http,
  is_client_hello, sni_log, domains, dns_log, identify_other, identify, no_alerts, inspect_payload,
}

-- Printable ASCII: neither a control byte nor a line break.
abbrev pub IsPrintable : ℕ → Type 0
IsPrintable c = (32 ≤ c) × (c ≤ 126)

abbrev pub IsSafeText : Option (List ℕ) → Type 0
IsSafeText none = Unit
IsSafeText (some text) = All IsPrintable text

abbrev pub IsSafe : Event → Type 0
IsSafe (http_request host user_agent) = IsSafeText host × IsSafeText user_agent
IsSafe http_response = Unit
IsSafe (tls_connection sni_domain) = All IsPrintable sni_domain
IsSafe (dns_message names) = All (All IsPrintable) names

sanitize_for_log-IsPrintable : (input : List ℕ) → All IsPrintable (sanitize_for_log input)
unfolding sanitize_for_log
sanitize_for_log-IsPrintable [] = tt
sanitize_for_log-IsPrintable (c ∷ input) = (ground arith, sanitize_for_log-IsPrintable input)

header_value-IsSafeText : (text name : List ℕ) → IsSafeText (header_value text name)
unfolding header_value
header_value-IsSafeText text name = elim (Option-cases (find text name 0)) [
  | inl e ↦ rw (e, IsSafeText) tt
  | inr (pos, e) ↦ elim (Option-cases (find text line_end pos)) [
    | inl e' ↦ rw (e, e', IsSafeText) tt
    | inr (end, e') ↦ rw (e, e', IsSafeText) (sanitize_for_log-IsPrintable _)
  ]
]

parse_http-IsSafe : (text : List ℕ) → All IsSafe (parse_http text).1
unfolding parse_http
parse_http-IsSafe text = elim (Bool-cases (is_request text)) [
  | inl e ↦
      rw (parse_http, e)
        ((header_value-IsSafeText text host_text, header_value-IsSafeText text user_agent_text), tt)
  | inr e ↦ elim (Bool-cases (is_response text)) [
    | inl e' ↦ rw (parse_http, e, e') (tt, tt)
    | inr e' ↦ rw (parse_http, e, e') tt
  ]
]

sni_log-IsSafe : (sni_domain : List ℕ) → All IsSafe (sni_log sni_domain)
sni_log-IsSafe [] = tt
sni_log-IsSafe (c ∷ sni_domain) = (sanitize_for_log-IsPrintable (c ∷ sni_domain), tt)

domains-IsPrintable : (queries : List DnsQuery) → All (All IsPrintable) (domains queries)
domains-IsPrintable [] = tt
domains-IsPrintable (q ∷ queries) =
    (sanitize_for_log-IsPrintable q.domain, domains-IsPrintable queries)

-- A flow keeps the protocol HTTP once it has it, and the protocols are 0 to 3.
abbrev pub IsIdentified : ℕ → ℕ × List Event → Type 0
IsIdentified before (protocol, log) =
    (before ≡ 1 → protocol ≡ 1) × (before ≤ 3 → protocol ≤ 3) × All IsSafe log

is_client_hello-Yields :
    {xs : List ℕ} {n : ℕ} → IsPacket xs n → (b : Bool) × (is_client_hello xs n ≡ accept b)
unfolding is_client_hello
is_client_hello-Yields {xs} {n} v = elim (Bool-cases (leb 6 n)) [
  | inl long ↦
      let first = read_in_bounds xs 0 (ground (arith, v.inside)) in
      let sixth = read_in_bounds xs 5 (ground (arith, v.inside)) in
      elim (Bool-cases (get_or xs 0 0 == 0x16)) [
        | inl e ↦ (get_or xs 5 0 == 0x01, rw (is_client_hello, long, first, ◌>>=◌, e, sixth) refl)
        | inr e ↦ (false, rw (is_client_hello, long, first, ◌>>=◌, e) refl)
      ]
  | inr short ↦ (false, rw (is_client_hello, short) refl)
]

dns_log-IsIdentified :
    (before : ℕ) (queries : List DnsQuery)
    → (before == 1) ≡ false
    → IsIdentified before (dns_log before queries)
dns_log-IsIdentified before [] no_http = (λ e. e, λ h. h, tt)
dns_log-IsIdentified before (q ∷ queries) no_http =
    (λ e. ground arith, λ h. omega arith, (domains-IsPrintable (q ∷ queries), tt))

identify_other-Yields :
    (o : ByteOrder) {xs : List ℕ} {n : ℕ} (tuple : FiveTuple) (before : ℕ)
    → IsPacket xs n
    → (before == 1) ≡ false
    → Yields (IsIdentified before) (identify_other o xs n tuple before)
unfolding identify_other
identify_other-Yields o {xs} {n} tuple before v no_http =
    let (hello, tested) = is_client_hello-Yields v in
    elim (Bool-cases (before == 2 || hello)) [
      | inl tls ↦
          let (name, extracted, _) =
            Yields-cases (SliceOf xs n) (extract_sni xs n) (extract_sni-Yields v) in
          rw (tested, ◌>>=◌, tls, extracted, Yields)
            (λ e. ground arith, λ h. omega arith, sni_log-IsSafe name)
      | inr no_tls ↦ elim (Bool-cases (tuple.src_port == 53 || tuple.dest_port == 53)) [
        | inl dns ↦
            let (queries, extracted, _) =
              Yields-cases _ (extract_queries o (some xs) n)
                (extract_queries-Yields o (some xs) n v) in
            rw (tested, ◌>>=◌, no_tls, dns, extracted, Yields)
              (dns_log-IsIdentified before queries no_http)
        | inr other ↦ rw (tested, ◌>>=◌, no_tls, other, Yields) (λ e. e, λ h. h, tt)
      ]
    ]

identify-Yields :
    (o : ByteOrder) {xs : List ℕ} {n : ℕ} (tuple : FiveTuple) (before : ℕ)
    → IsPacket xs n
    → Yields (IsIdentified before) (identify o xs n tuple before)
unfolding identify
identify-Yields o {xs} {n} tuple before v =
    let held = in_array_ok xs 0 n (omega (arith, v.inside)) in
    elim (Bool-cases (before == 1 || is_request (take n xs) || is_response (take n xs))) [
      | inl http ↦
          rw (held, ◌>>◌, http, Yields) (λ e. refl, λ h. omega arith, parse_http-IsSafe (take n xs))
      | inr other ↦
          rw (held, ◌>>◌, other, Yields) (identify_other-Yields o tuple before v (ground arith))
    ]

-- What an inspection reports of the bytes `now`, read behind the bytes `before` of the flow.
pub record Inspected (rules : Option (List ℕ)) (before now : List ℕ) (l7 : ℕ) (r : Inspection)
    : Type 0 where
  pub alerts : r.alerts ≡ occurrences (file_signatures rules) before now
  pub malicious : r.is_malicious ≡ not (no_alerts (occurrences (file_signatures rules) before now))
  pub state : StateOf (add_patterns root_only (file_signatures rules)) (before ++ now) r.ac_state
  pub sticky : l7 ≡ 1 → r.l7_protocol ≡ 1
  pub in_range : l7 ≤ 3 → r.l7_protocol ≤ 3
  pub safe : All IsSafe r.log

abbrev trie_of : Option (List ℕ) → Trie
trie_of rules = add_patterns root_only (file_signatures rules)

-- The constructor returns: any rule file gives a machine, also none and an empty one.
pub engine-IsMachine :
    (rules : Option (List ℕ))
    → IsFile rules
    → (word : ℕ → List ℕ) × (v : IsTrie
        (file_signatures rules)
        (add_patterns root_only (file_signatures rules))
        word)
      × (scanner : Trie) × (init rules ≡ accept scanner)
      × IsMachine v scanner
unfolding init
engine-IsMachine rules file =
    let (bytes, nonempty) = file_signatures_sound rules file in
    let (word, v) = add_patterns-IsTrie (file_signatures rules) bytes in
    let (scanner, builds, machine) =
      build_machine-IsMachine v (equal_to-nil (file_signatures rules) nonempty) in
    (word, v, scanner, ap build_machine (load_rules-signatures rules root_only) ∙ builds, machine)

-- The engine of any rule file, or of none, is built, and `inspect_payload` with it always returns and
-- never reads outside the payload. Called with the state that a flow's earlier bytes have left, it
-- reports exactly the file's signatures that end at a byte of this payload, also those that began in
-- earlier bytes; it calls the payload malicious if there is one; the new state is that of all
-- bytes; HTTP stays HTTP; and what it logs of the payload is printable ASCII.
-- The payload is shorter than 2^31 bytes.
pub inspect_payload-Inspected :
    (rules : Option (List ℕ)) (o : ByteOrder) {xs : List ℕ} {n : ℕ} (tuple : FiveTuple)
    (before : List ℕ) (state l7 : ℕ)
    → IsFile rules
    → IsPacket xs n
    → StateOf (add_patterns root_only (file_signatures rules)) before state
    → (scanner : Trie) × (init rules ≡ accept scanner)
      × Yields
          (Inspected rules before (take n xs) l7)
          (inspect_payload scanner o (some xs) n tuple state l7)
unfolding inspect_payload
inspect_payload-Inspected rules o {xs} {n} tuple before state l7 file v at =
    let (word, trie, scanner, builds, machine) = engine-IsMachine rules file in
    let (final, finds, after) =
      search-occurrences trie machine before xs n state v.inside v.bytes at in
    let ((protocol, log), identified, (same, range, safe)) =
      Yields-cases (IsIdentified l7) (identify o xs n tuple l7) (identify-Yields o tuple l7 v) in
    (
      scanner,
      builds,
      elim (Bool-cases (n == 0)) [
        | inl nothing ↦
            let empty : take n xs ≡ [] = ap (λ (k : ℕ). take k xs) ((==_iff n 0).0 nothing) in
            rw (nothing, empty, Yields)
              (record {
                alerts = refl;
                malicious = refl;
                state =
                    ap (λ (x : List ℕ). walk (trie_of rules) 0 (longest (known (trie_of rules)) x))
                      (append-nil before)
                    ∙ at;
                sticky = λ e. e;
                in_range = λ h. h;
                safe = tt;
              })
        | inr some_bytes ↦
            rw (some_bytes, finds, ◌>>=◌, identified, Yields)
              (record {
                alerts = refl;
                malicious = refl;
                state = after;
                sticky = same;
                in_range = range;
                safe = safe;
              })
      ],
    )
