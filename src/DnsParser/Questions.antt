-- ===== src/DnsParser/Questions.antt =====
-- The question section of a DNS message.
use nethex.Base.{
  ℕ, ◌+◌, ◌≤◌, ◌≡◌, refl, sym, ap, ◌∙◌, false, List, [], ◌∷◌, ◌++◌, append_assoc, append-nil, arith,
  some, length, get_or, ltb, ◌==◌, ◌||◌, accept, add32, in_array_ok, ◌>>=◌,
}
use nethex.PacketParser.Safety.{IsPacket}
use nethex.Wire.{ByteOrder, ntoh16, u16_at}
use nethex.Wire.Order.{be16, read_u16_lem, ntoh16-u16_at}
use nethex.DnsParser.{DnsQuery, read_question, read_questions, extract_queries}
use nethex.DnsParser.Names.{NameAt, join, decode_name-NameAt}

-- Questions one behind the other: a name, two bytes of type and two of class.
pub data QuestionsAt (xs : List ℕ) (n : ℕ) : ℕ → List DnsQuery → Type 0 where
  none_left : {at : ℕ} → QuestionsAt xs n at []
  question :
      {at pointers end : ℕ} {labels : List (List ℕ)} {rest : List DnsQuery}
      → NameAt xs n at pointers end labels
      → pointers ≤ 16
      → end + 4 ≤ n
      → QuestionsAt xs n (end + 4) rest
      → QuestionsAt xs n at (
          record { domain = join labels; qtype = be16 (get_or xs end 0) (get_or xs (end + 1) 0) }
          ∷ rest)

module _ {xs : List ℕ} {n : ℕ} (v : IsPacket xs n) where
  read_question-NameAt :
      {at pointers end : ℕ} {labels : List (List ℕ)}
      → NameAt xs n at pointers end labels
      → pointers ≤ 16
      → end + 4 ≤ n
      → read_question xs n at
        ≡ accept (
          record { domain = join labels; qtype = be16 (get_or xs end 0) (get_or xs (end + 1) 0) },
          end + 4,
        )
  unfolding read_question
  read_question-NameAt {at} {end} d few room =
      let named = decode_name-NameAt v d few in
      let behind : add32 end 4 ≡ end + 4 = omega (arith, v.small) in
      let held : ltb n (end + 4) ≡ false = ground arith in
      let qtype = read_u16_lem xs v.bytes end (omega (arith, v.inside)) (omega (arith, v.small)) in
      rw (named, behind, held, qtype) refl

  read_questions-QuestionsAt :
      {at : ℕ} {qs : List DnsQuery} (results : List DnsQuery)
      → QuestionsAt xs n at qs
      → read_questions xs n (length qs) at results ≡ accept (results ++ qs)
  unfolding read_questions
  read_questions-QuestionsAt results none_left = ap accept (sym (append-nil results))
  read_questions-QuestionsAt results (question {end} {labels} {rest} d few room more) =
      let q : DnsQuery = record {
        domain = join labels;
        qtype = be16 (get_or xs end 0) (get_or xs (end + 1) 0);
      } in
      rw (read_questions, read_question-NameAt d few room)
        (read_questions-QuestionsAt (results ++ (q ∷ [])) more
          ∙ ap accept (append_assoc results (q ∷ []) rest))

-- A message of at least a header, whose header counts 1 to 64 questions, whose names go through at
-- most 16 pointers each, is read in full: every question in order, with the name that RFC 1035
-- gives it and its type most significant byte first, on a host of either byte order.
-- The message is shorter than 2^31 bytes.
pub extract_queries-QuestionsAt :
    (o : ByteOrder) {xs : List ℕ} {n : ℕ} {qs : List DnsQuery}
    → IsPacket xs n
    → 12 ≤ n
    → be16 (get_or xs 4 0) (get_or xs 5 0) ≡ length qs
    → 1 ≤ length qs
    → length qs ≤ 64
    → QuestionsAt xs n 12 qs
    → extract_queries o (some xs) n ≡ accept qs
unfolding extract_queries
extract_queries-QuestionsAt o {xs} {n} {qs} v header counted some_few few d =
    let room : ltb n 12 ≡ false = ground arith in
    let seen = in_array_ok xs 0 12 (omega (arith, v.inside)) in
    let count : ntoh16 o (u16_at o xs 4) ≡ length qs = ntoh16-u16_at o xs v.bytes 4 ∙ counted in
    let asked : (ntoh16 o (u16_at o xs 4) == 0 || ltb 64 (ntoh16 o (u16_at o xs 4))) ≡ false =
      ground arith in
    rw (extract_queries, room, seen, ◌>>=◌, asked)
      (ap (λ (k : ℕ). read_questions xs n k 12 []) count ∙ read_questions-QuestionsAt v [] d)
