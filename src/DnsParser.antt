-- ===== src/DnsParser.antt =====
-- src/dns_parser.cpp and include/dns_parser.h. A string is the list of its bytes. The loop of
-- `decode_name` runs on fuel, a round to a unit; its `return false` is `reject`. `cursor` and
-- `offset` are `uint32_t`.
pub mod Safety
pub mod Names
pub mod Questions
mod Examples
use nethex.Base.{
  ℕ, zero, suc, ◌+◌, ◌*◌, ◌%◌, ◌^◌, Bool, true, false, ◌||◌, List, [], ◌∷◌, ◌++◌, Option, none,
  some, bit_and, bit_or, ltb, leb, ◌==◌, Outcome, accept, reject, fault, starved, ◌>>=◌, ◌>>◌,
  reject_if, in_array, read, if◌then◌else◌, add32, take, drop,
}
use nethex.Wire.{read_u16, ByteOrder, ntoh16, cast_dns, sizeof_dns}

pub record DnsQuery : Type 0 where
  pub domain : List ℕ
  pub qtype : ℕ

abbrev pub max_compression_jumps : ℕ
max_compression_jumps = 16

abbrev pub max_questions : ℕ
max_questions = 64

-- The local variables of `decode_name`.
pub record Decoder : Type 0 where
  pub cursor : ℕ
  pub jumped : Bool
  pub post_name_offset : ℕ
  pub jumps : ℕ
  pub out_name : List ℕ

-- What `decode_name` passes back.
pub record Name : Type 0 where
  pub offset : ℕ
  pub out_name : List ℕ

-- `if (!out_name.empty()) out_name += '.';`
abbrev pub dotted : List ℕ → List ℕ
dotted [] = []
dotted (c ∷ cs) = (c ∷ cs) ++ (0x2E ∷ [])

-- At the null byte.
abbrev pub end_of_name : Decoder → Name
end_of_name s = record {
  offset = if s.jumped then s.post_name_offset else add32 s.cursor 1;
  out_name = s.out_name;
}

abbrev pub start_at : ℕ → Decoder
start_at offset = record {
  cursor = offset;
  jumped = false;
  post_name_offset = 0;
  jumps = 0;
  out_name = [];
}

module _ (payload : List ℕ) (payload_length : ℕ) where
  -- At a compression pointer.
  pub follow_pointer : Decoder → ℕ → Outcome Decoder
  follow_pointer s label_len = do
    reject_if (leb payload_length (add32 s.cursor 1))
    reject_if (ltb max_compression_jumps (suc s.jumps))
    low ← read payload (add32 s.cursor 1)
    let pointer = bit_or (bit_and label_len 0x3F * 2 ^ 8 % 2 ^ 16) low
    reject_if (leb payload_length pointer)
    accept (record {
      cursor = pointer;
      jumped = true;
      post_name_offset = if s.jumped then s.post_name_offset else add32 s.cursor 2;
      jumps = suc s.jumps;
      out_name = s.out_name;
    })

  -- At a label of one byte or more.
  pub append_label : Decoder → ℕ → Outcome Decoder
  append_label s label_len = do
    reject_if (ltb 63 label_len)
    let label_start = add32 s.cursor 1
    reject_if (ltb payload_length (add32 label_start label_len))
    in_array payload label_start label_len
    accept (record {
      cursor = add32 label_start label_len;
      jumped = s.jumped;
      post_name_offset = s.post_name_offset;
      jumps = s.jumps;
      out_name = dotted s.out_name ++ take label_len (drop label_start payload);
    })

  pub decode_loop : ℕ → Decoder → Outcome Name
  decode_loop zero s = starved
  decode_loop (suc fuel) s = do
    reject_if (leb payload_length s.cursor)
    label_len ← read payload s.cursor
    elim (bit_and label_len 0xC0 == 0xC0) [
      | true ↦ do next ← follow_pointer s label_len; decode_loop fuel next
      | false ↦ elim (label_len == 0) [
        | true ↦ accept (end_of_name s)
        | false ↦ do next ← append_label s label_len; decode_loop fuel next
      ]
    ]

  -- Rounds for every byte of the payload, once before each jump and once after the last.
  abbrev pub enough_rounds : ℕ
  enough_rounds = suc max_compression_jumps * suc payload_length

  pub decode_name : ℕ → Outcome Name
  decode_name offset = decode_loop enough_rounds (start_at offset)

  -- A round of the loop over the questions; both of its `break`s are `reject`.
  pub read_question : ℕ → Outcome (DnsQuery × ℕ)
  read_question offset = do
    name ← decode_name offset
    reject_if (ltb payload_length (add32 name.offset 4))
    qtype ← read_u16 payload name.offset
    accept (record { domain = name.out_name; qtype = qtype }, add32 name.offset 4)

  pub read_questions : ℕ → ℕ → List DnsQuery → Outcome (List DnsQuery)
  read_questions zero offset results = accept results
  read_questions (suc left) offset results = elim (read_question offset) [
    | accept (query, offset') ↦ read_questions left offset' (results ++ (query ∷ []))
    | reject ↦ accept results
    | fault ↦ fault
    | starved ↦ starved
  ]

-- The payload is a null pointer or the bytes behind it.
pub extract_queries : ByteOrder → Option (List ℕ) → ℕ → Outcome (List DnsQuery)
extract_queries order none payload_length = accept []
extract_queries order (some payload) payload_length = elim (ltb payload_length sizeof_dns) [
  | true ↦ accept []
  | false ↦ do
    header ← cast_dns order payload 0
    let qd_count = ntoh16 order header.qd_count
    elim (qd_count == 0 || ltb max_questions qd_count) [
      | true ↦ accept []
      | false ↦ read_questions payload payload_length qd_count sizeof_dns []
    ]
]
