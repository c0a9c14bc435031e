-- ===== src/DnsParser/Safety.antt =====
-- The DNS parser on hostile input: where it reads, that its loop ends, and what it hands over.
use nethex.Base.{
  ℕ, zero, suc, ◌+◌, ◌*◌, ◌%◌, ◌^◌, ◌≤◌, ◌<◌, ◌≡◌, inl, inr, ◌⊎◌, if◌then◌else◌, true, false, List,
  [], ◌∷◌, ◌++◌, ◌||◌, Option, none, some, arith, All, length, length-append, length-take, take,
  drop, get_or, ltb, leb, ◌==◌, bit_and, bit_or, Bool-cases, Returns, guard_rule, read_rule,
  Returns-cases, Yields, All-snoc, ◌⊎◌, in_array_ok, bind_rule, ltb→ge, accept, add32,
}
use native.Mathlib.Nat.{mul-le-mul_right}
use nethex.PacketParser.Safety.{IsPacket}
use nethex.Wire.Order.{byte_at-lt, read_u16_lem}
use nethex.Wire.{ByteOrder, big, ntoh16, u16_at}
use nethex.DnsParser.{
  DnsQuery, Decoder, Name, dotted, follow_pointer, append_label, end_of_name, decode_loop, start_at,
  decode_name, read_question, read_questions, extract_queries,
}

leb→lt : (a b : ℕ) → leb a b ≡ false → b < a
leb→lt a b h = ground arith

length-dotted : (cs : List ℕ) → length (dotted cs) ≤ suc (length cs)
length-dotted [] = omega arith
length-dotted (c ∷ cs) = omega (arith, length-append cs (0x2E ∷ []))

-- A round of the loop, in a call at `offset` on `n` bytes.
record Going (n offset : ℕ) (s : Decoder) : Type 0 where
  inside : s.cursor ≤ n
  jumps : s.jumps ≤ 16
  forward : s.jumped ≡ false → offset ≤ s.cursor
  resume : s.jumped ≡ true → (offset < s.post_name_offset) × (s.post_name_offset ≤ n)
  short : length s.out_name ≤ s.jumps * n + s.cursor

-- Fuel for the rounds that are left.
abbrev pub Fuelled : ℕ → ℕ → Decoder → Type 0
Fuelled n fuel s = 17 * suc n ≤ fuel + s.jumps * suc n + s.cursor

abbrev pub NamePost : ℕ → ℕ → Name → Type 0
NamePost n offset r = (offset < r.offset) × (r.offset ≤ n) × (length r.out_name ≤ 17 * n)

module _ (xs : List ℕ) (n offset : ℕ) (held : n ≤ length xs) (small : n < 2 ^ 31) where
  abbrev Next : ℕ → Decoder → Type 0
  Next fuel s = Going n offset s × Fuelled n fuel s

  follow_pointer-Next :
      (fuel : ℕ) (s : Decoder) (label_len : ℕ)
      → s.cursor < n
      → Going n offset s
      → Fuelled n (suc fuel) s
      → Returns (Next fuel) (follow_pointer xs n s label_len)
  unfolding follow_pointer
  follow_pointer-Next fuel s label_len here g f =
      guard_rule (Next fuel) (leb n (add32 s.cursor 1)) _ λ two.
        guard_rule (Next fuel) (ltb 16 (suc s.jumps)) _ λ few.
          let low : ℕ = get_or xs (add32 s.cursor 1) 0 in
          let pointer : ℕ = bit_or (bit_and label_len 0x3F * 2 ^ 8 % 2 ^ 16) low in
          let one_on : s.cursor + 1 < n = ground arith in
          read_rule (Next fuel) xs (add32 s.cursor 1) _ (omega arith) (
            guard_rule (Next fuel) (leb n pointer) (accept (jump pointer)) λ target.
              let inside : pointer < n = leb→lt n pointer target in
              let moved : Going n offset (jump pointer) = record {
                inside = omega arith;
                jumps = ground arith;
                forward = λ e. absurd (ground arith);
                resume = λ e. resumed one_on (Bool-cases s.jumped);
                short = omega (arith, g.short);
              } in
              (moved, omega (arith, f)))
    where
      jump : ℕ → Decoder
      jump pointer = record {
        cursor = pointer;
        jumped = true;
        post_name_offset = if s.jumped then s.post_name_offset else add32 s.cursor 2;
        jumps = suc s.jumps;
        out_name = s.out_name;
      }

      resumed :
          s.cursor + 1 < n
          → (s.jumped ≡ true) ⊎ (s.jumped ≡ false)
          → (offset < (if s.jumped then s.post_name_offset else add32 s.cursor 2))
            × ((if s.jumped then s.post_name_offset else add32 s.cursor 2) ≤ n)
      resumed h (inl e) = ground (arith, g.resume e)
      resumed h (inr e) = ground (arith, g.forward e)

  append_label-Next :
      (fuel : ℕ) (s : Decoder) (label_len : ℕ)
      → s.cursor < n
      → 0 < label_len
      → Going n offset s
      → Fuelled n (suc fuel) s
      → Returns (Next fuel) (append_label xs n s label_len)
  unfolding append_label
  append_label-Next fuel s label_len here some_bytes g f =
      guard_rule (Next fuel) (ltb 63 label_len) _ λ short.
        guard_rule (Next fuel) (ltb n (add32 (add32 s.cursor 1) label_len)) _ λ fits.
          let few : label_len ≤ 63 = ltb→ge 63 label_len short in
          let room : s.cursor + 1 + label_len ≤ n =
            omega (arith, ltb→ge n (add32 (add32 s.cursor 1) label_len) fits) in
          let moved : Going n offset longer = record {
            inside = omega arith;
            jumps = g.jumps;
            forward = λ e. omega (arith, g.forward e);
            resume = g.resume;
            short = omega (
              arith,
              g.short,
              length-dotted s.out_name,
              length-append (dotted s.out_name) (take label_len (drop (add32 s.cursor 1) xs)),
              length-take label_len (drop (add32 s.cursor 1) xs),
            );
          } in
          rw (in_array_ok xs (add32 s.cursor 1) label_len (omega arith), Returns)
            (moved, omega (arith, f))
    where
      longer : Decoder
      longer = record {
        cursor = add32 (add32 s.cursor 1) label_len;
        jumped = s.jumped;
        post_name_offset = s.post_name_offset;
        jumps = s.jumps;
        out_name = dotted s.out_name ++ take label_len (drop (add32 s.cursor 1) xs);
      }

  decode_loop_within :
      (fuel : ℕ) (s : Decoder) → Next fuel s → Returns (NamePost n offset) (decode_loop xs n fuel s)
  unfolding decode_loop
  decode_loop_within zero s (g, f) =
      absurd (omega (arith, g.inside, mul-le-mul_right (suc n) g.jumps))
  decode_loop_within (suc fuel) s (g, f) =
      guard_rule (NamePost n offset) (leb n s.cursor) _ λ unread.
        let here : s.cursor < n = leb→lt n s.cursor unread in
        let label_len : ℕ = get_or xs s.cursor 0 in
        read_rule (NamePost n offset) xs s.cursor _ (omega arith)
          (elim (Bool-cases (bit_and label_len 0xC0 == 0xC0)) [
            | inl pointer ↦
                rw (pointer, Returns)
                  (bind_rule (NamePost n offset) (Next fuel) (follow_pointer xs n s label_len)
                    (decode_loop xs n fuel) (follow_pointer-Next fuel s label_len here g f)
                    (decode_loop_within fuel))
            | inr plain ↦ elim (Bool-cases (label_len == 0)) [
              | inl null ↦ rw (plain, null, Returns) (ended here (Bool-cases s.jumped))
              | inr more ↦
                  rw (plain, more, Returns)
                    (bind_rule (NamePost n offset) (Next fuel) (append_label xs n s label_len)
                      (decode_loop xs n fuel)
                      (append_label-Next fuel s label_len here (ground arith) g f)
                      (decode_loop_within fuel))
            ]
          ])
    where
      ended :
          s.cursor < n → (s.jumped ≡ true) ⊎ (s.jumped ≡ false) → NamePost n offset (end_of_name s)
      ended h (inl e) =
          let bound = mul-le-mul_right n g.jumps in ground (arith, g.resume e, g.short, bound)
      ended h (inr e) =
          let bound = mul-le-mul_right n g.jumps in ground (arith, g.forward e, g.short, bound)

  -- `decode_name` never reads outside the payload, and its loop ends, whatever pointers the name
  -- has. A name that it accepts has at most 17 times as many bytes as the payload, and the offset
  -- goes forward and stays inside the payload.
  -- The payload is shorter than 2^31 bytes.
  pub decode_name-Returns : offset ≤ n → Returns (NamePost n offset) (decode_name xs n offset)
  unfolding decode_name
  decode_name-Returns start =
      let begun : Going n offset (start_at offset) = record {
        inside = start;
        jumps = omega arith;
        forward = λ e. omega arith;
        resume = λ e. absurd (ground arith);
        short = omega arith;
      } in
      decode_loop_within (17 * suc n) (start_at offset) (begun, omega arith)

abbrev pub QueryPost : ℕ → DnsQuery → Type 0
QueryPost n q = (q.qtype < 2 ^ 16) × (length q.domain ≤ 17 * n)

module _ {xs : List ℕ} {n : ℕ} (v : IsPacket xs n) where
  abbrev QuestionPost : DnsQuery × ℕ → Type 0
  QuestionPost (q, offset) = QueryPost n q × (offset ≤ n)

  read_question-Returns :
      (offset : ℕ) → offset ≤ n → Returns QuestionPost (read_question xs n offset)
  unfolding read_question
  read_question-Returns offset start =
      bind_rule QuestionPost (NamePost n offset) (decode_name xs n offset) _
        (decode_name-Returns xs n offset v.inside v.small start)
        λ name named. guard_rule QuestionPost (ltb n (add32 name.offset 4)) _ λ fits.
          let room : name.offset + 4 ≤ n = ground (arith, named, v.small) in
          let qtype =
            read_u16_lem xs v.bytes name.offset (omega (arith, v.inside))
              (omega (arith, v.small)) in
          rw (qtype, Returns)
            (
              (
                omega (
                  arith,
                  byte_at-lt big xs v.bytes name.offset,
                  byte_at-lt big xs v.bytes (name.offset + 1),
                ),
                named.2,
              ),
              omega (arith, v.small),
            )

  read_questions-Yields :
      (left offset : ℕ) (results : List DnsQuery)
      → offset ≤ n
      → length results + left ≤ 64
      → All (QueryPost n) results
      → Yields
          (λ qs. (length qs ≤ 64) × All (QueryPost n) qs)
          (read_questions xs n left offset results)
  unfolding read_questions
  read_questions-Yields zero offset results start few good = (omega arith, good)
  read_questions-Yields (suc left) offset results start few good =
      elim (Returns-cases QuestionPost (read_question xs n offset)
        (read_question-Returns offset start)) [
          | inl ((q, offset'), e, (post, inside)) ↦
              rw (e, Yields)
                (read_questions-Yields left offset' (results ++ (q ∷ [])) inside
                  (omega (arith, length-append results (q ∷ [])))
                  (All-snoc (QueryPost n) results q good post))
          | inr e ↦ rw (e, Yields) (omega arith, good)
        ]

-- What the code knows of a payload that it is given: a null pointer, or bytes and their number.
abbrev pub IsPayload : Option (List ℕ) → ℕ → Type 0
IsPayload none n = Unit
IsPayload (some xs) n = IsPacket xs n

-- `extract_queries` never reads outside the payload and always ends, and on every input hands over
-- a list: of at most 64 queries, each with a type of 16 bits and a name of at most 17 times as many
-- bytes as the payload.
-- The payload is shorter than 2^31 bytes.
pub extract_queries-Yields :
    (o : ByteOrder) (payload : Option (List ℕ)) (n : ℕ)
    → IsPayload payload n
    → Yields (λ qs. (length qs ≤ 64) × All (QueryPost n) qs) (extract_queries o payload n)
unfolding extract_queries
extract_queries-Yields o none n v = (omega arith, tt)
extract_queries-Yields o (some xs) n v = elim (Bool-cases (ltb n 12)) [
  | inl tiny ↦ rw (tiny, Yields) (omega arith, tt)
  | inr room ↦
      let held : 12 ≤ n = ltb→ge n 12 room in
      rw (room, in_array_ok xs 0 12 (omega (arith, v.inside)), Yields)
        (elim (Bool-cases (count == 0 || ltb 64 count)) [
          | inl odd ↦ rw (odd, Yields) (omega arith, tt)
          | inr some_few ↦
              rw (some_few, Yields) (read_questions-Yields v count 12 [] held (ground arith) tt)
        ])
]
  where
    count : ℕ
    count = ntoh16 o (u16_at o xs 4)
