-- ===== src/SniExtractor.antt =====
-- src/sni_extractor.cpp. A string is the list of its bytes. `return ""` is `reject` up to
-- `extract_sni`, which makes it the empty string. The loop over the extensions runs on fuel, a
-- round to a unit. `offset` and `ext_end` are `uint32_t`.
pub mod Safety
pub mod Hello
mod Examples
use nethex.Base.{
  ℕ, zero, suc, ◌+◌, Bool, true, false, not, List, [], bit_or, ltb, leb, ◌==◌, Outcome, accept,
  reject, fault, starved, ◌>>=◌, ◌>>◌, reject_if, in_array, read, add32, take, drop, if◌then◌else◌,
}
use nethex.Wire.{read_u16}

-- The extensions, from `offset` up to `ext_end`.
pub record Extensions : Type 0 where
  pub offset : ℕ
  pub ext_end : ℕ

module _ (payload : List ℕ) (payload_length : ℕ) where
  -- From the extensions' length on.
  pub enter_extensions : ℕ → Outcome Extensions
  enter_extensions block = do
    reject_if (ltb payload_length (add32 block 2))
    ext_total_len ← read_u16 payload block
    let offset = add32 block 2
    let ext_end = add32 offset ext_total_len
    accept (record {
      offset = offset;
      ext_end = if ltb payload_length ext_end then payload_length else ext_end;
    })

  -- From the cipher suites on.
  pub skip_ciphers : ℕ → Outcome Extensions
  skip_ciphers ciphers = do
    reject_if (ltb payload_length (add32 ciphers 2))
    cipher_suites_len ← read_u16 payload ciphers
    let compression = add32 ciphers (2 + cipher_suites_len)
    reject_if (leb payload_length compression)
    comp_methods_len ← read payload compression
    enter_extensions (add32 compression (1 + comp_methods_len))

  pub find_extensions : Outcome Extensions
  find_extensions = do
    reject_if (ltb payload_length 5)
    record_type ← read payload 0
    reject_if (not (record_type == 0x16))
    reject_if (ltb payload_length 9)
    handshake_type ← read payload 5
    reject_if (not (handshake_type == 0x01))
    reject_if (leb payload_length 43)
    session_id_len ← read payload 43
    skip_ciphers (add32 43 (1 + session_id_len))

  -- Inside the extension of type 0.
  pub server_name : ℕ → ℕ → Outcome (List ℕ)
  server_name ext_end offset = do
    reject_if (ltb ext_end (add32 offset 5))
    sni_len ← read_u16 payload (add32 offset 3)
    let start = add32 offset 5
    reject_if (ltb ext_end (add32 start sni_len))
    in_array payload start sni_len
    accept (take sni_len (drop start payload))

  pub find_server_name : ℕ → ℕ → ℕ → Outcome (List ℕ)
  find_server_name zero ext_end offset = starved
  find_server_name (suc fuel) ext_end offset = do
    reject_if (ltb ext_end (add32 offset 4))
    ext_type ← read_u16 payload offset
    ext_len ← read_u16 payload (add32 offset 2)
    elim (ext_type == 0) [
      | true ↦ server_name ext_end (add32 offset 4)
      | false ↦ find_server_name fuel ext_end (add32 (add32 offset 4) ext_len)
    ]

  pub extract_sni : Outcome (List ℕ)
  extract_sni =
      elim (find_extensions >>= λ extensions.
      find_server_name (suc payload_length) extensions.ext_end extensions.offset) [
        | accept name ↦ accept name
        | reject ↦ accept []
        | fault ↦ fault
        | starved ↦ starved
      ]
