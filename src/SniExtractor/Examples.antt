-- ===== src/SniExtractor/Examples.antt =====
-- A ClientHello with an extension before that of the server name.
use nethex.Base.{ℕ, ◌≡◌, refl, List, [], ◌∷◌, ◌++◌, replicate, arith, accept, Yields}
use nethex.PacketParser.Safety.{IsPacket}
use nethex.SniExtractor.{find_extensions, extract_sni}
use nethex.SniExtractor.Safety.{SliceOf, extract_sni-Yields}
use nethex.SniExtractor.Hello.{HelloWith, server_name_ext, other_ext, extract_sni-HelloWith}

abbrev hello : List ℕ
hello =
    -- the record, the message's type, then its length, a version and 32 random bytes
    0x16
    ∷ 3
    ∷ 1
    ∷ 0
    ∷ 62
    ∷ 0x01
    ∷ (replicate 37 7
        -- no session id, one cipher suite, one compression method
        ++ (0 ∷ 0 ∷ 2 ∷ 0x13 ∷ 0x01 ∷ 1 ∷ 0
            -- 15 bytes of extensions: an empty one of type 0x17, and the server name "ab"
            ∷ 0 ∷ 15 ∷ 0 ∷ 0x17 ∷ 0 ∷ 0 ∷ 0 ∷ 0 ∷ 0 ∷ 7 ∷ 0 ∷ 5 ∷ 0 ∷ 0 ∷ 2 ∷ 0x61 ∷ 0x62 ∷ []))

hello-IsPacket : IsPacket hello 67
hello-IsPacket = omega arith

hello-HelloWith : HelloWith hello 67 (0x61 ∷ 0x62 ∷ [])
hello-HelloWith = record {
  record_type = refl;
  handshake_type = refl;
  whole = omega arith;
  extensions =
      other_ext (omega arith) (omega arith)
        (server_name_ext (0x61 ∷ 0x62 ∷ []) refl refl (omega arith) refl);
}

-- A payload that is no handshake.
not_tls : extract_sni (0x17 ∷ 3 ∷ 1 ∷ 0 ∷ 1 ∷ 0 ∷ []) 6 ≡ accept []
unfolding extract_sni find_extensions
not_tls = refl

extract_sni-Yields_example : Yields (SliceOf hello 67) (extract_sni hello 67)
extract_sni-Yields_example = extract_sni-Yields hello-IsPacket

extract_sni-HelloWith_example : extract_sni hello 67 ≡ accept (0x61 ∷ 0x62 ∷ [])
extract_sni-HelloWith_example = extract_sni-HelloWith hello-IsPacket hello-HelloWith
