-- ===== src/Wire/Handshake.antt =====
-- The handshake of torrent_messages.cpp, and its check in torrent_client.cpp.
use bittorrent_client.Base.{
  ℕ, ◌≡◌, refl, ap, ◌∙◌, some, List, [], ◌∷◌, ◌++◌, append-nil, ok, arith, bytes_eq, bytes_eq_refl,
  length, replicate, length-append,
}
use bittorrent_client.Wire.Endian.{word_of}
use bittorrent_client.Wire.Bytes.{
  make_writer, write_all-concat, finalize_reader, make_reader-cons, read_next, read_last,
}
use bittorrent_client.Wire.Messages.{
  k_protocol, no_extensions, Handshake, serialize_handshake, parse_handshake,
  is_valid_handshake_response,
}

-- The bytes of a handshake: 19, "BitTorrent protocol", eight zeros, the info hash and the peer's id.
abbrev pub handshake_bytes : List ℕ → List ℕ → List ℕ
handshake_bytes info_hash client_id =
    19 ∷ (k_protocol ++ (no_extensions ++ (info_hash ++ client_id)))

serialize_handshake_lem :
    (info_hash client_id : List ℕ)
    → length info_hash ≡ 20
    → length client_id ≡ 20
    → serialize_handshake info_hash client_id ≡ some (handshake_bytes info_hash client_id)
unfolding serialize_handshake make_writer
serialize_handshake_lem info_hash client_id hi hc =
    write_all-concat ((19 ∷ []) ∷ k_protocol ∷ no_extensions ∷ info_hash ∷ client_id ∷ [])
      (make_writer 68)
      (rw (append-nil client_id) (omega (arith, length-append info_hash client_id)))
    ∙ ap (λ (t : List ℕ). some (19 ∷ (k_protocol ++ (no_extensions ++ (info_hash ++ t)))))
        (append-nil client_id)

-- The handshake that ParseNetwork makes of those bytes.
abbrev pub received : List ℕ → List ℕ → Handshake
received info_hash peer_id = record {
  protocol_length = 19;
  pstr = k_protocol;
  reserved = no_extensions;
  info_hash = info_hash;
  peer_id = peer_id;
}

parse_handshake-handshake_bytes :
    (info_hash peer_id : List ℕ)
    → length info_hash ≡ 20
    → length peer_id ≡ 20
    → parse_handshake (handshake_bytes info_hash peer_id) ≡ ok (received info_hash peer_id)
unfolding parse_handshake word_of finalize_reader
parse_handshake-handshake_bytes info_hash peer_id hi hp =
    let rest₂ : List ℕ = no_extensions ++ (info_hash ++ peer_id) in
    let rest₁ : List ℕ = k_protocol ++ rest₂ in
    rw
      (
        make_reader-cons 19 rest₁,
        read_next 1 (19 ∷ []) rest₁ (0 ∷ []) refl,
        read_next 19 k_protocol rest₂ [] refl,
        read_next 8 no_extensions (info_hash ++ peer_id) (replicate 8 0) refl,
        read_next 20 info_hash peer_id (replicate 20 0) hi,
        read_last 20 peer_id (replicate 20 0) hp,
      )
      refl

-- For an info hash and a peer id of 20 bytes each, serializing a handshake passes every assertion
-- of the writer, parsing the bytes gives the same info hash and peer id, and the client that expects the
-- info hash `expected` accepts the handshake exactly when the info hash is `expected`.
pub handshake-roundtrip :
    (info_hash peer_id expected : List ℕ)
    → length info_hash ≡ 20
    → length peer_id ≡ 20
    → (serialize_handshake info_hash peer_id ≡ some (handshake_bytes info_hash peer_id))
      × (parse_handshake (handshake_bytes info_hash peer_id) ≡ ok (received info_hash peer_id))
      × (is_valid_handshake_response (received info_hash peer_id) expected
          ≡ bytes_eq info_hash expected)
unfolding is_valid_handshake_response
handshake-roundtrip info_hash peer_id expected hi hp = (
  serialize_handshake_lem info_hash peer_id hi hp,
  parse_handshake-handshake_bytes info_hash peer_id hi hp,
  rw (bytes_eq_refl k_protocol) refl,
)
