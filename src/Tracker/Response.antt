-- ===== src/Tracker/Response.antt =====
-- TrackerResponse and ParseTrackerCompactResponseContent.
use bittorrent_client.Base.{
  ℕ, ◌%◌, false, ◌||◌, not, none, List, [], ◌∷◌, ◌++◌, Result, ok, err, ◌>>=◌, ◌==◌, if◌then◌else◌,
}
use bittorrent_client.Bencode.Errors.{
  impl_invalid_invariant, invalid_peers_blob_length, missing_required_property,
}
use bittorrent_client.Bencode.Elements.{ElementRef}
use bittorrent_client.Bencode.Parser.{parse_dictionary_only}
use bittorrent_client.Torrent.Values.{
  ContentError, invalid, code_result, element_as_string, element_as_integer, parse_as_uint64,
}
use bittorrent_client.Torrent.Keys.{KeyParser, invoke_all}

-- The members hold the bytes of the answer, in network order: four and two.
pub record PeerAddress : Type 0 where
  pub ipv4 : List ℕ
  pub port : List ℕ

pub record OnSuccess : Type 0 where
  pub rerequest_dt_secs : ℕ
  pub peers : List PeerAddress

-- The variant `data_`: std::monostate, OnSuccess and OnError.
pub data TrackerResponse : Type 0 where
  monostate : TrackerResponse
  on_success : OnSuccess → TrackerResponse
  on_error : List ℕ → TrackerResponse

-- GetOrCreateOnly<OnSuccess> and GetOrCreateOnly<OnError>.
unfoldable pub get_or_create_success : TrackerResponse → Result ContentError OnSuccess
get_or_create_success (on_success s) = ok s
get_or_create_success monostate = ok (record { rerequest_dt_secs = 0; peers = [] })
get_or_create_success (on_error e) = err (invalid impl_invalid_invariant)

unfoldable pub get_or_create_error : TrackerResponse → Result ContentError (List ℕ)
get_or_create_error (on_error e) = ok e
get_or_create_error monostate = ok []
get_or_create_error (on_success s) = err (invalid impl_invalid_invariant)

abbrev pub Setter : Type 0
Setter = TrackerResponse → ElementRef → Result ContentError TrackerResponse

unfoldable pub parse_response_interval : Setter
unfolding element_as_integer parse_as_uint64 get_or_create_success
parse_response_interval response interval = element_as_integer interval >>= λ n.
    parse_as_uint64 n >>= λ v. get_or_create_success response >>= λ state.
    ok (on_success (record state { rerequest_dt_secs = v }))

-- The loop over the blob: six bytes at a time. A blob of another length is not given to it.
unfoldable pub peers_of : List ℕ → List PeerAddress
peers_of (a ∷ b ∷ c ∷ d ∷ p ∷ q ∷ rest) =
    record { ipv4 = a ∷ b ∷ c ∷ d ∷ []; port = p ∷ q ∷ [] } ∷ peers_of rest
peers_of _ = []

unfoldable pub parse_response_peers : Setter
unfolding element_as_string get_or_create_success peers_of
parse_response_peers response peers = element_as_string peers >>= λ peers_blob.
    if peers_blob.size == 0 || not (peers_blob.size % 6 == 0)
    then err (invalid invalid_peers_blob_length)
    else (get_or_create_success response >>= λ state.
        ok (on_success (record state { peers = state.peers ++ peers_of peers_blob.bytes })))

unfoldable pub parse_response_failure : Setter
unfolding element_as_string get_or_create_error
parse_response_failure response failure = element_as_string failure >>= λ str.
    get_or_create_error response >>= λ state.
    ok (on_error (if str.size == 0 then state else str.bytes))

abbrev parser_of : List ℕ → Setter → KeyParser TrackerResponse
parser_of key parse = record { key = key; parse = parse; parsed = false; tracked = none }

abbrev pub key_interval : List ℕ
key_interval = b'i' ∷ b'n' ∷ b't' ∷ b'e' ∷ b'r' ∷ b'v' ∷ b'a' ∷ b'l' ∷ []

abbrev pub key_peers : List ℕ
key_peers = b'p' ∷ b'e' ∷ b'e' ∷ b'r' ∷ b's' ∷ []

abbrev pub key_failure : List ℕ
key_failure =
    b'f' ∷ b'a' ∷ b'i' ∷ b'l' ∷ b'u' ∷ b'r' ∷ b'e' ∷ b' ' ∷ b'r' ∷ b'e' ∷ b'a' ∷ b's' ∷ b'o' ∷ b'n'
    ∷ []

unfoldable pub response_parsers : List (KeyParser TrackerResponse)
unfolding parse_response_interval parse_response_peers parse_response_failure
response_parsers =
    parser_of key_interval parse_response_interval
    ∷ parser_of key_peers parse_response_peers
    ∷ parser_of key_failure parse_response_failure
    ∷ []

-- `data_.index() == 0`.
abbrev pub finish_response : TrackerResponse → Result ContentError TrackerResponse
finish_response monostate = err (invalid missing_required_property)
finish_response (on_success s) = ok (on_success s)
finish_response (on_error e) = ok (on_error e)

unfoldable pub parse_tracker_compact_response_content : List ℕ → Result ContentError TrackerResponse
unfolding parse_dictionary_only response_parsers invoke_all
parse_tracker_compact_response_content content =
    code_result (parse_dictionary_only content) >>= λ data_.
    invoke_all response_parsers monostate data_ >>= λ (ps, response). finish_response response
