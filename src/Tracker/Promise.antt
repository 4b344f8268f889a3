-- ===== src/Tracker/Promise.antt =====
-- What ParseTrackerCompactResponseContent promises to its caller.
use bittorrent_client.Base.{
  ℕ, zero, suc, ◌*◌, ◌/◌, ◌%◌, ◌<◌, ◌≡◌, refl, ap, subst, Bool, true, false, ◌||◌, not, none, some,
  List, [], ◌∷◌, ◌++◌, ok, err, Ensures, holds, rejected, Ensures-bind, Ensures-ok, Ensures-err,
  Ensures-if, Ensures-mono, length, arith, ◌==◌, All, Option-cases, inl, inr, if◌then◌else◌,
  bytes_eq,
}
use bittorrent_client.Bencode.Elements.{ElementRef, DictionaryRef}
use bittorrent_client.Bencode.Length.{u64_mod}
use bittorrent_client.Bencode.Parser.{parse_dictionary_only}
use bittorrent_client.Bencode.Entry.{parse_dictionary_only-Ensures}
use bittorrent_client.Torrent.Values.{ContentError, IsCode}
use bittorrent_client.Torrent.Keys.{KeyParser, mark, invoke_all}
use bittorrent_client.Torrent.Invoke.{
  Keeps, Ran, invoke_all-Ensures, At, after, invoke_all-At, first_value,
}
use bittorrent_client.Torrent.Encoded.{
  IsEncoded, element_as_string-Ensures, element_as_integer-Ensures, parse_as_uint64-Ensures,
}
use bittorrent_client.Torrent.Tables.{both}
use bittorrent_client.Torrent.Content.{code_result-Ensures, values-IsEncoded}
use bittorrent_client.Tracker.Response.{
  PeerAddress, OnSuccess, TrackerResponse, monostate, on_success, on_error, get_or_create_success,
  get_or_create_error, Setter, parse_response_interval, peers_of, parse_response_peers,
  parse_response_failure, key_interval, key_peers, key_failure, response_parsers, finish_response,
  parse_tracker_compact_response_content,
}

-- The bytes that peers stand for.
abbrev pub peer_bytes : List PeerAddress → List ℕ
peer_bytes [] = []
peer_bytes (p ∷ ps) = p.ipv4 ++ (p.port ++ peer_bytes ps)

-- An address of four bytes and a port of two.
abbrev pub IsPacked : PeerAddress → Type 0
IsPacked p = (length p.ipv4 ≡ 4) × (length p.port ≡ 2)

-- From a blob whose size is a multiple of six, the loop makes one peer for every six bytes, and all
-- of its bytes are in the peers, in their order.
pub peers_of-bytes :
    (n : ℕ) (blob : List ℕ)
    → length blob ≡ n * 6
    → (peer_bytes (peers_of blob) ≡ blob)
      × (length (peers_of blob) ≡ n)
      × All IsPacked (peers_of blob)
unfolding peers_of
peers_of-bytes zero [] h = (refl, refl, tt)
peers_of-bytes zero (a ∷ s) h = let bad : ⊥ = omega arith in elim bad [ ]
peers_of-bytes (suc n) [] h = let bad : ⊥ = omega arith in elim bad [ ]
peers_of-bytes (suc n) (a ∷ []) h = let bad : ⊥ = omega arith in elim bad [ ]
peers_of-bytes (suc n) (a ∷ b ∷ []) h = let bad : ⊥ = omega arith in elim bad [ ]
peers_of-bytes (suc n) (a ∷ b ∷ c ∷ []) h = let bad : ⊥ = omega arith in elim bad [ ]
peers_of-bytes (suc n) (a ∷ b ∷ c ∷ d ∷ []) h = let bad : ⊥ = omega arith in elim bad [ ]
peers_of-bytes (suc n) (a ∷ b ∷ c ∷ d ∷ p ∷ []) h = let bad : ⊥ = omega arith in elim bad [ ]
peers_of-bytes (suc n) (a ∷ b ∷ c ∷ d ∷ p ∷ q ∷ rest) h =
    let (bytes, count, packed) = peers_of-bytes n rest (omega (arith, h)) in
    (ap (λ (t : List ℕ). a ∷ b ∷ c ∷ d ∷ p ∷ q ∷ t) bytes, ap suc count, ((refl, refl), packed))

All-append :
    (xs ys : List PeerAddress) → All IsPacked xs → All IsPacked ys → All IsPacked (xs ++ ys)
All-append [] ys hx hy = hy
All-append (x ∷ xs) ys hx hy = (hx.0, All-append xs ys hx.1 hy)

-- What holds of the response at every time.
abbrev pub IsSoundResponse : TrackerResponse → Type 0
IsSoundResponse monostate = Unit {0}
IsSoundResponse (on_success s) = (s.rerequest_dt_secs < u64_mod) × All IsPacked s.peers
IsSoundResponse (on_error e) = Unit {0}

-- The alternative that the parser of "failure reason" leaves, or that the other two leave.
abbrev Status : TrackerResponse → Bool → Type 0
Status monostate b = ⊥
Status (on_success s) b = b ≡ false
Status (on_error e) b = b ≡ true

abbrev Due : List ℕ → TrackerResponse → Type 0
Due key r = Status r (bytes_eq key key_failure)

success-Ensures :
    (r : TrackerResponse)
    → IsSoundResponse r
    → Ensures IsCode
        (λ s.
          IsSoundResponse (on_success s)
          × ((s' : OnSuccess) (b : Bool) → Status r b → Status (on_success s') b))
        (get_or_create_success r)
unfolding get_or_create_success
success-Ensures monostate h = holds ((omega arith, tt), λ s' b x. elim x [ ])
success-Ensures (on_success s) h = holds (h, λ s' b x. x)
success-Ensures (on_error e) h = rejected tt

error-Ensures :
    (r : TrackerResponse)
    → Ensures IsCode
        (λ _. (e' : List ℕ) (b : Bool) → Status r b → Status (on_error e') b)
        (get_or_create_error r)
unfolding get_or_create_error
error-Ensures monostate = holds λ e' b x. elim x [ ]
error-Ensures (on_success s) = rejected tt
error-Ensures (on_error e) = holds λ e' b x. x

response_parsers-Keeps : All (Keeps IsSoundResponse Due IsEncoded) response_parsers
unfolding response_parsers parse_response_interval parse_response_peers parse_response_failure
    bytes_eq
response_parsers-Keeps = (
  (λ r e h enc. Ensures-bind (element_as_integer-Ensures e) λ n _.
      Ensures-bind (parse_as_uint64-Ensures n) λ v fits.
        Ensures-bind (success-Ensures r h) λ s (sound, same). holds (
          (fits, sound.1),
          refl,
          λ k. same (record s { rerequest_dt_secs = v }) (bytes_eq k key_failure),
        )),
  (
    (λ r e h enc. Ensures-bind (element_as_string-Ensures e enc) λ blob w.
        Ensures-if (blob.size == 0 || not (blob.size % 6 == 0)) (λ _. rejected tt)
          (λ t. Ensures-bind (success-Ensures r h) λ s (sound, same).
            let (_, _, packed) = peers_of-bytes (blob.size / 6) blob.bytes (ground (arith, w)) in
            holds (
              (sound.0, All-append s.peers (peers_of blob.bytes) sound.1 packed),
              refl,
              λ k.
                  same (record s { peers = s.peers ++ peers_of blob.bytes })
                    (bytes_eq k key_failure),
            ))),
    (
      (λ r e h enc. Ensures-bind (element_as_string-Ensures e enc) λ str w.
          Ensures-bind (error-Ensures r) λ state same. holds (
            tt,
            refl,
            λ k. same (if str.size == 0 then state else str.bytes) (bytes_eq k key_failure),
          )),
      tt,
    ),
  ),
)

response_parsers-Ran : All (Ran IsSoundResponse Due IsEncoded monostate) response_parsers
unfolding response_parsers
response_parsers-Ran = ((λ h. cc), ((λ h. cc), ((λ h. cc), tt)))

-- A parser of the table before the loop.
abbrev fresh : List ℕ → Setter → KeyParser TrackerResponse
fresh key parse = record { key = key; parse = parse; parsed = false; tracked = none }

Ran-At :
    (key : List ℕ) (n : ℕ) (ps : List (KeyParser TrackerResponse)) (p : KeyParser TrackerResponse)
    (r : TrackerResponse)
    → At key n ps p
    → All (Ran IsSoundResponse Due IsEncoded r) ps
    → Ran IsSoundResponse Due IsEncoded r p
Ran-At key n [] p r at ran = elim at [ ]
Ran-At key zero (q ∷ ps) p r at ran =
    subst (λ (x : KeyParser TrackerResponse). Ran IsSoundResponse Due IsEncoded r x) at.0 ran.0
Ran-At key (suc n) (q ∷ ps) p r at ran = Ran-At key n ps p r at.1 ran.1

-- Where a key has a value, its parser ran.
Due-first_value :
    (key : List ℕ) (parse : Setter) (n : ℕ) (ps : List (KeyParser TrackerResponse))
    (r : TrackerResponse) (d : DictionaryRef) (e : ElementRef)
    → At key n ps (after (fresh key parse) d)
    → All (Ran IsSoundResponse Due IsEncoded r) ps
    → first_value key d ≡ some e
    → Due key r
Due-first_value key parse n ps r d e at ran found =
    let is_marked : after (fresh key parse) d ≡ mark (fresh key parse) e = rw found refl in
    Ran-At key n ps (mark (fresh key parse) e) r
      (subst (λ (x : KeyParser TrackerResponse). At key n ps x) is_marked at) ran refl

-- The keys that a response comes from: of the success and of the failure, only one kind is there.
abbrev pub IsOf : DictionaryRef → TrackerResponse → Type 0
IsOf d monostate = ⊥
IsOf d (on_success s) = first_value key_failure d ≡ none
IsOf d (on_error e) = (first_value key_interval d ≡ none) × (first_value key_peers d ≡ none)

-- A key whose parser would leave the other alternative has no value.
absent :
    (key : List ℕ) (d : DictionaryRef) (r : TrackerResponse)
    → ((e : ElementRef) → first_value key d ≡ some e → Due key r)
    → ¬ Due key r
    → first_value key d ≡ none
absent key d r h no_due = elim (Option-cases (first_value key d)) [
  | inl e ↦ e
  | inr (e, found) ↦ elim (no_due (h e found)) [ ]
]

finish_response-Ensures :
    (d : DictionaryRef) (r : TrackerResponse)
    → IsSoundResponse r
    → ((e : ElementRef) → first_value key_interval d ≡ some e → Due key_interval r)
    → ((e : ElementRef) → first_value key_peers d ≡ some e → Due key_peers r)
    → ((e : ElementRef) → first_value key_failure d ≡ some e → Due key_failure r)
    → Ensures IsCode (λ r'. IsSoundResponse r' × IsOf d r') (finish_response r)
unfolding bytes_eq
finish_response-Ensures d monostate h hi hp hf = rejected tt
finish_response-Ensures d (on_success s) h hi hp hf =
    holds (h, absent key_failure d (on_success s) hf λ x. cc)
finish_response-Ensures d (on_error e) h hi hp hf =
    holds (
      h,
      (absent key_interval d (on_error e) hi λ x. cc, absent key_peers d (on_error e) hp λ x. cc),
    )

response_parsers-At :
    At key_interval 0 response_parsers (fresh key_interval parse_response_interval)
    × At key_peers 1 response_parsers (fresh key_peers parse_response_peers)
    × At key_failure 2 response_parsers (fresh key_failure parse_response_failure)
unfolding response_parsers bytes_eq
response_parsers-At = ((refl, refl), (refl, (refl, refl)), (refl, (refl, (refl, refl))))

parse_tracker_compact_response_content-Ensures :
    (content : List ℕ)
    → Ensures IsCode
        (λ r.
          (d : DictionaryRef) × (parse_dictionary_only content ≡ ok d)
          × IsSoundResponse r
          × IsOf d r)
        (parse_tracker_compact_response_content content)
unfolding parse_tracker_compact_response_content
parse_tracker_compact_response_content-Ensures content =
    Ensures-bind
      (code_result-Ensures (parse_dictionary_only content) (parse_dictionary_only-Ensures content))
      λ d (begins, parsed).
        let run = invoke_all response_parsers monostate d in
        let good =
          invoke_all-Ensures IsSoundResponse Due IsEncoded response_parsers monostate d
            (response_parsers-Keeps, response_parsers-Ran, tt)
            (values-IsEncoded content d begins) in
        let at_interval =
          invoke_all-At key_interval 0 response_parsers _ monostate d response_parsers-At.0 in
        let at_peers =
          invoke_all-At key_peers 1 response_parsers _ monostate d response_parsers-At.1 in
        let at_failure =
          invoke_all-At key_failure 2 response_parsers _ monostate d response_parsers-At.2 in
        Ensures-bind (both run (both run (both run good at_interval) at_peers) at_failure)
          λ (ps, r) (((good', i), p), f).
            Ensures-mono
              (finish_response-Ensures d r good'.2
                (λ e h. Due-first_value key_interval parse_response_interval 0 ps r d e i good'.1 h)
                (λ e h. Due-first_value key_peers parse_response_peers 1 ps r d e p good'.1 h)
                (λ e h. Due-first_value key_failure parse_response_failure 2 ps r d e f good'.1 h))
              λ r' (sound, of_d). (d, parsed, sound, of_d)

-- A response that is returned is a success or a failure. A success has an interval below 2 ^ 64 and
-- peers of four and two bytes each, and the dictionary has no "failure reason"; a failure comes from
-- a dictionary that has neither "interval" nor "peers".
pub parse_tracker_compact_response_content-valid :
    (content : List ℕ) (r : TrackerResponse)
    → parse_tracker_compact_response_content content ≡ ok r
    → (d : DictionaryRef) × (parse_dictionary_only content ≡ ok d) × IsSoundResponse r × IsOf d r
parse_tracker_compact_response_content-valid content r h =
    Ensures-ok (parse_tracker_compact_response_content-Ensures content) h

-- Where no response is returned, an error code is, or the parser has met the length of a string that is at least
-- 2 ^ 63, where the sum with an address may overflow and the model ends: no assertion of the parser fails and
-- its fuel suffices, whatever the tracker sent.
pub parse_tracker_compact_response_content-total :
    (content : List ℕ) (x : ContentError)
    → parse_tracker_compact_response_content content ≡ err x
    → IsCode x
parse_tracker_compact_response_content-total content x h =
    Ensures-err (parse_tracker_compact_response_content-Ensures content) h
