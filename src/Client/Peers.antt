-- ===== src/Client/Peers.antt =====
-- TryGetOnlyPeers and RemoveDuplicates of src/bittorrent_client/torrent_client.cpp. The members of an
-- address are compared as the words that their bytes are in memory.
use bittorrent_client.Base.{
  Bool, ◌&&◌, ◌||◌, List, [], ◌∷◌, Result, ok, err, ltb, ◌==◌, if◌then◌else◌,
}
use bittorrent_client.Wire.Endian.{word_of}
use bittorrent_client.Tracker.Response.{
  PeerAddress, TrackerResponse, monostate, on_success, on_error,
}
use bittorrent_client.Announce.Exchange.{Failure, client_todo}

unfoldable pub try_get_only_peers : TrackerResponse → Result Failure (List PeerAddress)
try_get_only_peers (on_success s) = ok s.peers
try_get_only_peers (on_error e) = err client_todo
try_get_only_peers monostate = err client_todo

-- std::tie(lhs.ipv4_, lhs.port_) < std::tie(rhs.ipv4_, rhs.port_).
unfoldable pub peer_less : PeerAddress → PeerAddress → Bool
peer_less l r =
    ltb (word_of l.ipv4) (word_of r.ipv4)
    || ((word_of l.ipv4 == word_of r.ipv4) && ltb (word_of l.port) (word_of r.port))

-- std::tie(lhs.ipv4_, lhs.port_) == std::tie(rhs.ipv4_, rhs.port_).
unfoldable pub peer_same : PeerAddress → PeerAddress → Bool
peer_same l r = (word_of l.ipv4 == word_of r.ipv4) && (word_of l.port == word_of r.port)

-- std::sort, by insertion.
unfoldable pub insert_peer : PeerAddress → List PeerAddress → List PeerAddress
unfolding peer_less
insert_peer p [] = p ∷ []
insert_peer p (x ∷ xs) =
    let rest = insert_peer p xs in if peer_less p x then p ∷ x ∷ xs else x ∷ rest

unfoldable pub sort_peers : List PeerAddress → List PeerAddress
unfolding insert_peer
sort_peers [] = []
sort_peers (x ∷ xs) = insert_peer x (sort_peers xs)

-- std::unique and the erase: of a group of equal neighbours the first stays. `x` is the last that stays.
unfoldable pub unique_from : PeerAddress → List PeerAddress → List PeerAddress
unfolding peer_same
unique_from x [] = x ∷ []
unique_from x (y ∷ ys) =
    let same = unique_from x ys in
    let other = unique_from y ys in if peer_same x y then same else x ∷ other

unfoldable pub unique_peers : List PeerAddress → List PeerAddress
unfolding unique_from
unique_peers [] = []
unique_peers (x ∷ xs) = unique_from x xs

unfoldable pub remove_duplicates : List PeerAddress → List PeerAddress
unfolding sort_peers unique_peers
remove_duplicates all_peers = unique_peers (sort_peers all_peers)
