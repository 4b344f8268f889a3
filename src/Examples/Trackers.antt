-- ===== src/Examples/Trackers.antt =====
-- The exchange with a UDP tracker, at a small one.
use bittorrent_client.Base.{
  ℕ, suc, ◌%◌, ◌≡◌, refl, some, List, [], ◌∷◌, ◌++◌, ok, err, arith, ◌==◌, if◌then◌else◌, replicate,
}
use bittorrent_client.Tracker.Response.{on_success, peers_of}
use bittorrent_client.Wire.Messages.{todo}
use bittorrent_client.Announce.Messages.{
  UdpAnnounce, serialize_announce, UdpAnnounceResponse, parse_announce_response,
}
use bittorrent_client.Announce.Layout.{
  connect_answer, IsWellFormed, announce_question, serialize_announce_lem,
}
use bittorrent_client.Announce.Promise.{announce_answer, parse_announce_response_lem}
use bittorrent_client.Announce.Exchange.{
  Network, UdpRequest, announce_message, udp_tracker_announce,
}
use bittorrent_client.Announce.Served.{Served, udp_tracker_announce-served}

abbrev peer_id_bytes : List ℕ
peer_id_bytes = replicate 20 45

abbrev info_hash_bytes : List ℕ
info_hash_bytes = replicate 20 170

abbrev udp_request : UdpRequest
udp_request = record {
  info = record { server_port = 6881; pieces_left = 3; uploaded_pieces = 0; downloaded_pieces = 1 };
  host = 116 ∷ [];
  port = 80;
  info_hash = info_hash_bytes;
  peer_id = peer_id_bytes;
}

abbrev body : List ℕ
body = 10 ∷ 0 ∷ 0 ∷ 1 ∷ 26 ∷ 225 ∷ 10 ∷ 0 ∷ 0 ∷ 2 ∷ 26 ∷ 225 ∷ []

abbrev answer : UdpAnnounceResponse
answer = record {
  action = 1;
  transaction_id = 7;
  intervals_secs = 1800;
  leechers = 1;
  seeders = 2;
  peers = [];
}

-- Every number that is drawn is 7, and the state counts the calls.
abbrev small_network : Network ℕ
small_network = record {
  random = λ w. (7, suc w);
  open_socket = λ w. (ok tt, suc w);
  async_resolve = λ host port w. (ok tt, suc w);
  async_send_to = λ bytes w. (ok tt, suc w);
  async_receive_from = λ size timeout w. (
    ok (
        if size == 16
        then connect_answer (record { action = 0; transaction_id = 7; connection_id = 99 })
        else announce_answer answer body),
    suc w,
  );
}

abbrev message : UdpAnnounce
message = announce_message small_network udp_request 99 7 7

message-IsWellFormed : IsWellFormed message
message-IsWellFormed = record {
  connection_id-lt = omega arith;
  action-lt = omega arith;
  transaction_id-lt = omega arith;
  length-info_hash = refl;
  length-peer_id = refl;
  downloaded-lt = omega arith;
  left-lt = omega arith;
  uploaded-lt = omega arith;
  event-lt = omega arith;
  ip-lt = omega arith;
  key-lt = omega arith;
  num_want-lt = omega arith;
  port-lt = omega arith;
}

serialize_announce_lem_example : serialize_announce message ≡ some (announce_question message)
serialize_announce_lem_example = serialize_announce_lem message message-IsWellFormed

parse_announce_response_lem_example :
    parse_announce_response (announce_answer answer body ++ (0 ∷ [])) 32
    ≡ some (if 12 % 6 == 0 then ok (record answer { peers = peers_of body }) else err todo)
parse_announce_response_lem_example =
    parse_announce_response_lem answer body (0 ∷ []) (omega arith) (omega arith) (omega arith)
      (omega arith) (omega arith)

served : Served small_network udp_request 0 9 99 answer body
served = record {
  opened = 1;
  resolved = 2;
  asking = 3;
  asked = 4;
  connected = 5;
  drawn = 6;
  announcing = 7;
  announced = 8;
  transaction_id = 7;
  key = 7;
  opens = refl;
  resolves = refl;
  draws = refl;
  sends = refl;
  connects = refl;
  draws_again = refl;
  draws_key = refl;
  sends_again = refl;
  answers = refl;
  transaction_id-lt = omega arith;
  connection_id-lt = omega arith;
  connection_id_positive = omega arith;
  well_formed = message-IsWellFormed;
  action = refl;
  intervals_secs-lt = omega arith;
  leechers-lt = omega arith;
  seeders-lt = omega arith;
  body_peers = 1;
  length-body = refl;
}

udp_tracker_announce-served_example :
    udp_tracker_announce small_network udp_request 0
    ≡ some (ok (on_success (record { rerequest_dt_secs = 1800; peers = peers_of body })), 9)
udp_tracker_announce-served_example =
    udp_tracker_announce-served small_network udp_request 0 9 99 answer body served
