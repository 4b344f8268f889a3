-- ===== src/Announce/Exchange.antt =====
-- AsyncConnect, AsyncAnnounce and UDP_TrackerAnnounce of src/bittorrent_client/tracker_requests.cpp. The
-- sockets, the resolver, the timers and the random device are a parameter, with a state `W`.
use bittorrent_client.Base.{
  ℕ, zero, suc, ◌-◌, ◌*◌, ◌%◌, ◌^◌, Bool, not, Option, none, some, List, Result, ok, err, leb, ltb,
  ◌==◌, if◌then◌else◌, length,
}
use bittorrent_client.Wire.Messages.{ClientError}
use bittorrent_client.Tracker.Response.{TrackerResponse, on_success}
use bittorrent_client.Announce.Messages.{
  serialize_connect, parse_connect, UdpAnnounce, serialize_announce, UdpAnnounceResponse,
  parse_announce_response,
}

-- ClientErrorc::TODO, asio::error::operation_aborted, and the other codes.
pub data Failure : Type 0 where
  client_todo : Failure
  operation_aborted : Failure
  other_error : ℕ → Failure

pub record RequestInfo : Type 0 where
  pub server_port : ℕ
  pub pieces_left : ℕ
  pub uploaded_pieces : ℕ
  pub downloaded_pieces : ℕ

pub record UdpRequest : Type 0 where
  pub info : RequestInfo
  pub host : List ℕ
  pub port : ℕ
  pub info_hash : List ℕ
  pub peer_id : List ℕ

-- The calls of the outside. `async_receive_from` takes the size of the buffer and the timeout in seconds, and
-- gives what the callback of the socket's call is given: an error, or the bytes received.
pub record Network (W : Type 0) : Type 0 where
  pub random : W → ℕ × W
  pub open_socket : W → Result Failure (Unit {0}) × W
  pub async_resolve : List ℕ → ℕ → W → Result Failure (Unit {0}) × W
  pub async_send_to : List ℕ → W → Result Failure (Unit {0}) × W
  pub async_receive_from : ℕ → ℕ → W → Result Failure (List ℕ) × W

-- A coroutine: `none` where an assertion fails.
abbrev pub Coroutine : Type 0 → Type 0 → Type 0
Coroutine W A = W → Option (Result Failure A × W)

module _ {W A B : Type 0} where
  unfoldable pub resume :
      (A → Coroutine W B) → Option (Result Failure A × W) → Option (Result Failure B × W)
  resume k none = none
  resume k (some (ok a, w)) = k a w
  resume k (some (err e, w)) = some (err e, w)

  -- OUTCOME_CO_TRY on a coroutine.
  infixl 5 ◌>>=◌
  abbrev pub ◌>>=◌ : Coroutine W A → (A → Coroutine W B) → Coroutine W B
  (m >>= k) w = resume k (m w)

module _ {W A : Type 0} where
  abbrev pub co_return : A → Coroutine W A
  co_return a w = some (ok a, w)

  abbrev pub co_fail : Failure → Coroutine W A
  co_fail e w = some (err e, w)

  abbrev pub co_await : (W → Result Failure A × W) → Coroutine W A
  co_await call w = some (call w)

  -- A value whose computation may fail an assertion.
  abbrev pub co_assert : Option A → Coroutine W A
  co_assert (some a) w = some (ok a, w)
  co_assert none w = none

  abbrev pub co_parsed : Result ClientError A → Coroutine W A
  co_parsed (ok a) w = some (ok a, w)
  co_parsed (err e) w = some (err client_todo, w)

abbrev pub when : Bool → Option (Unit {0})
when b = if b then some tt else none

-- RetryTimeout, with k_wait_base_secs = 2.
unfoldable pub retry_timeout : ℕ → ℕ
retry_timeout n = 2 * 2 ^ n % 2 ^ 32

module _ {W : Type 0} (net : Network W) where
  abbrev pub random : Coroutine W ℕ
  random w = let drawn = net.random w in some (ok drawn.0, drawn.1)

  -- AsyncReceiveWithTimeout, after the race of its timers.
  unfoldable pub async_receive_with_timeout : ℕ → ℕ → ℕ → Coroutine W (List ℕ)
  async_receive_with_timeout size timeout read_minimum =
      co_await (net.async_receive_from size timeout) >>= λ bytes.
      if leb read_minimum (length bytes) then co_return bytes else co_fail client_todo

  -- The rest of a round of AsyncConnect, after the wait.
  abbrev pub connect_received : ℕ → Coroutine W ℕ → Result Failure (List ℕ) → Coroutine W ℕ
  connect_received transaction_id next (ok buffer) =
      co_parsed (parse_connect buffer) >>= λ response.
      co_assert (when (response.action == 0)) >>= λ _.
      co_assert (when (response.transaction_id == transaction_id)) >>= λ _.
      co_assert (when (not (response.connection_id == 0))) >>= λ _. co_return response.connection_id
  connect_received transaction_id next (err operation_aborted) = next
  connect_received transaction_id next (err e) = co_fail e

  -- The loop of AsyncConnect: the rounds left, and `i`.
  unfoldable pub connect_loop : ℕ → ℕ → Coroutine W ℕ
  unfolding async_receive_with_timeout
  connect_loop zero i = co_fail client_todo
  connect_loop (suc rounds) i =
      let next = connect_loop rounds (suc i) in
      random >>= λ transaction_id.
      co_assert (
        serialize_connect
          (record { action = 0; transaction_id = transaction_id; connection_id = 0x41727101980 }))
      >>= λ connect. co_await (net.async_send_to connect) >>= λ _ w.
          elim (async_receive_with_timeout 16 (retry_timeout i) 16 w) [
            | none ↦ none
            | some got ↦ connect_received transaction_id next got.0 got.1
          ]

  -- k_retry_N_max is 0.
  unfoldable pub async_connect : Coroutine W ℕ
  unfolding connect_loop
  async_connect = connect_loop 1 0

  -- The failure to receive is not passed on.
  abbrev pub or_todo : Option (Result Failure (List ℕ) × W) → Option (Result Failure (List ℕ) × W)
  or_todo (some (ok bytes, w)) = some (ok bytes, w)
  or_todo (some (err e, w)) = some (err client_todo, w)
  or_todo none = none

  abbrev pub co_parsed_response :
      Option (Result ClientError UdpAnnounceResponse) → Coroutine W UdpAnnounceResponse
  co_parsed_response (some r) w = co_parsed r w
  co_parsed_response none w = none

  abbrev pub announce_message : UdpRequest → ℕ → ℕ → ℕ → UdpAnnounce
  announce_message request connection_id transaction_id key = record {
    connection_id = connection_id;
    action = 1;
    transaction_id = transaction_id;
    info_hash = request.info_hash;
    peer_id = request.peer_id;
    downloaded = request.info.downloaded_pieces;
    left = request.info.pieces_left;
    uploaded = request.info.uploaded_pieces;
    event = 0;
    ip = 0;
    key = key;
    num_want = 2 ^ 32 - 1;
    port = request.port;
  }

  unfoldable pub async_announce : UdpRequest → ℕ → Coroutine W TrackerResponse
  unfolding async_receive_with_timeout
  async_announce request connection_id = random >>= λ transaction_id. random >>= λ key.
      co_assert (serialize_announce (announce_message request connection_id transaction_id key))
      >>= λ announce. co_await (net.async_send_to announce) >>= λ _.
          (λ w. or_todo (async_receive_with_timeout 788 (retry_timeout 0) 20 w)) >>= λ buffer.
          co_parsed_response (parse_announce_response buffer (length buffer)) >>= λ response.
          co_assert (when (response.action == 1)) >>= λ _.
          co_assert (when (response.transaction_id == transaction_id)) >>= λ _.
          if ltb 0 (length response.peers)
          then co_return (
              on_success
                (record { rerequest_dt_secs = response.intervals_secs; peers = response.peers }))
          else co_fail client_todo

  unfoldable pub udp_tracker_announce : UdpRequest → Coroutine W TrackerResponse
  unfolding async_connect async_announce
  udp_tracker_announce request = co_await net.open_socket >>= λ _.
      co_await (net.async_resolve request.host request.port) >>= λ _.
      async_connect >>= λ connection_id.
      co_assert (when (not (connection_id == 0))) >>= λ _. async_announce request connection_id
