-- ===== src/Announce/Served.antt =====
-- An announce that the tracker serves, packet by packet.
use bittorrent_client.Base.{
  not, ap₂, ℕ, suc, ◌+◌, ◌*◌, ◌%◌, ◌^◌, ◌≤◌, ◌<◌, ◌≡◌, refl, ap, sym, ◌∙◌, true, some, List, [],
  ◌++◌, ok, arith, length, length-append, lt→ltb, ltb, ==_refl, ◌==◌, append-nil,
}
use bittorrent_client.Wire.Endian.{network_of}
use bittorrent_client.Tracker.Response.{on_success, peers_of}
use bittorrent_client.Announce.Messages.{
  parse_connect, UdpConnect, UdpAnnounce, UdpAnnounceResponse, parse_announce_response,
}
use bittorrent_client.Announce.Layout.{
  connect_question, connect_answer, serialize_connect_lem, parse_connect-connect_answer,
  IsWellFormed, announce_question, serialize_announce_lem,
}
use bittorrent_client.Announce.Promise.{announce_answer, parse_announce_response_lem}
use bittorrent_client.Announce.Exchange.{
  or_todo, async_connect, async_announce, connect_loop, retry_timeout, Network, UdpRequest,
  udp_tracker_announce, announce_message,
}
use bittorrent_client.Announce.Resume.{
  resume_ok, co_parsed_ok, co_parsed_response_ok, asserted, received,
}
use bittorrent_client.Announce.Lengths.{
  length-network_of, length-announce_answer, peers_of-positive,
}

module _ {W : Type 0} (net : Network W) (request : UdpRequest) where
  -- A run of the network: the tracker answers the connect with `connection_id`, and the announce with the
  -- words of `answer` and the bytes `body`.
  pub record Served (start final : W) (connection_id : ℕ) (answer : UdpAnnounceResponse)
      (body : List ℕ) : Type 0 where
    pub opened : W
    pub resolved : W
    pub asking : W
    pub asked : W
    pub connected : W
    pub drawn : W
    pub announcing : W
    pub announced : W
    pub transaction_id : ℕ
    pub key : ℕ
    pub opens : net.open_socket start ≡ (ok tt, opened)
    pub resolves : net.async_resolve request.host request.port opened ≡ (ok tt, resolved)
    pub draws : net.random resolved ≡ (transaction_id, asking)
    pub sends :
        net.async_send_to
          (connect_question
            (record { action = 0; transaction_id = transaction_id; connection_id = 0x41727101980 }))
          asking
        ≡ (ok tt, asked)
    pub connects : net.async_receive_from 16 2 asked ≡ (
      ok (
          connect_answer (record {
            action = 0;
            transaction_id = transaction_id;
            connection_id = connection_id;
          })),
      connected,
    )
    pub draws_again : net.random connected ≡ (answer.transaction_id, drawn)
    pub draws_key : net.random drawn ≡ (key, announcing)
    pub sends_again :
        net.async_send_to
          (announce_question (announce_message net request connection_id answer.transaction_id key))
          announcing
        ≡ (ok tt, announced)
    pub answers : net.async_receive_from 788 2 announced ≡ (ok (announce_answer answer body), final)
    pub transaction_id-lt : transaction_id < 2 ^ 32
    pub connection_id-lt : connection_id < 2 ^ 64
    pub connection_id_positive : 0 < connection_id
    pub well_formed :
        IsWellFormed (announce_message net request connection_id answer.transaction_id key)
    pub action : answer.action ≡ 1
    pub intervals_secs-lt : answer.intervals_secs < 2 ^ 32
    pub leechers-lt : answer.leechers < 2 ^ 32
    pub seeders-lt : answer.seeders < 2 ^ 32
    pub body_peers : ℕ
    pub length-body : length body ≡ 6 * suc body_peers

  module _ (start final : W) (connection_id : ℕ) (answer : UdpAnnounceResponse) (body : List ℕ)
      (s : Served start final connection_id answer body) where
    connected_lem : async_connect net s.resolved ≡ some (ok connection_id, s.connected)
    unfolding async_connect connect_loop retry_timeout
    connected_lem =
        let question : UdpConnect = record {
          action = 0;
          transaction_id = s.transaction_id;
          connection_id = 0x41727101980;
        } in
        let reply : UdpConnect = record {
          action = 0;
          transaction_id = s.transaction_id;
          connection_id = connection_id;
        } in
        let size : 16 ≤ length (connect_answer reply) = omega (
          arith,
          length-append (network_of 4 0)
              (network_of 4 s.transaction_id ++ network_of 8 connection_id),
          length-append (network_of 4 s.transaction_id) (network_of 8 connection_id),
          length-network_of 4 0,
          length-network_of 4 s.transaction_id,
          length-network_of 8 connection_id,
        ) in
        resume_ok _ (ap (λ drawn. some (ok drawn.0, drawn.1)) s.draws) (
          resume_ok _
            (rw (serialize_connect_lem question (omega arith) s.transaction_id-lt (omega arith))
              refl)
            (resume_ok _ (ap some s.sends) (
              rw (received net 16 2 16 (connect_answer reply) s.asked s.connected s.connects size) (
                resume_ok _
                  (co_parsed_ok (parse_connect (connect_answer reply)) reply s.connected (
                    parse_connect-connect_answer reply (omega arith) s.transaction_id-lt
                      s.connection_id-lt))
                  (resume_ok _ (asserted (0 == 0) s.connected refl) (
                    resume_ok _
                      (asserted (s.transaction_id == s.transaction_id) s.connected
                        (==_refl s.transaction_id))
                      (resume_ok _
                        (asserted (not (connection_id == 0)) s.connected
                          (ground (arith, s.connection_id_positive)))
                        refl)))))))

    length-answer : length (announce_answer answer body) ≡ 20 + length body
    length-answer = length-announce_answer answer body

    parsed :
        parse_announce_response (announce_answer answer body) (length (announce_answer answer body))
        ≡ some (ok (record answer { peers = peers_of body }))
    parsed =
        let six : (length body % 6 == 0) ≡ true = ground (arith, s.length-body) in
        ap₂ parse_announce_response (sym (append-nil (announce_answer answer body))) length-answer
        ∙ parse_announce_response_lem answer body [] (omega (arith, s.action))
            s.well_formed.transaction_id-lt s.intervals_secs-lt s.leechers-lt s.seeders-lt
        ∙ rw (six) refl

    some_peers : ltb 0 (length (peers_of body)) ≡ true
    some_peers =
        lt→ltb 0 (length (peers_of body)) (peers_of-positive s.body_peers body s.length-body)

    announced_lem :
        async_announce net request connection_id s.connected
        ≡ some (
          ok (
              on_success
                (record { rerequest_dt_secs = answer.intervals_secs; peers = peers_of body })),
          final,
        )
    unfolding async_announce retry_timeout
    announced_lem =
        let message : UdpAnnounce =
          announce_message net request connection_id answer.transaction_id s.key in
        resume_ok _ (ap (λ drawn. some (ok drawn.0, drawn.1)) s.draws_again) (
          resume_ok _ (ap (λ drawn. some (ok drawn.0, drawn.1)) s.draws_key) (
            resume_ok _ (rw (serialize_announce_lem message s.well_formed) refl) (
              resume_ok _ (ap some s.sends_again) (
                resume_ok _
                  (ap (or_todo net) (
                    received net 788 2 20 (announce_answer answer body) s.announced final s.answers
                      (omega (arith, length-answer))))
                  (resume_ok _
                    (co_parsed_response_ok net
                      (parse_announce_response (announce_answer answer body)
                        (length (announce_answer answer body)))
                      (record answer { peers = peers_of body }) final parsed)
                    (resume_ok _ (asserted (answer.action == 1) final (rw (s.action) refl)) (
                      resume_ok _
                        (asserted (answer.transaction_id == answer.transaction_id) final
                          (==_refl answer.transaction_id))
                        (rw (some_peers) refl))))))))

    -- UDP_TrackerAnnounce with a tracker that serves it ends with the interval and the peers of the tracker's
    -- answer. Served means: the socket opens and the host resolves; the client draws its numbers and sends the
    -- connect in the layout of BEP 15; the tracker's first packet has that transaction id and a connection id
    -- that is not zero; the client sends the announce with this connection id in the layout of BEP 15, the port
    -- in it being that of the tracker's address; and the second packet has the action 1, the second transaction
    -- id and one or more addresses of six bytes.
    pub udp_tracker_announce-served :
        udp_tracker_announce net request start
        ≡ some (
          ok (
              on_success
                (record { rerequest_dt_secs = answer.intervals_secs; peers = peers_of body })),
          final,
        )
    unfolding udp_tracker_announce
    udp_tracker_announce-served = resume_ok _ (ap some s.opens) (
        resume_ok _ (ap some s.resolves) (
          resume_ok _ connected_lem (
            resume_ok _
              (asserted (not (connection_id == 0)) s.connected
                (ground (arith, s.connection_id_positive)))
              announced_lem)))
