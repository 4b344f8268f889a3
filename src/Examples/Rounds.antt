-- ===== src/Examples/Rounds.antt =====
-- A round with one peer, which has the one piece of a small torrent.
use bittorrent_client.Base.{refl, true, false, some, [], ◌∷◌, replicate, ◌++◌}
use bittorrent_client.Wire.Messages.{unchoke_message, piece_message, piece_data}
use bittorrent_client.Download.Pieces.{PiecesToDownload}
use bittorrent_client.Download.Peer.{Peer, starting, ended, proceed, sent_, got, peer_step}
use bittorrent_client.Download.Owned.{IsOwned, count, count_pieces}
use bittorrent_client.Download.Rounds.{
  resumed, RoundSteps, finish, next, held_all, RoundSteps-IsOwned,
}

abbrev before_round : PiecesToDownload
before_round = record {
  pieces = [];
  to_retry = [];
  pieces_count = 1;
  piece_size = 4;
  total_size = 3;
  next_piece_index = 0;
  downloaded_pieces_count = 0;
}

abbrev after_round : PiecesToDownload
after_round = record before_round { next_piece_index = 1; downloaded_pieces_count = 1 }

abbrev choked_peer : Peer
choked_peer = record { bitfield = 5 ∷ 128 ∷ []; unchocked = false; phase = starting }

abbrev done_peer : Peer
done_peer = record choked_peer { unchocked = true; phase = ended }

one_round : RoundSteps before_round (choked_peer ∷ []) after_round (done_peer ∷ [])
unfolding peer_step piece_data
one_round = next (resumed before_round _ choked_peer _ [] [] proceed refl) (
    next (resumed _ _ _ _ [] [] (got (some unchoke_message)) refl) (
      next (resumed _ _ _ _ [] [] (sent_ true) refl) (
        next
          (resumed _ _ _ _ [] []
            (got (
              some (
                piece_message (record {
                  payload = replicate 9 0 ++ 1 ∷ 2 ∷ 3 ∷ [];
                  data_offset = 9;
                  piece_index = 0;
                  piece_begin = 0;
                }))))
            refl)
          (next (resumed _ _ _ _ [] [] (sent_ true) refl)
            (next (resumed _ _ _ _ [] [] proceed refl) finish)))))

before_round-IsOwned : IsOwned before_round (held_all (choked_peer ∷ []))
unfolding IsOwned count count_pieces held_all
before_round-IsOwned k = refl

RoundSteps-IsOwned_example : IsOwned after_round (held_all (done_peer ∷ []))
RoundSteps-IsOwned_example =
    RoundSteps-IsOwned before_round after_round (choked_peer ∷ []) (done_peer ∷ []) one_round
      before_round-IsOwned
