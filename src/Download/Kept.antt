-- ===== src/Download/Kept.antt =====
-- What a coroutine's step does to the pieces that it and the others hold.
use bittorrent_client.Base.{
  Result, ok, err, ℕ, suc, ◌+◌, ◌%◌, ◌^◌, ◌≡◌, refl, ap, Bool, true, false, Option, none, some,
  List, ◌∷◌, ◌++◌, ltb, ◌==◌, arith, Bool-cases, Option-cases, inl, inr, subst,
}
use bittorrent_client.Wire.Messages.{
  AnyMessage, interested_message, not_interested_message, bitfield_message, request_message,
  cancel_message, unknown_message, choke_message, unchoke_message, have_message, piece_message,
  keep_alive_message, piece_data,
}
use bittorrent_client.Download.Pieces.{
  has_piece, PieceState, PiecesToDownload, get_piece_size, pop_piece_to_download, take_retry,
  find_piece, update_piece, on_piece_part_receive, part_received, store_part, receive_part,
  PartFailure,
}
use bittorrent_client.Download.Peer.{
  Peer, Phase, starting, requesting, reading, announcing, ended, started, on_sent, with_bitfield,
  loop_peer, loop_pieces, on_message, on_read, on_start, Event, proceed, sent_, got, peer_step,
  set_piece,
}
use bittorrent_client.Download.Owned.{
  one, count, IsOwned, held, count_pieces-snoc, count-take_retry,
}
use bittorrent_client.Download.Held.{
  HasIndex, StoresIndex, receive_part-StoresIndex, find_piece-HasIndex, Keeps, retry-IsOwned,
  update-IsOwned, fail_with-Keeps, loop_head-Keeps,
}

module _ (others : List ℕ) where
  started-Keeps :
      (o : Option ℕ) (p : PiecesToDownload) (peer : Peer)
      → ((h : ℕ) → o ≡ some h → IsOwned p (h ∷ others))
      → (o ≡ none → IsOwned p others)
      → Keeps others (started o p peer)
  unfolding Keeps held
  started-Keeps none p peer own rest = rest refl
  started-Keeps (some h) p peer own rest = elim (Bool-cases (has_piece peer.bitfield h)) [
    | inl e ↦ rw (e) (loop_head-Keeps others p peer h 0 0 (own h refl))
    | inr e ↦ rw (e) (retry-IsOwned others p h (own h refl))
  ]

  on_sent-Keeps :
      (success : Bool) (p : PiecesToDownload) (peer : Peer) (phase : Phase)
      → IsOwned p (held phase ++ others)
      → Keeps others (on_sent success p peer phase)
  unfolding Keeps held on_sent
  on_sent-Keeps true p peer (requesting h sent received block_size) o =
      update-IsOwned others p h (λ x. record x { requested = (x.requested + block_size) % 2 ^ 32 })
        (h ∷ others) (λ x e. e) o
  on_sent-Keeps false p peer (requesting h sent received block_size) o =
      fail_with-Keeps others h p peer o
  on_sent-Keeps true p peer (announcing h) o = o
  on_sent-Keeps false p peer (announcing h) o = o
  on_sent-Keeps true p peer starting o = tt
  on_sent-Keeps false p peer starting o = tt
  on_sent-Keeps true p peer (reading h sent received) o = tt
  on_sent-Keeps false p peer (reading h sent received) o = tt
  on_sent-Keeps true p peer ended o = tt
  on_sent-Keeps false p peer ended o = tt

  loop_peer-Keeps :
      (o : Option Peer) (p : PiecesToDownload) (h sent received : ℕ)
      → IsOwned p (h ∷ others)
      → Keeps others (loop_peer o p h sent received)
  unfolding Keeps
  loop_peer-Keeps (some peer) p h sent received own =
      loop_head-Keeps others p peer h sent received own
  loop_peer-Keeps none p h sent received own = tt

  store-Keeps :
      (p : PiecesToDownload) (peer : Peer) (h sent received : ℕ) (o : Result PartFailure PieceState)
      → IsOwned p (h ∷ others)
      → StoresIndex h o
      → Keeps others (loop_pieces (store_part p h o) peer h sent received)
  unfolding StoresIndex Keeps
  store-Keeps p peer h sent received (err x) own e = tt
  store-Keeps p peer h sent received (ok x') own e =
      loop_head-Keeps others (record p { pieces = update_piece h (λ _. x') p.pieces }) peer h sent
        received (update-IsOwned others p h (λ _. x') (h ∷ others) (λ y same. e) own)

  received-Keeps :
      (p : PiecesToDownload) (peer : Peer) (h sent received begin : ℕ) (bytes : List ℕ)
      (size : Option ℕ) (x : Option PieceState)
      → IsOwned p (h ∷ others)
      → HasIndex h x
      → Keeps others (loop_pieces (part_received p h begin bytes size x) peer h sent received)
  unfolding HasIndex Keeps
  received-Keeps p peer h sent received begin bytes none x own e = tt
  received-Keeps p peer h sent received begin bytes (some size) none own e = tt
  received-Keeps p peer h sent received begin bytes (some size) (some x) own e =
      store-Keeps p peer h sent received (receive_part size begin bytes x) own (
        subst (λ i. StoresIndex i (receive_part size begin bytes x)) e
          (receive_part-StoresIndex size begin bytes x))

  piece-Keeps :
      (p : PiecesToDownload) (peer : Peer) (h sent received begin : ℕ) (bytes : List ℕ)
      → IsOwned p (h ∷ others)
      → Keeps others (loop_pieces (on_piece_part_receive p h begin bytes) peer h sent received)
  unfolding on_piece_part_receive
  piece-Keeps p peer h sent received begin bytes own =
      received-Keeps p peer h sent received begin bytes (get_piece_size p h) (find_piece h p.pieces)
        own (find_piece-HasIndex h p.pieces)

  on_message-Keeps :
      (msg : AnyMessage) (p : PiecesToDownload) (peer : Peer) (h sent received : ℕ)
      → IsOwned p (h ∷ others)
      → Keeps others (on_message msg p peer h sent received)
  unfolding on_message Keeps
  on_message-Keeps keep_alive_message p peer h sent received o =
      loop_head-Keeps others p peer h sent received o
  on_message-Keeps choke_message p peer h sent received o =
      loop_head-Keeps others p (record peer { unchocked = false }) h sent received o
  on_message-Keeps unchoke_message p peer h sent received o =
      loop_head-Keeps others p (record peer { unchocked = true }) h sent received o
  on_message-Keeps (have_message i) p peer h sent received o =
      loop_peer-Keeps (with_bitfield (set_piece peer.bitfield i) peer) p h sent received o
  on_message-Keeps (piece_message m) p peer h sent received o =
      elim (Bool-cases (m.piece_index == h)) [
        | inl e ↦ rw (e) (piece-Keeps p peer h sent (suc received) m.piece_begin (piece_data m) o)
        | inr e ↦ rw (e) tt
      ]
  on_message-Keeps interested_message p peer h sent received o = tt
  on_message-Keeps not_interested_message p peer h sent received o = tt
  on_message-Keeps (bitfield_message b) p peer h sent received o = tt
  on_message-Keeps (request_message r) p peer h sent received o = tt
  on_message-Keeps cancel_message p peer h sent received o = tt
  on_message-Keeps unknown_message p peer h sent received o = tt

  on_read-Keeps :
      (msg : Option AnyMessage) (p : PiecesToDownload) (peer : Peer) (phase : Phase)
      → IsOwned p (held phase ++ others)
      → Keeps others (on_read msg p peer phase)
  unfolding Keeps held
  on_read-Keeps (some msg) p peer (reading h sent received) o =
      on_message-Keeps msg p peer h sent received o
  on_read-Keeps none p peer (reading h sent received) o = fail_with-Keeps others h p peer o
  on_read-Keeps (some msg) p peer starting o = tt
  on_read-Keeps (some msg) p peer (requesting h sent received b) o = tt
  on_read-Keeps (some msg) p peer (announcing h) o = tt
  on_read-Keeps (some msg) p peer ended o = tt
  on_read-Keeps none p peer starting o = tt
  on_read-Keeps none p peer (requesting h sent received b) o = tt
  on_read-Keeps none p peer (announcing h) o = tt
  on_read-Keeps none p peer ended o = tt

  popped-IsOwned :
      (p : PiecesToDownload) (bitfield : List ℕ)
      → IsOwned p others
      → ((h : ℕ)
          → (pop_piece_to_download p bitfield).0 ≡ some h
          → IsOwned (pop_piece_to_download p bitfield).1 (h ∷ others))
        × ((pop_piece_to_download p bitfield).0 ≡ none
            → IsOwned (pop_piece_to_download p bitfield).1 others)
  unfolding pop_piece_to_download IsOwned count
  popped-IsOwned p bitfield o = elim (Bool-cases (ltb p.next_piece_index p.pieces_count)) [
    | inl e ↦ rw (e) (
      (λ h same k.
          let i : p.next_piece_index ≡ h = cc in
          omega (arith, o k, count_pieces-snoc k p.pieces p.next_piece_index, ap (λ j. one j k) i)),
      λ nothing. cc,
    )
    | inr e ↦ elim (Option-cases (take_retry bitfield p.to_retry)) [
      | inl r ↦ rw (e, r) ((λ h same. cc), λ nothing. o)
      | inr (found, r) ↦
          rw (e, r)
            (
              (λ h same k.
                  let i : found.0 ≡ h = cc in
                  omega (
                    arith,
                    o k,
                    count-take_retry k bitfield p.to_retry found r,
                    ap (λ j. one j k) i,
                  )),
              λ nothing. cc,
            )
    ]
  ]

  on_start-Keeps :
      (p : PiecesToDownload) (peer : Peer) (phase : Phase)
      → IsOwned p (held phase ++ others)
      → Keeps others (on_start p peer phase)
  unfolding Keeps held
  on_start-Keeps p peer starting o =
      let own = popped-IsOwned p peer.bitfield o in
      started-Keeps (pop_piece_to_download p peer.bitfield).0
        (pop_piece_to_download p peer.bitfield).1 peer own.0 own.1
  on_start-Keeps p peer (requesting h sent received b) o = tt
  on_start-Keeps p peer (reading h sent received) o = tt
  on_start-Keeps p peer (announcing h) o = tt
  on_start-Keeps p peer ended o = tt

  pub peer_step-Keeps :
      (e : Event) (p : PiecesToDownload) (peer : Peer)
      → IsOwned p (held peer.phase ++ others)
      → Keeps others (peer_step e p peer)
  unfolding peer_step
  peer_step-Keeps proceed p peer o = on_start-Keeps p peer peer.phase o
  peer_step-Keeps (sent_ success) p peer o = on_sent-Keeps success p peer peer.phase o
  peer_step-Keeps (got msg) p peer o = on_read-Keeps msg p peer peer.phase o
