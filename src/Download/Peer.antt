-- ===== src/Download/Peer.antt =====
-- TryDownloadPiecesFromPeer of src/bittorrent_client/main.cpp as a state machine: where the coroutine waits,
-- and what it does until it waits again. `none` stands for an assertion that fails.
use bittorrent_client.Base.{
  ℕ, suc, ◌+◌, ◌-◌, ◌/◌, ◌%◌, ◌^◌, Bool, true, false, ◌&&◌, Option, none, some, List, [], ◌∷◌, ltb,
  leb, ◌==◌, if◌then◌else◌, length, get_or, set, min,
}
use Prim.Native.Nat.{bit_or}
use bittorrent_client.Wire.Messages.{
  AnyMessage, choke_message, unchoke_message, have_message, piece_message, keep_alive_message,
  piece_data,
}
use bittorrent_client.Download.Pieces.{
  has_piece, PieceState, PiecesToDownload, get_piece_size, pop_piece_to_download,
  push_piece_to_retry, find_piece, update_piece, on_piece_part_receive, on_piece_downloaded,
}

-- Message_Bitfield::set_piece on `data_`. On an empty one the count wraps around and the write is out of
-- bounds: `none`.
unfoldable pub set_piece : List ℕ → ℕ → Option (List ℕ)
set_piece [] index = none
set_piece (id ∷ masks) index =
    if leb (length masks) (index / 8)
    then some (id ∷ masks)
    else some (
        id
        ∷ set masks (index / 8) (bit_or (get_or masks (index / 8) 0) (2 ^ (7 - index % 8)) % 256))

-- Where the coroutine is: at the head of its loop, or it waits until a request is sent, a message is read or
-- the `have` is sent, or it is over. `backlog` is the requests sent less the pieces received.
pub data Phase : Type 0 where
  starting : Phase
  requesting : (h sent received block_size : ℕ) → Phase
  reading : (h sent received : ℕ) → Phase
  announcing : (h : ℕ) → Phase
  ended : Phase

pub record Peer : Type 0 where
  pub bitfield : List ℕ
  pub unchocked : Bool
  pub phase : Phase

-- The request that is due, or the wait for a message.
abbrev pub next_wait : Bool → ℕ → ℕ → ℕ → ℕ → ℕ → Phase
next_wait true h sent received piece_size requested =
    requesting h sent received (min 16384 (piece_size - requested))
next_wait false h sent received piece_size requested = reading h sent received

abbrev pub loop_on :
    PiecesToDownload
    → Peer
    → ℕ
    → ℕ
    → ℕ
    → Option ℕ
    → Option PieceState
    → Option (PiecesToDownload × Peer)
loop_on p peer h sent received (some piece_size) (some x) =
    if ltb x.downloaded piece_size
    then some (
      p,
      record peer {
        phase =
            next_wait (peer.unchocked && (ltb sent (received + 5) && ltb x.requested piece_size)) h
              sent received piece_size x.requested;
      },
    )
    else (if x.downloaded == piece_size
        then some (on_piece_downloaded p h, record peer { phase = announcing h })
        else none)
loop_on p peer h sent received _ _ = none

-- The head of the inner loop, for the piece `h`.
unfoldable pub loop_head : PiecesToDownload → Peer → ℕ → ℕ → ℕ → Option (PiecesToDownload × Peer)
unfolding get_piece_size find_piece on_piece_downloaded
loop_head p peer h sent received =
    loop_on p peer h sent received (get_piece_size p h) (find_piece h p.pieces)

-- A piece that the peer does not have goes back.
abbrev pub started : Option ℕ → PiecesToDownload → Peer → Option (PiecesToDownload × Peer)
started none p peer = some (p, record peer { phase = ended })
started (some h) p peer =
    if has_piece peer.bitfield h
    then loop_head p peer h 0 0
    else some (push_piece_to_retry p h, record peer { phase = starting })

-- The end of the coroutine by an error: ScopeExit puts the piece back.
abbrev pub fail_with : ℕ → PiecesToDownload → Peer → Option (PiecesToDownload × Peer)
fail_with h p peer = some (push_piece_to_retry p h, record peer { phase = ended })

abbrev pub requested_more : ℕ → ℕ → PiecesToDownload → PiecesToDownload
requested_more h block_size p = record p {
  pieces =
      update_piece h (λ x. record x { requested = (x.requested + block_size) % 2 ^ 32 }) p.pieces;
}

-- SendMessage is done, with success or not.
unfoldable pub on_sent : Bool → PiecesToDownload → Peer → Phase → Option (PiecesToDownload × Peer)
unfolding update_piece push_piece_to_retry
on_sent true p peer (requesting h sent received block_size) =
    some (requested_more h block_size p, record peer { phase = reading h (suc sent) received })
on_sent false p peer (requesting h sent received block_size) = fail_with h p peer
on_sent true p peer (announcing h) = some (p, record peer { phase = starting })
on_sent false p peer (announcing h) = some (p, record peer { phase = ended })
on_sent success p peer phase = none

abbrev pub with_bitfield : Option (List ℕ) → Peer → Option Peer
with_bitfield (some bitfield) peer = some (record peer { bitfield = bitfield })
with_bitfield none peer = none

abbrev pub loop_peer : Option Peer → PiecesToDownload → ℕ → ℕ → ℕ → Option (PiecesToDownload × Peer)
loop_peer (some peer) p h sent received = loop_head p peer h sent received
loop_peer none p h sent received = none

abbrev pub loop_pieces :
    Option PiecesToDownload → Peer → ℕ → ℕ → ℕ → Option (PiecesToDownload × Peer)
loop_pieces (some p) peer h sent received = loop_head p peer h sent received
loop_pieces none peer h sent received = none

-- The visit of a message while the piece `h` is downloaded.
unfoldable pub on_message :
    AnyMessage → PiecesToDownload → Peer → ℕ → ℕ → ℕ → Option (PiecesToDownload × Peer)
unfolding set_piece loop_head on_piece_part_receive piece_data
on_message keep_alive_message p peer h sent received = loop_head p peer h sent received
on_message choke_message p peer h sent received =
    loop_head p (record peer { unchocked = false }) h sent received
on_message unchoke_message p peer h sent received =
    loop_head p (record peer { unchocked = true }) h sent received
on_message (have_message piece_index) p peer h sent received =
    loop_peer (with_bitfield (set_piece peer.bitfield piece_index) peer) p h sent received
on_message (piece_message m) p peer h sent received =
    if m.piece_index == h
    then loop_pieces (on_piece_part_receive p h m.piece_begin (piece_data m)) peer h sent
        (suc received)
    else none
on_message _ p peer h sent received = none

-- ReadAnyMessage is done: a message, or an error.
abbrev pub on_read :
    Option AnyMessage → PiecesToDownload → Peer → Phase → Option (PiecesToDownload × Peer)
on_read (some msg) p peer (reading h sent received) = on_message msg p peer h sent received
on_read none p peer (reading h sent received) = fail_with h p peer
on_read msg p peer phase = none

abbrev pub on_start : PiecesToDownload → Peer → Phase → Option (PiecesToDownload × Peer)
on_start p peer starting =
    let popped = pop_piece_to_download p peer.bitfield in started popped.0 popped.1 peer
on_start p peer phase = none

-- What the coroutine is resumed with.
pub data Event : Type 0 where
  proceed : Event
  sent_ : Bool → Event
  got : Option AnyMessage → Event

unfoldable pub peer_step : Event → PiecesToDownload → Peer → Option (PiecesToDownload × Peer)
unfolding on_sent on_message loop_head has_piece push_piece_to_retry pop_piece_to_download
peer_step proceed p peer = on_start p peer peer.phase
peer_step (sent_ success) p peer = on_sent success p peer peer.phase
peer_step (got msg) p peer = on_read msg p peer peer.phase
