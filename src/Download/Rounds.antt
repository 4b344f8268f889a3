-- ===== src/Download/Rounds.antt =====
-- A round of downloads: the coroutines of all peers share the pieces, and one at a time is resumed.
use bittorrent_client.Base.{ℕ, ◌≡◌, refl, some, List, [], ◌∷◌, ◌++◌, arith, subst}
use bittorrent_client.Download.Pieces.{PiecesToDownload}
use bittorrent_client.Download.Peer.{Peer, Event, peer_step}
use bittorrent_client.Download.Owned.{count, IsOwned, held, count-append}
use bittorrent_client.Download.Held.{Keeps}
use bittorrent_client.Download.Kept.{peer_step-Keeps}

-- Any one of the peers makes a step.
pub data RoundStep : PiecesToDownload → List Peer → PiecesToDownload → List Peer → Type 0 where
  resumed :
      (p p' : PiecesToDownload) (peer peer' : Peer) (before after : List Peer) (e : Event)
      → peer_step e p peer ≡ some (p', peer')
      → RoundStep p (before ++ peer ∷ after) p' (before ++ peer' ∷ after)

pub data RoundSteps : PiecesToDownload → List Peer → PiecesToDownload → List Peer → Type 0 where
  finish : {p : PiecesToDownload} {peers : List Peer} → RoundSteps p peers p peers
  next :
      {p q r : PiecesToDownload} {ps qs rs : List Peer}
      → RoundStep p ps q qs
      → RoundSteps q qs r rs
      → RoundSteps p ps r rs

-- The pieces that the coroutines hold.
unfoldable pub held_all : List Peer → List ℕ
unfolding held
held_all [] = []
held_all (peer ∷ peers) = held peer.phase ++ held_all peers

count-held_all :
    (k : ℕ) (before after : List Peer) (peer : Peer)
    → count k (held_all (before ++ peer ∷ after))
      ≡ count k (held peer.phase ++ (held_all before ++ held_all after))
unfolding held_all count
count-held_all k [] after peer = refl
count-held_all k (b ∷ before) after peer = omega (
  arith,
  count-held_all k before after peer,
  count-append k (held b.phase) (held_all (before ++ peer ∷ after)),
  count-append k (held peer.phase) (held_all before ++ held_all after),
  count-append k (held_all before) (held_all after),
  count-append k (held peer.phase) ((held b.phase ++ held_all before) ++ held_all after),
  count-append k (held b.phase ++ held_all before) (held_all after),
  count-append k (held b.phase) (held_all before),
)

step-IsOwned :
    {p q : PiecesToDownload} {ps qs : List Peer}
    → RoundStep p ps q qs
    → IsOwned p (held_all ps)
    → IsOwned q (held_all qs)
unfolding IsOwned Keeps
step-IsOwned (resumed p p' peer peer' before after e h) o k =
    let others : List ℕ = held_all before ++ held_all after in
    let own : IsOwned p (held peer.phase ++ others) =
      λ j. omega (arith, o j, count-held_all j before after peer) in
    let kept : Keeps others (some (p', peer')) =
      subst (Keeps others) h (peer_step-Keeps others e p peer own) in
    omega (arith, kept k, count-held_all k before after peer')

-- In a round, however the coroutines of the peers are interleaved, whatever messages the peers send and whichever
-- sends and reads fail: if at first every piece in progress is waiting for a retry or is held by exactly one
-- coroutine, counted with its multiplicity, then it is so at the end.
pub RoundSteps-IsOwned :
    (p q : PiecesToDownload) (ps qs : List Peer)
    → RoundSteps p ps q qs
    → IsOwned p (held_all ps)
    → IsOwned q (held_all qs)
RoundSteps-IsOwned p q ps qs finish o = o
RoundSteps-IsOwned p r ps rs (next {q = q} {qs = qs} s steps) o =
    RoundSteps-IsOwned q r qs rs steps (step-IsOwned s o)
