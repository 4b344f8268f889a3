-- ===== src/Download/Owned.antt =====
-- Who has the pieces that are in progress.
use bittorrent_client.Base.{
  ℕ, ◌+◌, ◌<◌, ◌≡◌, refl, ap, sym, ◌∙◌, none, some, List, [], ◌∷◌, ◌++◌, ◌==◌, if◌then◌else◌, arith,
  Bool-cases, Option-cases, inl, inr, subst,
}
use bittorrent_client.Download.Pieces.{
  has_piece, PieceState, PiecesToDownload, new_piece, take_retry, update_piece, erase_piece,
}
use bittorrent_client.Download.Peer.{Phase, starting, requesting, reading, announcing, ended}

abbrev pub one : ℕ → ℕ → ℕ
one h k = if h == k then 1 else 0

-- How often a handle is in a list, and in the list of the pieces in progress.
unfoldable pub count : ℕ → List ℕ → ℕ
count k [] = 0
count k (h ∷ hs) = (if h == k then 1 else 0) + count k hs

unfoldable pub count_pieces : ℕ → List PieceState → ℕ
count_pieces k [] = 0
count_pieces k (x ∷ xs) = (if x.piece_index == k then 1 else 0) + count_pieces k xs

-- Every piece in progress is waiting for a retry or is one of `owned`, and there are no others.
unfoldable pub IsOwned : PiecesToDownload → List ℕ → Type 0
IsOwned p owned = (k : ℕ) → count_pieces k p.pieces ≡ count k p.to_retry + count k owned

-- The piece that a coroutine holds.
unfoldable pub held : Phase → List ℕ
held (requesting h sent received block_size) = h ∷ []
held (reading h sent received) = h ∷ []
held (announcing h) = []
held starting = []
held ended = []

pub count-append : (k : ℕ) (xs ys : List ℕ) → count k (xs ++ ys) ≡ count k xs + count k ys
unfolding count
count-append k [] ys = omega arith
count-append k (x ∷ xs) ys = omega (arith, count-append k xs ys)

pub count_pieces-snoc :
    (k : ℕ) (xs : List PieceState) (h : ℕ)
    → count_pieces k (xs ++ new_piece h ∷ []) ≡ count_pieces k xs + one h k
unfolding count_pieces
count_pieces-snoc k [] h = omega arith
count_pieces-snoc k (x ∷ xs) h = omega (arith, count_pieces-snoc k xs h)

pub count_pieces-update :
    (k h : ℕ) (f : PieceState → PieceState) (xs : List PieceState)
    → ((x : PieceState) → x.piece_index ≡ h → (f x).piece_index ≡ h)
    → count_pieces k (update_piece h f xs) ≡ count_pieces k xs
unfolding count_pieces update_piece
count_pieces-update k h f [] same = refl
count_pieces-update k h f (x ∷ xs) same = elim (Bool-cases (x.piece_index == h)) [
  | inl e ↦
      let e' : x.piece_index ≡ h = ground (arith, e) in
      rw (e) (ap (λ i. (if i == k then 1 else 0) + count_pieces k xs) (same x e' ∙ sym e'))
  | inr e ↦ rw (e) (omega (arith, count_pieces-update k h f xs same))
]

pub count_pieces-erase :
    (k h : ℕ) (xs : List PieceState)
    → 0 < count_pieces h xs
    → one h k + count_pieces k (erase_piece h xs) ≡ count_pieces k xs
unfolding count_pieces erase_piece
count_pieces-erase k h [] n = absurd (omega arith)
count_pieces-erase k h (x ∷ xs) n = elim (Bool-cases (x.piece_index == h)) [
  | inl e ↦
      let e' : x.piece_index ≡ h = ground (arith, e) in
      rw (e) (ap (λ i. (if i == k then 1 else 0) + count_pieces k xs) (sym e'))
  | inr e ↦ rw (e) (
      let n' : 0 < count_pieces h xs = (let m = rw (e) at n in omega (arith, m)) in
      omega (arith, count_pieces-erase k h xs n'))
]

pub count-take_retry :
    (k : ℕ) (have_pieces hs : List ℕ) (found : ℕ × List ℕ)
    → take_retry have_pieces hs ≡ some found
    → count k hs ≡ one found.0 k + count k found.1
unfolding count take_retry
count-take_retry k have_pieces [] found e = cc
count-take_retry k have_pieces (h ∷ hs) found e = elim (Bool-cases (has_piece have_pieces h)) [
  | inl b ↦
      let m : some (h, hs) ≡ some found = rw (b) at e in
      let same : (h, hs) ≡ found = cc in
      subst (λ r. one h k + count k hs ≡ one r.0 k + count k r.1) same refl
  | inr b ↦ elim (Option-cases (take_retry have_pieces hs)) [
    | inl rest ↦ (let m : none ≡ some found = rw (b, rest) at e in cc)
    | inr (r, rest) ↦
        let m : some (r.0, h ∷ r.1) ≡ some found = rw (b, rest) at e in
        let same : (r.0, h ∷ r.1) ≡ found = cc in
        subst (λ q. one h k + count k hs ≡ one q.0 k + count k q.1) same
          (omega (arith, count-take_retry k have_pieces hs r rest))
  ]
]
