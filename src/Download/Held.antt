-- ===== src/Download/Held.antt =====
-- What the parts of a step do to the pieces that a coroutine and the others hold.
use bittorrent_client.Base.{
  length, leb, ℕ, ◌+◌, ◌%◌, ◌^◌, ◌≡◌, refl, sym, ◌∙◌, Bool, true, false, ◌&&◌, Option, none, some,
  List, [], ◌∷◌, ◌++◌, Result, ok, err, ltb, ◌==◌, ==_refl, arith, Bool-cases, inl, inr, subst,
}
use bittorrent_client.Download.Pieces.{
  buffer_of, PieceState, PiecesToDownload, get_piece_size, push_piece_to_retry, find_piece,
  update_piece, on_piece_downloaded, receive_part, PartFailure,
}
use bittorrent_client.Download.Peer.{Peer, next_wait, loop_on, loop_head, fail_with}
use bittorrent_client.Download.Owned.{
  one, count, IsOwned, held, count-append, count_pieces-update, count_pieces-erase,
}

unfoldable pub HasIndex : ℕ → Option PieceState → Type 0
HasIndex i none = Unit
HasIndex i (some x) = x.piece_index ≡ i

unfoldable pub StoresIndex : ℕ → Result PartFailure PieceState → Type 0
StoresIndex i (err e) = Unit
StoresIndex i (ok x) = x.piece_index ≡ i

pub receive_part-StoresIndex :
    (piece_size begin : ℕ) (bytes : List ℕ) (x : PieceState)
    → StoresIndex x.piece_index (receive_part piece_size begin bytes x)
unfolding receive_part StoresIndex
receive_part-StoresIndex piece_size begin bytes x =
    let size : ℕ = length bytes % 2 ^ 32 in
    elim (Bool-cases (size == 0)) [
      | inl a ↦ rw (a) tt
      | inr a ↦ elim (Bool-cases (leb ((x.downloaded + size) % 2 ^ 32) piece_size)) [
        | inr b ↦ rw (a, b) tt
        | inl b ↦ elim (Bool-cases (leb ((begin + size) % 2 ^ 32) piece_size)) [
          | inr c ↦ rw (a, b, c) tt
          | inl c ↦ elim (Bool-cases (leb (begin + size) (length (buffer_of piece_size x)))) [
            | inr d ↦ rw (a, b, c, d) tt
            | inl d ↦ rw (a, b, c, d) refl
          ]
        ]
      ]
    ]

pub find_piece-HasIndex : (h : ℕ) (xs : List PieceState) → HasIndex h (find_piece h xs)
unfolding find_piece HasIndex
find_piece-HasIndex h [] = tt
find_piece-HasIndex h (x ∷ xs) = elim (Bool-cases (x.piece_index == h)) [
  | inl e ↦ rw (e) (ground (arith, e))
  | inr e ↦ rw (e) (find_piece-HasIndex h xs)
]

-- What a step keeps, with the pieces of the other coroutines.
unfoldable pub Keeps : List ℕ → Option (PiecesToDownload × Peer) → Type 0
Keeps others none = Unit
Keeps others (some (p, peer)) = IsOwned p (held peer.phase ++ others)

module _ (others : List ℕ) where
  pub retry-IsOwned :
      (p : PiecesToDownload) (h : ℕ)
      → IsOwned p (h ∷ others)
      → IsOwned (push_piece_to_retry p h) others
  unfolding IsOwned push_piece_to_retry count
  retry-IsOwned p h o k = omega (
    arith,
    o k,
    count-append k p.to_retry (h ∷ []),
    count_pieces-update k h (λ x. record x { downloaded = 0; requested = 0; data_ = [] }) p.pieces
        (λ x e. e),
  )

  pub update-IsOwned :
      (p : PiecesToDownload) (h : ℕ) (f : PieceState → PieceState) (owned : List ℕ)
      → ((x : PieceState) → x.piece_index ≡ h → (f x).piece_index ≡ h)
      → IsOwned p owned
      → IsOwned (record p { pieces = update_piece h f p.pieces }) owned
  unfolding IsOwned
  update-IsOwned p h f owned same o k = count_pieces-update k h f p.pieces same ∙ o k

  pub downloaded-IsOwned :
      (p : PiecesToDownload) (h : ℕ)
      → IsOwned p (h ∷ others)
      → IsOwned (on_piece_downloaded p h) others
  unfolding IsOwned on_piece_downloaded count
  downloaded-IsOwned p h o k =
      let here : one h h ≡ 1 = rw (==_refl h) refl in
      omega (arith, o k, count_pieces-erase k h p.pieces (omega (arith, o h, here)))

  pub fail_with-Keeps :
      (h : ℕ) (p : PiecesToDownload) (peer : Peer)
      → IsOwned p (h ∷ others)
      → Keeps others (fail_with h p peer)
  unfolding Keeps held
  fail_with-Keeps h p peer o = retry-IsOwned p h o

  next_wait-held :
      (b : Bool) (h sent received piece_size requested : ℕ)
      → held (next_wait b h sent received piece_size requested) ≡ h ∷ []
  unfolding held
  next_wait-held true h sent received piece_size requested = refl
  next_wait-held false h sent received piece_size requested = refl

  loop_on-Keeps :
      (p : PiecesToDownload) (peer : Peer) (h sent received : ℕ) (size : Option ℕ)
      (x : Option PieceState)
      → IsOwned p (h ∷ others)
      → Keeps others (loop_on p peer h sent received size x)
  unfolding Keeps held
  loop_on-Keeps p peer h sent received (some piece_size) (some x) o =
      elim (Bool-cases (ltb x.downloaded piece_size)) [
        | inl e ↦ rw (e) (
            subst (λ hs. IsOwned p (hs ++ others))
              (sym (
                next_wait-held
                  (peer.unchocked && (ltb sent (received + 5) && ltb x.requested piece_size)) h sent
                  received piece_size x.requested))
              o)
        | inr e ↦ elim (Bool-cases (x.downloaded == piece_size)) [
          | inl d ↦ rw (e, d) (downloaded-IsOwned p h o)
          | inr d ↦ rw (e, d) tt
        ]
      ]
  loop_on-Keeps p peer h sent received (some piece_size) none o = tt
  loop_on-Keeps p peer h sent received none x o = tt

  pub loop_head-Keeps :
      (p : PiecesToDownload) (peer : Peer) (h sent received : ℕ)
      → IsOwned p (h ∷ others)
      → Keeps others (loop_head p peer h sent received)
  unfolding loop_head
  loop_head-Keeps p peer h sent received o =
      loop_on-Keeps p peer h sent received (get_piece_size p h) (find_piece h p.pieces) o
