-- ===== src/Download/Account.antt =====
-- PiecesToDownload as a step relation, with the pieces that were given to `on_new_piece` so far.
use bittorrent_client.Base.{
  ℕ, suc, ◌+◌, ◌≤◌, ◌<◌, ◌≡◌, refl, ap, ◌∙◌, sym, subst, Option, none, some, List, [], ◌∷◌, Result,
  ok, err, ltb, ◌==◌, if◌then◌else◌, length, arith, Bool-cases, Option-cases, inl, inr, ltb→lt,
}
use bittorrent_client.Download.Pieces.{
  PieceState, PiecesToDownload, PartFailure, take_retry, pop_piece_to_download, update_piece,
  push_piece_to_retry, on_piece_downloaded, receive_part, find_piece, get_piece_size, part_received,
  store_part, on_piece_part_receive,
}
use bittorrent_client.Download.Owned.{
  count, count_pieces, count_pieces-snoc, count_pieces-update, count_pieces-erase,
}
use bittorrent_client.Download.Held.{
  HasIndex, StoresIndex, receive_part-StoresIndex, find_piece-HasIndex,
}

-- What the coroutines that share the pieces do to them. A handle is of a piece in progress.
pub data Step : PiecesToDownload → List ℕ → PiecesToDownload → List ℕ → Type 0 where
  pop :
      (p : PiecesToDownload) (done have_pieces : List ℕ)
      → Step p done ((pop_piece_to_download p have_pieces).1) done
  retry :
      (p : PiecesToDownload) (done : List ℕ) (h : ℕ)
      → 0 < count_pieces h p.pieces
      → Step p done (push_piece_to_retry p h) done
  receive :
      (p q : PiecesToDownload) (done : List ℕ) (h begin : ℕ) (bytes : List ℕ)
      → on_piece_part_receive p h begin bytes ≡ some q
      → Step p done q done
  downloaded_ :
      (p : PiecesToDownload) (done : List ℕ) (h : ℕ)
      → 0 < count_pieces h p.pieces
      → Step p done (on_piece_downloaded p h) (h ∷ done)

pub data Steps : PiecesToDownload → List ℕ → PiecesToDownload → List ℕ → Type 0 where
  finish : (p : PiecesToDownload) (done : List ℕ) → Steps p done p done
  next : {p q r : PiecesToDownload} {d e f : List ℕ} → Step p d q e → Steps q e r f → Steps p d r f

-- Once for a piece below the bound, and not at all for others.
abbrev pub once_below : ℕ → ℕ → ℕ
once_below bound k = if ltb k bound then 1 else 0

-- Each piece that was handed out is once either in progress or given to `on_new_piece`, and no other is.
pub record IsAccounted (p : PiecesToDownload) (done : List ℕ) : Type 0 where
  pub each : (k : ℕ) → count_pieces k p.pieces + count k done ≡ once_below p.next_piece_index k
  pub number : length done ≡ p.downloaded_pieces_count
  pub bound : p.next_piece_index ≤ p.pieces_count

once_below-suc : (n k : ℕ) → once_below n k + (if n == k then 1 else 0) ≡ once_below (suc n) k
once_below-suc n k = ground arith

-- What an operation keeps.
abbrev Keeps : PiecesToDownload → PiecesToDownload → List ℕ → Type 0
Keeps p q done = IsAccounted q done × (q.pieces_count ≡ p.pieces_count)

pop-IsAccounted :
    (p : PiecesToDownload) (done have_pieces : List ℕ)
    → IsAccounted p done
    → Keeps p ((pop_piece_to_download p have_pieces).1) done
unfolding pop_piece_to_download
pop-IsAccounted p done have_pieces b = elim (Bool-cases (ltb p.next_piece_index p.pieces_count)) [
  | inl new ↦ rw new (
    record {
      each = λ k. omega (
        arith,
        b.each k,
        count_pieces-snoc k p.pieces p.next_piece_index,
        once_below-suc p.next_piece_index k,
      );
      number = b.number;
      bound = ltb→lt p.next_piece_index p.pieces_count new;
    },
    refl,
  )
  | inr all ↦ elim (Option-cases (take_retry have_pieces p.to_retry)) [
    | inl e ↦ rw (all, e) (b, refl)
    | inr (found, e) ↦
        rw (all, e) (record { each = b.each; number = b.number; bound = b.bound }, refl)
  ]
]

-- A piece that is changed keeps its index.
update-IsAccounted :
    (p : PiecesToDownload) (done to_retry : List ℕ) (h : ℕ) (f : PieceState → PieceState)
    → ((x : PieceState) → x.piece_index ≡ h → (f x).piece_index ≡ h)
    → IsAccounted p done
    → IsAccounted (record p { pieces = update_piece h f p.pieces; to_retry = to_retry }) done
update-IsAccounted p done to_retry h f same b = record {
  each = λ k. omega (arith, b.each k, count_pieces-update k h f p.pieces same);
  number = b.number;
  bound = b.bound;
}

store_part-IsAccounted :
    (p q : PiecesToDownload) (done : List ℕ) (h : ℕ) (r : Result PartFailure PieceState)
    → store_part p h r ≡ some q
    → StoresIndex h r
    → IsAccounted p done
    → Keeps p q done
unfolding StoresIndex
store_part-IsAccounted p q done h (err x) e i b = cc
store_part-IsAccounted p q done h (ok x) e i b =
    let same : record p { pieces = update_piece h (λ _. x) p.pieces } ≡ q = cc in
    subst (λ (r : PiecesToDownload). Keeps p r done) same
      (update-IsAccounted p done p.to_retry h (λ _. x) (λ y _. i) b, refl)

part_received-IsAccounted :
    (p q : PiecesToDownload) (done : List ℕ) (h begin : ℕ) (bytes : List ℕ) (size : Option ℕ)
    (o : Option PieceState)
    → part_received p h begin bytes size o ≡ some q
    → HasIndex h o
    → IsAccounted p done
    → Keeps p q done
unfolding HasIndex
part_received-IsAccounted p q done h begin bytes none o e i b = cc
part_received-IsAccounted p q done h begin bytes (some n) none e i b = cc
part_received-IsAccounted p q done h begin bytes (some n) (some x) e i b =
    store_part-IsAccounted p q done h (receive_part n begin bytes x) e
      (subst (λ j. StoresIndex j (receive_part n begin bytes x)) i
        (receive_part-StoresIndex n begin bytes x))
      b

Step-IsAccounted :
    {p q : PiecesToDownload} {d e : List ℕ} → Step p d q e → IsAccounted p d → Keeps p q e
unfolding push_piece_to_retry on_piece_downloaded on_piece_part_receive count
Step-IsAccounted (pop p d have_pieces) b = pop-IsAccounted p d have_pieces b
Step-IsAccounted (retry p d h n) b = (update-IsAccounted p d _ h _ (λ x same. same) b, refl)
Step-IsAccounted (receive p q d h begin bytes e) b =
    part_received-IsAccounted p q d h begin bytes (get_piece_size p h) (find_piece h p.pieces) e
      (find_piece-HasIndex h p.pieces) b
Step-IsAccounted (downloaded_ p d h n) b = (
  record {
    each = λ k. omega (arith, b.each k, count_pieces-erase k h p.pieces n);
    number = omega (arith, b.number);
    bound = b.bound;
  },
  refl,
)

-- After pops, retries, received parts and finished downloads, in any order and each on a piece in progress,
-- from a state in which this holds: each piece that was handed out is either in progress, once, or was given to
-- `on_new_piece`, once, and no other piece is, nor are more handed out than there are; the count of downloaded pieces is the number of those given; and
-- if none is in progress and all were handed out, every piece of the torrent was given exactly once.
pub Steps-IsAccounted :
    {p q : PiecesToDownload} {d e : List ℕ}
    → Steps p d q e
    → IsAccounted p d
    → IsAccounted q e
      × (q.pieces_count ≡ p.pieces_count)
      × (q.pieces ≡ []
          → q.next_piece_index ≡ p.pieces_count
          → (k : ℕ) → count k e ≡ once_below p.pieces_count k)
unfolding count_pieces
Steps-IsAccounted (finish p d) b = (
  b,
  refl,
  λ empty all k. omega (arith, ap (count_pieces k) empty, b.each k, ap (λ n. once_below n k) all),
)
Steps-IsAccounted (next s ss) b =
    let (b', same) = Step-IsAccounted s b in
    let (b'', same', final) = Steps-IsAccounted ss b' in
    (
      b'',
      same' ∙ same,
      λ empty all k. final empty (all ∙ sym same) k ∙ ap (λ n. once_below n k) same,
    )
