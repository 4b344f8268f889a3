-- ===== src/Download/Sizes.antt =====
-- The size of a piece.
use bittorrent_client.Base.{
  ℕ, ◌+◌, ◌-◌, ◌*◌, ◌^◌, ◌%◌, ◌≤◌, ◌<◌, ◌≡◌, some, ltb, ◌==◌, if◌then◌else◌, arith, none,
}
use bittorrent_client.Download.Pieces.{PiecesToDownload, get_piece_size}

last_index : (n : ℕ) → 0 < n → n < 2 ^ 32 → (n + (2 ^ 32 - 1)) % 2 ^ 32 ≡ n - 1
last_index n h₀ h₁ = omega arith

-- What is taken off wraps around, and so does the difference.
wrapped :
    (size total whole : ℕ)
    → size < 2 ^ 32
    → whole < total
    → total ≤ whole + size
    → (whole % 2 ^ 32 < total) × ((total - whole % 2 ^ 32) % 2 ^ 32 ≡ total - whole)
wrapped size total whole s low high = (omega arith, omega arith)

size_lem :
    (size last total index n : ℕ)
    → last + 1 ≡ n
    → index < n
    → size < 2 ^ 32
    → (whole : ℕ) → whole < total
    → total ≤ whole + size
    → (if ltb index last
        then some size
        else (if ltb (whole % 2 ^ 32) total
            then some ((total - whole % 2 ^ 32) % 2 ^ 32)
            else none))
      ≡ some (if index + 1 == n then total - whole else size)
size_lem size last total index n e h s whole low high =
    ground (arith, wrapped size total whole s low high)

-- For a torrent of n pieces, the total size being above n - 1 piece sizes and at most n, every piece
-- has the piece size but the last, which has the rest. It holds also where the product of the piece
-- size and n - 1 does not fit into 32 bits and wraps around.
pub get_piece_size_lem :
    (p : PiecesToDownload) (index : ℕ)
    → index < p.pieces_count
    → p.pieces_count < 2 ^ 32
    → p.piece_size < 2 ^ 32
    → p.piece_size * (p.pieces_count - 1) < p.total_size
    → p.total_size ≤ p.piece_size * (p.pieces_count - 1) + p.piece_size
    → get_piece_size p index
      ≡ some (
          if index + 1 == p.pieces_count
          then p.total_size - p.piece_size * (p.pieces_count - 1)
          else p.piece_size)
unfolding get_piece_size
get_piece_size_lem p index h n s low high = rw (last_index p.pieces_count (omega arith) n) (
    size_lem p.piece_size (p.pieces_count - 1) p.total_size index p.pieces_count (omega arith) h s
      (p.piece_size * (p.pieces_count - 1)) low high)
