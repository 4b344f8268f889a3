-- ===== src/Examples.antt =====
-- Test data, and the theorems at concrete inputs.
mod Parsing
mod Torrents
mod Messages
mod Pieces
mod Disk
mod Rounds
mod Trackers
mod Clients
use bittorrent_client.Base.{ℕ, List, [], ◌∷◌}
use Prim.Native.String.{String}
use Prim.Native.Char.{code}

-- The bytes of a text.
abbrev pub codes : String → List ℕ
codes String.[] = []
codes (String.◌∷◌ c s) = code c ∷ codes s
