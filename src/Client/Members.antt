-- ===== src/Client/Members.antt =====
-- The addresses that RemoveDuplicates of src/bittorrent_client/torrent_client.cpp leaves, compared with those given.
use bittorrent_client.Base.{
  ℕ, ◌<◌, ◌≡◌, ◌↔◌, ◌⊎◌, inl, inr, refl, sym, ap₂, ◌∙◌, true, false, List, [], ◌∷◌, arith, length,
  All, Bool-cases, subst,
}
use bittorrent_client.Wire.Endian.{word_of}
use bittorrent_client.Tracker.Response.{PeerAddress}
use bittorrent_client.Client.Peers.{
  peer_less, peer_same, insert_peer, sort_peers, unique_from, unique_peers, remove_duplicates,
}
use bittorrent_client.Client.Distinct.{
  has_peer, IncreasingFrom, IsIncreasing, remove_duplicates-IsIncreasing,
  has_peer-remove_duplicates,
}

-- The address is in the list.
abbrev pub IsIn : PeerAddress → List PeerAddress → Type 0
IsIn p [] = ⊥
IsIn p (x ∷ xs) = (p ≡ x) ⊎ IsIn p xs

-- No address is in the list twice.
abbrev pub IsDistinct : List PeerAddress → Type 0
IsDistinct [] = Unit {0}
IsDistinct (x ∷ xs) = (¬ IsIn x xs) × IsDistinct xs

-- Four bytes and two bytes.
pub record IsAddress (p : PeerAddress) : Type 0 where
  pub ipv4_size : length p.ipv4 ≡ 4
  pub port_size : length p.port ≡ 2
  pub ipv4_bytes : All (λ (b : ℕ). b < 256) p.ipv4
  pub port_bytes : All (λ (b : ℕ). b < 256) p.port

word_of-injective :
    (bs cs : List ℕ)
    → length bs ≡ length cs
    → All (λ (b : ℕ). b < 256) bs
    → All (λ (b : ℕ). b < 256) cs
    → word_of bs ≡ word_of cs
    → bs ≡ cs
unfolding word_of
word_of-injective [] [] l hb hc e = refl
word_of-injective [] (c ∷ cs) l hb hc e = absurd (omega arith)
word_of-injective (b ∷ bs) [] l hb hc e = absurd (omega arith)
word_of-injective (b ∷ bs) (c ∷ cs) l hb hc e =
    let low : b < 256 = hb.0 in
    let low' : c < 256 = hc.0 in
    ap₂ (λ (x : ℕ) (xs : List ℕ). x ∷ xs) (omega arith)
      (word_of-injective bs cs (omega arith) hb.1 hc.1 (omega arith))

same→eq : (p q : PeerAddress) → IsAddress p → IsAddress q → peer_same p q ≡ true → p ≡ q
unfolding peer_same
same→eq p q hp hq e =
    let ipv4 : word_of p.ipv4 ≡ word_of q.ipv4 = ground (arith, e) in
    let port : word_of p.port ≡ word_of q.port = ground (arith, e) in
    ap₂ (λ (a b : List ℕ). record { ipv4 = a; port = b })
      (word_of-injective p.ipv4 q.ipv4 (hp.ipv4_size ∙ sym hq.ipv4_size) hp.ipv4_bytes hq.ipv4_bytes
        ipv4)
      (word_of-injective p.port q.port (hp.port_size ∙ sym hq.port_size) hp.port_bytes hq.port_bytes
        port)

same_refl : (p : PeerAddress) → peer_same p p ≡ true
unfolding peer_same
same_refl p = ground arith

IsIn→has_peer : (p : PeerAddress) (xs : List PeerAddress) → IsIn p xs → has_peer p xs ≡ true
unfolding has_peer
IsIn→has_peer p [] h = absurd h
IsIn→has_peer p (x ∷ xs) (inl e) =
    let same : peer_same p x ≡ true = subst (λ y. peer_same p y ≡ true) e (same_refl p) in
    rw (same) refl
IsIn→has_peer p (x ∷ xs) (inr h) = rw (IsIn→has_peer p xs h) (ground arith)

-- An address that is the same is in the list.
abbrev HasSame : PeerAddress → List PeerAddress → Type 0
HasSame p xs = (x : PeerAddress) × IsIn x xs × (peer_same p x ≡ true)

has_peer→same : (p : PeerAddress) (xs : List PeerAddress) → has_peer p xs ≡ true → HasSame p xs
unfolding has_peer
has_peer→same p [] h = cc
has_peer→same p (x ∷ xs) h = elim (Bool-cases (peer_same p x)) [
  | inl e ↦ (x, inl refl, e)
  | inr e ↦
      let rest : has_peer p xs ≡ true = ground (arith, h, e) in
      let (y, there, same) = has_peer→same p xs rest in (y, inr there, same)
]

IsIn-insert_peer :
    (p q : PeerAddress) (xs : List PeerAddress) → IsIn p (insert_peer q xs) → (p ≡ q) ⊎ IsIn p xs
unfolding insert_peer
IsIn-insert_peer p q [] h = h
IsIn-insert_peer p q (x ∷ xs) h = elim (Bool-cases (peer_less q x)) [
  | inl e ↦ (let m = rw (e) at h in m)
  | inr e ↦
      let m : (p ≡ x) ⊎ IsIn p (insert_peer q xs) = rw (e) at h in
      elim m [
        | inl first ↦ inr (inl first)
        | inr later ↦ elim (IsIn-insert_peer p q xs later) [
          | inl new ↦ inl new
          | inr old ↦ inr (inr old)
        ]
      ]
]

IsIn-sort_peers : (p : PeerAddress) (xs : List PeerAddress) → IsIn p (sort_peers xs) → IsIn p xs
unfolding sort_peers
IsIn-sort_peers p [] h = h
IsIn-sort_peers p (x ∷ xs) h = elim (IsIn-insert_peer p x (sort_peers xs) h) [
  | inl new ↦ inl new
  | inr old ↦ inr (IsIn-sort_peers p xs old)
]

IsIn-unique_from :
    (p x : PeerAddress) (ys : List PeerAddress) → IsIn p (unique_from x ys) → (p ≡ x) ⊎ IsIn p ys
unfolding unique_from
IsIn-unique_from p x [] h = h
IsIn-unique_from p x (y ∷ ys) h = elim (Bool-cases (peer_same x y)) [
  | inl e ↦
      let m : IsIn p (unique_from x ys) = rw (e) at h in
      elim (IsIn-unique_from p x ys m) [ inl first ↦ inl first | inr later ↦ inr (inr later) ]
  | inr e ↦
      let m : (p ≡ x) ⊎ IsIn p (unique_from y ys) = rw (e) at h in
      elim m [ inl first ↦ inl first | inr later ↦ inr (IsIn-unique_from p y ys later) ]
]

IsIn-unique_peers : (p : PeerAddress) (xs : List PeerAddress) → IsIn p (unique_peers xs) → IsIn p xs
unfolding unique_peers
IsIn-unique_peers p [] h = h
IsIn-unique_peers p (x ∷ xs) h = IsIn-unique_from p x xs h

pub IsIn-remove_duplicates :
    (p : PeerAddress) (xs : List PeerAddress) → IsIn p (remove_duplicates xs) → IsIn p xs
unfolding remove_duplicates
IsIn-remove_duplicates p xs h = IsIn-sort_peers p xs (IsIn-unique_peers p (sort_peers xs) h)

less_trans :
    (x y z : PeerAddress) → peer_less x y ≡ true → peer_less y z ≡ true → peer_less x z ≡ true
unfolding peer_less
less_trans x y z h e = ground arith

less_irrefl : (x : PeerAddress) → peer_less x x ≡ false
unfolding peer_less
less_irrefl x = ground arith

increasing_all :
    (b p : PeerAddress) (xs : List PeerAddress)
    → IncreasingFrom b xs
    → IsIn p xs
    → peer_less b p ≡ true
unfolding IncreasingFrom
increasing_all b p [] o h = absurd h
increasing_all b p (x ∷ xs) o (inl e) = subst (λ q. peer_less b q ≡ true) (sym e) o.0
increasing_all b p (x ∷ xs) o (inr h) = less_trans b x p o.0 (increasing_all x p xs o.1 h)

from-IsDistinct :
    (x : PeerAddress) (xs : List PeerAddress) → IncreasingFrom x xs → IsDistinct (x ∷ xs)
unfolding IncreasingFrom
from-IsDistinct x [] o = (λ h. h, tt)
from-IsDistinct x (y ∷ ys) o = (
  λ h.
      (let less : peer_less x x ≡ true = increasing_all x x (y ∷ ys) o h in
        let never : peer_less x x ≡ false = less_irrefl x in cc),
  from-IsDistinct y ys o.1,
)

increasing-IsDistinct : (xs : List PeerAddress) → IsIncreasing xs → IsDistinct xs
unfolding IsIncreasing
increasing-IsDistinct [] o = tt
increasing-IsDistinct (x ∷ xs) o = from-IsDistinct x xs o

IsIn-IsAddress :
    (p : PeerAddress) (xs : List PeerAddress) → All IsAddress xs → IsIn p xs → IsAddress p
IsIn-IsAddress p [] all h = absurd h
IsIn-IsAddress p (x ∷ xs) all (inl e) = subst IsAddress (sym e) all.0
IsIn-IsAddress p (x ∷ xs) all (inr h) = IsIn-IsAddress p xs all.1 h

kept :
    (all_peers : List PeerAddress) (p : PeerAddress)
    → All IsAddress all_peers
    → IsIn p all_peers
    → IsIn p (remove_duplicates all_peers)
kept all_peers p all h =
    let has : has_peer p (remove_duplicates all_peers) ≡ true =
      has_peer-remove_duplicates all_peers p ∙ IsIn→has_peer p all_peers h in
    let (x, there, same) = has_peer→same p (remove_duplicates all_peers) has in
    let e : p ≡ x =
      same→eq p x (IsIn-IsAddress p all_peers all h)
        (IsIn-IsAddress x all_peers all (IsIn-remove_duplicates x all_peers there)) same in
    subst (λ y. IsIn y (remove_duplicates all_peers)) (sym e) there

-- Of addresses of four bytes with ports of two bytes, RemoveDuplicates leaves those that were given and no others,
-- none of them twice, and in increasing order of the pairs (ipv4, port), compared as words.
pub remove_duplicates_lem :
    (all_peers : List PeerAddress)
    → All IsAddress all_peers
    → IsIncreasing (remove_duplicates all_peers)
      × IsDistinct (remove_duplicates all_peers)
      × ((p : PeerAddress) → IsIn p (remove_duplicates all_peers) ↔ IsIn p all_peers)
remove_duplicates_lem all_peers all =
    let up : IsIncreasing (remove_duplicates all_peers) =
      remove_duplicates-IsIncreasing all_peers in
    (
      up,
      increasing-IsDistinct (remove_duplicates all_peers) up,
      λ p. (IsIn-remove_duplicates p all_peers, kept all_peers p all),
    )
