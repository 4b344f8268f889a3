-- ===== src/Client/Distinct.antt =====
-- What RemoveDuplicates of src/bittorrent_client/torrent_client.cpp leaves.
use bittorrent_client.Base.{
  ◌≡◌, refl, ap, ◌∙◌, Bool, true, false, ◌||◌, List, [], ◌∷◌, arith, Bool-cases, inl, inr,
}
use bittorrent_client.Tracker.Response.{PeerAddress}
use bittorrent_client.Client.Peers.{
  peer_less, peer_same, insert_peer, sort_peers, unique_from, unique_peers, remove_duplicates,
}

-- Whether the list has the address.
unfoldable pub has_peer : PeerAddress → List PeerAddress → Bool
unfolding peer_same
has_peer p [] = false
has_peer p (x ∷ xs) = peer_same p x || has_peer p xs

-- Each address is less than the next, from one before the list.
unfoldable pub IncreasingFrom : PeerAddress → List PeerAddress → Type 0
IncreasingFrom x [] = Unit
IncreasingFrom x (y ∷ ys) = (peer_less x y ≡ true) × IncreasingFrom y ys

unfoldable pub IsIncreasing : List PeerAddress → Type 0
unfolding IncreasingFrom
IsIncreasing [] = Unit
IsIncreasing (x ∷ xs) = IncreasingFrom x xs

unfoldable OrderedFrom : PeerAddress → List PeerAddress → Type 0
OrderedFrom x [] = Unit
OrderedFrom x (y ∷ ys) = (peer_less y x ≡ false) × OrderedFrom y ys

unfoldable IsOrdered : List PeerAddress → Type 0
unfolding OrderedFrom
IsOrdered [] = Unit
IsOrdered (x ∷ xs) = OrderedFrom x xs

less_asym : (x y : PeerAddress) → peer_less x y ≡ true → peer_less y x ≡ false
unfolding peer_less
less_asym x y h = ground arith

less_cases :
    (x y : PeerAddress) → peer_less y x ≡ false → peer_same x y ≡ false → peer_less x y ≡ true
unfolding peer_less peer_same
less_cases x y h e = ground arith

same_ordered :
    (x y z : PeerAddress) → peer_same x y ≡ true → peer_less z y ≡ false → peer_less z x ≡ false
unfolding peer_less peer_same
same_ordered x y z e h = ground arith

same_trans : (p x y : PeerAddress) → peer_same x y ≡ true → peer_same p x ≡ peer_same p y
unfolding peer_same
same_trans p x y e = ground arith

or_swap : (a b c : Bool) → a || (b || c) ≡ b || (a || c)
or_swap true true c = refl
or_swap true false c = refl
or_swap false b c = refl

or_same : (a b : Bool) → a || b ≡ a || (a || b)
or_same true b = refl
or_same false b = refl

insert_from :
    (b p : PeerAddress) (xs : List PeerAddress)
    → OrderedFrom b xs
    → peer_less p b ≡ false
    → OrderedFrom b (insert_peer p xs)
unfolding insert_peer OrderedFrom
insert_from b p [] o h = (h, tt)
insert_from b p (x ∷ xs) o h = elim (Bool-cases (peer_less p x)) [
  | inl e ↦ rw (e) (h, (less_asym p x e, o.1))
  | inr e ↦ rw (e) (o.0, insert_from x p xs o.1 e)
]

insert-IsOrdered :
    (p : PeerAddress) (xs : List PeerAddress) → IsOrdered xs → IsOrdered (insert_peer p xs)
unfolding insert_peer IsOrdered OrderedFrom
insert-IsOrdered p [] o = tt
insert-IsOrdered p (x ∷ xs) o = elim (Bool-cases (peer_less p x)) [
  | inl e ↦ rw (e) (less_asym p x e, o)
  | inr e ↦ rw (e) (insert_from x p xs o e)
]

sort-IsOrdered : (xs : List PeerAddress) → IsOrdered (sort_peers xs)
unfolding sort_peers IsOrdered
sort-IsOrdered [] = tt
sort-IsOrdered (x ∷ xs) = insert-IsOrdered x (sort_peers xs) (sort-IsOrdered xs)

-- What is ordered from an address is ordered from one that is the same.
ordered_same :
    (x y : PeerAddress) (ys : List PeerAddress)
    → peer_same x y ≡ true
    → OrderedFrom y ys
    → OrderedFrom x ys
unfolding OrderedFrom
ordered_same x y [] e o = tt
ordered_same x y (z ∷ zs) e o = (same_ordered x y z e o.0, o.1)

unique-increasing :
    (b x : PeerAddress) (ys : List PeerAddress)
    → OrderedFrom x ys
    → peer_less b x ≡ true
    → IncreasingFrom b (unique_from x ys)
unfolding OrderedFrom IncreasingFrom unique_from
unique-increasing b x [] o h = (h, tt)
unique-increasing b x (y ∷ ys) o h = elim (Bool-cases (peer_same x y)) [
  | inl e ↦ rw (e) (unique-increasing b x ys (ordered_same x y ys e o.1) h)
  | inr e ↦ rw (e) (h, unique-increasing x y ys o.1 (less_cases x y o.0 e))
]

unique-IsIncreasing :
    (x : PeerAddress) (ys : List PeerAddress) → OrderedFrom x ys → IsIncreasing (unique_from x ys)
unfolding OrderedFrom IsIncreasing unique_from
unique-IsIncreasing x [] o = tt
unique-IsIncreasing x (y ∷ ys) o = elim (Bool-cases (peer_same x y)) [
  | inl e ↦ rw (e) (unique-IsIncreasing x ys (ordered_same x y ys e o.1))
  | inr e ↦ rw (e) (unique-increasing x y ys o.1 (less_cases x y o.0 e))
]

unique_peers-IsIncreasing : (xs : List PeerAddress) → IsOrdered xs → IsIncreasing (unique_peers xs)
unfolding unique_peers IsOrdered IsIncreasing
unique_peers-IsIncreasing [] o = tt
unique_peers-IsIncreasing (x ∷ xs) o = unique-IsIncreasing x xs o

has_peer-insert_peer :
    (p q : PeerAddress) (xs : List PeerAddress)
    → has_peer p (insert_peer q xs) ≡ peer_same p q || has_peer p xs
unfolding has_peer insert_peer
has_peer-insert_peer p q [] = refl
has_peer-insert_peer p q (x ∷ xs) = elim (Bool-cases (peer_less q x)) [
  | inl e ↦ rw (e) refl
  | inr e ↦
      rw (e, has_peer-insert_peer p q xs) (or_swap (peer_same p x) (peer_same p q) (has_peer p xs))
]

has_peer-sort_peers :
    (p : PeerAddress) (xs : List PeerAddress) → has_peer p (sort_peers xs) ≡ has_peer p xs
unfolding has_peer sort_peers
has_peer-sort_peers p [] = refl
has_peer-sort_peers p (x ∷ xs) =
    has_peer-insert_peer p x (sort_peers xs)
    ∙ ap (λ b. peer_same p x || b) (has_peer-sort_peers p xs)

has_peer-unique_from :
    (p x : PeerAddress) (ys : List PeerAddress)
    → has_peer p (unique_from x ys) ≡ peer_same p x || has_peer p ys
unfolding has_peer unique_from
has_peer-unique_from p x [] = refl
has_peer-unique_from p x (y ∷ ys) = elim (Bool-cases (peer_same x y)) [
  | inl e ↦
      rw (e, has_peer-unique_from p x ys, same_trans p x y e)
        (or_same (peer_same p y) (has_peer p ys))
  | inr e ↦ rw (e, has_peer-unique_from p y ys) refl
]

has_peer-unique_peers :
    (p : PeerAddress) (xs : List PeerAddress) → has_peer p (unique_peers xs) ≡ has_peer p xs
unfolding has_peer unique_peers
has_peer-unique_peers p [] = refl
has_peer-unique_peers p (x ∷ xs) = has_peer-unique_from p x xs

pub remove_duplicates-IsIncreasing :
    (all_peers : List PeerAddress) → IsIncreasing (remove_duplicates all_peers)
unfolding remove_duplicates
remove_duplicates-IsIncreasing all_peers =
    unique_peers-IsIncreasing (sort_peers all_peers) (sort-IsOrdered all_peers)

pub has_peer-remove_duplicates :
    (all_peers : List PeerAddress) (p : PeerAddress)
    → has_peer p (remove_duplicates all_peers) ≡ has_peer p all_peers
unfolding remove_duplicates
has_peer-remove_duplicates all_peers p =
    has_peer-unique_peers p (sort_peers all_peers) ∙ has_peer-sort_peers p all_peers
