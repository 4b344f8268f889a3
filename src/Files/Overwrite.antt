-- ===== src/Files/Overwrite.antt =====
-- The bytes of a torrent's files as one sequence, and a range of it overwritten.
use bittorrent_client.Base.{
  ap₂, ℕ, zero, suc, ◌+◌, ◌-◌, ◌≤◌, ◌<◌, ◌≡◌, refl, ap, sym, ◌∙◌, List, [], ◌∷◌, ◌++◌, arith, leb,
  le→leb, if◌then◌else◌, length, take, drop, get_or, length-take, length-drop, take-append-drop,
  min, max,
}
use bittorrent_client.Download.Pieces.{copy_at}

-- `old` stands at the offset `base`: its bytes from `start` on are those of `data_`, as far as it goes.
unfoldable pub overwrite : ℕ → List ℕ → ℕ → List ℕ → List ℕ
overwrite start data_ base [] = []
overwrite start data_ base (x ∷ xs) =
    (if leb start base then get_or data_ (base - start) x else x)
    ∷ overwrite start data_ (suc base) xs

get_or_ge : (xs : List ℕ) (i d : ℕ) → length xs ≤ i → get_or xs i d ≡ d
get_or_ge [] i d h = refl
get_or_ge (x ∷ xs) zero d h = absurd (omega arith)
get_or_ge (x ∷ xs) (suc i) d h = get_or_ge xs i d (omega arith)

take-drop-suc :
    (xs : List ℕ) (k n d : ℕ)
    → k < length xs
    → take (suc n) (drop k xs) ≡ get_or xs k d ∷ take n (drop (suc k) xs)
take-drop-suc [] k n d h = elim h [ ]
take-drop-suc (x ∷ xs) zero n d h = refl
take-drop-suc (x ∷ xs) (suc k) n d h = take-drop-suc xs k n d (omega arith)

pub drop_nil : (n : ℕ) → drop {A = ℕ} n [] ≡ []
drop_nil zero = refl
drop_nil (suc n) = refl

pub drop-drop : (m n k : ℕ) (xs : List ℕ) → m + n ≡ k → drop n (drop m xs) ≡ drop k xs
drop-drop zero n k xs h = ap (λ i. drop i xs) (omega arith)
drop-drop (suc m) n zero xs h = absurd (omega arith)
drop-drop (suc m) n (suc k) [] h = drop_nil n
drop-drop (suc m) n (suc k) (x ∷ xs) h = drop-drop m n k xs (omega arith)

module _ (start : ℕ) (data_ : List ℕ) where
  pub overwrite-append :
      (base : ℕ) (xs ys : List ℕ)
      → overwrite start data_ base (xs ++ ys)
        ≡ overwrite start data_ base xs ++ overwrite start data_ (base + length xs) ys
  unfolding overwrite
  overwrite-append base [] ys = ap (λ b. overwrite start data_ b ys) (omega arith)
  overwrite-append base (x ∷ xs) ys =
      let e : suc base + length xs ≡ base + suc (length xs) = omega arith in
      rw (overwrite-append (suc base) xs ys, e)

  pub overwrite_before :
      (base : ℕ) (xs : List ℕ) → length xs ≤ start - base → overwrite start data_ base xs ≡ xs
  unfolding overwrite
  overwrite_before base [] h = refl
  overwrite_before base (x ∷ xs) h = ground (arith, overwrite_before (suc base) xs)

  pub overwrite_after :
      (base : ℕ) (xs : List ℕ)
      → min (base + length xs) (start + length data_) ≤ base
      → overwrite start data_ base xs ≡ xs
  unfolding overwrite
  overwrite_after base [] h = refl
  overwrite_after base (x ∷ xs) h = rw (
    overwrite_after (suc base) xs (omega arith),
    le→leb start base (omega arith),
    get_or_ge data_ (base - start) x (omega arith),
  )

  pub overwrite_inside :
      (base : ℕ) (xs : List ℕ)
      → start ≤ base
      → base + length xs ≤ start + length data_
      → overwrite start data_ base xs ≡ take (length xs) (drop (base - start) data_)
  unfolding overwrite
  overwrite_inside base [] h1 h2 = refl
  overwrite_inside base (x ∷ xs) h1 h2 =
      let e : suc base - start ≡ suc (base - start) = omega arith in
      rw (
        overwrite_inside (suc base) xs (omega arith) (omega arith),
        le→leb start base h1,
        take-drop-suc data_ (base - start) (length xs) x (omega arith),
        e,
      )

  overwrite_parts :
      (base : ℕ) (before inside after : List ℕ)
      → length before ≤ start - base
      → start ≤ base + length before
      → base + length before + length inside ≤ start + length data_
      → min (base + length before + length inside + length after) (start + length data_)
        ≤ base + length before + length inside
      → overwrite start data_ base (before ++ (inside ++ after))
        ≡ before ++ (take (length inside) (drop (base + length before - start) data_) ++ after)
  overwrite_parts base before inside after h1 h2 h3 h4 = rw (
    overwrite-append base before (inside ++ after),
    overwrite-append (base + length before) inside after,
    overwrite_before base before h1,
    overwrite_inside (base + length before) inside h2 h3,
    overwrite_after (base + length before + length inside) after h4,
  )

  -- A file that the range meets: the copy that iterate_files asks for.
  pub overwrite_range :
      (base : ℕ) (old : List ℕ)
      → start < base + length old
      → base < start + length data_
      → let lo : ℕ = max start base in
        let count : ℕ = min (base + length old) (start + length data_) - lo in
        overwrite start data_ base old
        ≡ copy_at (lo - base) (take count (drop (lo - start) data_)) old
  overwrite_range base old h1 h2 =
      let lo : ℕ = max start base in
      let p : ℕ = lo - base in
      let c : ℕ = min (base + length old) (start + length data_) - lo in
      let piece : List ℕ = take c (drop (lo - start) data_) in
      let n : length piece ≡ c =
        omega (arith, length-take c (drop (lo - start) data_), length-drop (lo - start) data_) in
      let np : length (take p old) ≡ p = omega (arith, length-take p old) in
      let nm : length (take c (drop p old)) ≡ c =
        omega (arith, length-take c (drop p old), length-drop p old) in
      let tail : List ℕ = drop (p + length piece) old in
      let split : take p old ++ (take c (drop p old) ++ tail) ≡ old =
        ap (λ r. take p old ++ (take c (drop p old) ++ r))
          (sym (drop-drop p c (p + length piece) old (omega arith)))
        ∙ ap (λ r. take p old ++ r) (take-append-drop c (drop p old))
        ∙ take-append-drop p old in
      let whole : length tail ≡ length old - (p + length piece) =
        length-drop (p + length piece) old in
      sym (ap (overwrite start data_ base) split)
      ∙ overwrite_parts base (take p old) (take c (drop p old)) tail (omega arith) (omega arith)
          (omega arith) (omega arith)
      ∙ ap₂ (λ m k. take p old ++ (take m (drop k data_) ++ tail)) nm (omega arith)
