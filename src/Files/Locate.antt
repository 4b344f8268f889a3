-- ===== src/Files/Locate.antt =====
-- The searches of iterate_files on the offsets of files that are not empty.
use bittorrent_client.Base.{
  dec_lt, lt→ltb, ℕ, zero, suc, ◌-◌, ◌≤◌, ◌<◌, ◌≡◌, refl, ap, sym, ◌∙◌, Bool, true, false, some,
  List, [], ◌∷◌, ◌++◌, arith, ltb, ◌==◌, length, get_elem?, length-append, append_assoc, All,
}
use bittorrent_client.Files.Offsets.{FileOffset}
use bittorrent_client.Files.Iterate.{lower_bound, find_start, adjust_start, find_end}

module _ {ℓ} {A : Type ℓ} where
  pub get_elem?-append :
      (xs ys : List A) (y : A) (i : ℕ) → i ≡ length xs → get_elem? (xs ++ y ∷ ys) i ≡ some y
  get_elem?-append [] ys y i h = ap (get_elem? (y ∷ ys)) h
  get_elem?-append (x ∷ xs) ys y zero h = absurd (omega arith)
  get_elem?-append (x ∷ xs) ys y (suc i) h = get_elem?-append xs ys y i (omega arith)

  lower_bound-append :
      (test : A → Bool) (xs ys : List A) (y : A)
      → All (λ x. test x ≡ true) xs
      → test y ≡ false
      → lower_bound test (xs ++ y ∷ ys) ≡ length xs
  unfolding lower_bound
  lower_bound-append test [] ys y all stop = rw (stop) refl
  lower_bound-append test (x ∷ xs) ys y all stop =
      rw (all.0, lower_bound-append test xs ys y all.1 stop) refl

  lower_bound-All :
      (test : A → Bool) (xs : List A)
      → All (λ x. test x ≡ true) xs
      → lower_bound test xs ≡ length xs
  unfolding lower_bound
  lower_bound-All test [] all = refl
  lower_bound-All test (x ∷ xs) all = rw (all.0, lower_bound-All test xs all.1) refl

  All-snoc {κ} : (P : A → Type κ) (xs : List A) (y : A) → All P xs → P y → All P (xs ++ y ∷ [])
  All-snoc P [] y all h = (h, tt)
  All-snoc P (x ∷ xs) y all h = (all.0, All-snoc P xs y all.1 h)

module _ (start_bytes : ℕ) (before : List FileOffset) (file : FileOffset) where
  adjust_start_here :
      (after : List FileOffset) (i : ℕ)
      → i ≡ length before
      → file.start ≤ start_bytes
      → start_bytes < file.end
      → adjust_start (before ++ file ∷ after) start_bytes i ≡ some (length before)
  unfolding adjust_start
  adjust_start_here after i h h1 h2 =
      let g : get_elem? (before ++ file ∷ after) i ≡ some file =
        get_elem?-append before after file i h in
      rw (g) (ground arith)

  adjust_start_next :
      (next : FileOffset) (after : List FileOffset)
      → file.start ≤ start_bytes
      → start_bytes < file.end
      → start_bytes < next.start
      → adjust_start (before ++ file ∷ next ∷ after) start_bytes (suc (length before))
        ≡ some (length before)
  unfolding adjust_start
  adjust_start_next next after h1 h2 h3 =
      let g : get_elem? (before ++ file ∷ next ∷ after) (suc (length before)) ≡ some next =
        ap (λ fos. get_elem? fos (suc (length before)))
          (sym (append_assoc before (file ∷ []) (next ∷ after)))
        ∙ get_elem?-append (before ++ file ∷ []) after next (suc (length before))
            (omega (arith, length-append before (file ∷ []))) in
      let g' : get_elem? (before ++ file ∷ next ∷ after) (length before) ≡ some file =
        get_elem?-append before (next ∷ after) file (length before) refl in
      rw (g, lt→ltb start_bytes next.start h3, g') (ground arith)

  lower_bound_after :
      (after : List FileOffset)
      → All (λ fo. ltb fo.start start_bytes ≡ true) before
      → file.start < start_bytes
      → All (λ fo. start_bytes < fo.start) after
      → lower_bound (λ fo. ltb fo.start start_bytes) (before ++ file ∷ after) ≡ suc (length before)
  lower_bound_after [] h1 h2 h3 =
      lower_bound-All (λ fo. ltb fo.start start_bytes) (before ++ file ∷ [])
        (All-snoc (λ fo. ltb fo.start start_bytes ≡ true) before file h1
          (lt→ltb file.start start_bytes h2))
      ∙ omega (arith, length-append before (file ∷ []))
  lower_bound_after (next ∷ after) h1 h2 h3 =
      ap (lower_bound (λ fo. ltb fo.start start_bytes))
        (sym (append_assoc before (file ∷ []) (next ∷ after)))
      ∙ lower_bound-append (λ fo. ltb fo.start start_bytes) (before ++ file ∷ []) after next
          (All-snoc (λ fo. ltb fo.start start_bytes ≡ true) before file h1
            (lt→ltb file.start start_bytes h2))
          (ground (arith, h3.0))
      ∙ omega (arith, length-append before (file ∷ []))

  find_start_after :
      (after : List FileOffset)
      → All (λ fo. ltb fo.start start_bytes ≡ true) before
      → file.start < start_bytes
      → start_bytes < file.end
      → All (λ fo. start_bytes < fo.start) after
      → find_start (before ++ file ∷ after) start_bytes ≡ some (length before)
  unfolding find_start
  find_start_after [] h1 h2 h3 h4 =
      let n : (suc (length before) == length (before ++ file ∷ [])) ≡ true =
        ground (arith, length-append before (file ∷ [])) in
      rw (lower_bound_after [] h1 h2 h4, n)
        (adjust_start_here [] (length (before ++ file ∷ []) - 1)
          (omega (arith, length-append before (file ∷ []))) (omega arith) h3)
  find_start_after (next ∷ after) h1 h2 h3 h4 =
      let n : (suc (length before) == length (before ++ file ∷ next ∷ after)) ≡ false =
        ground (arith, length-append before (file ∷ next ∷ after)) in
      rw (lower_bound_after (next ∷ after) h1 h2 h4, n)
        (adjust_start_next next after (omega arith) h3 h4.0)

  pub find_start_lem :
      (after : List FileOffset)
      → All (λ fo. ltb fo.start start_bytes ≡ true) before
      → file.start ≤ start_bytes
      → start_bytes < file.end
      → All (λ fo. start_bytes < fo.start) after
      → find_start (before ++ file ∷ after) start_bytes ≡ some (length before)
  unfolding find_start
  find_start_lem after h1 h2 h3 h4 =
      let n : (length before == length (before ++ file ∷ after)) ≡ false =
        ground (arith, length-append before (file ∷ after)) in
      elim (dec_lt file.start start_bytes) [
        | yes lt ↦ find_start_after after h1 lt h3 h4
        | no ge ↦
            let e : lower_bound (λ fo. ltb fo.start start_bytes) (before ++ file ∷ after)
                ≡ length before =
              lower_bound-append (λ fo. ltb fo.start start_bytes) before after file h1
                (ground arith) in
            rw (e, n) (adjust_start_here after (length before) refl h2 h3)
      ]

module _ (before after : List FileOffset) (file : FileOffset) where
  pub find_end_lem :
      (end_bytes : ℕ)
      → All (λ fo. ltb fo.end end_bytes ≡ true) before
      → file.start < end_bytes
      → end_bytes ≤ file.end
      → find_end (before ++ file ∷ after) end_bytes ≡ some (length before)
  unfolding find_end
  find_end_lem end_bytes h1 h2 h3 =
      let e : lower_bound (λ fo. ltb fo.end end_bytes) (before ++ file ∷ after) ≡ length before =
        lower_bound-append (λ fo. ltb fo.end end_bytes) before after file h1 (ground arith) in
      let g : get_elem? (before ++ file ∷ after) (length before) ≡ some file =
        get_elem?-append before after file (length before) refl in
      rw (e, g) (ground arith)
