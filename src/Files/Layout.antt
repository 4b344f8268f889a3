-- ===== src/Files/Layout.antt =====
-- The offsets of files that are not empty and whose lengths do not overflow together.
use bittorrent_client.Base.{
  ℕ, suc, ◌+◌, ◌^◌, ◌%◌, ◌≤◌, ◌<◌, ◌≡◌, refl, ap, ap₂, sym, ◌∙◌, true, List, [], ◌∷◌, ◌++◌, arith,
  ltb, lt→ltb, length, take, drop, All, dec_lt, drop-append, take-append,
}
use bittorrent_client.Torrent.Metainfo.{File}
use bittorrent_client.Files.Offsets.{FileOffset, file_offsets}

unfoldable pub total_length : List File → ℕ
total_length [] = 0
total_length (f ∷ files) = f.length_bytes + total_length files

unfoldable pub AllNonempty : List File → Type 0
AllNonempty = All (λ f. 0 < f.length_bytes)

pub total_length-append :
    (xs ys : List File) → total_length (xs ++ ys) ≡ total_length xs + total_length ys
unfolding total_length
total_length-append [] ys = omega arith
total_length-append (x ∷ xs) ys = omega (arith, total_length-append xs ys)

pub length-file_offsets :
    (base i : ℕ) (files : List File) → length (file_offsets base i files) ≡ length files
unfolding file_offsets
length-file_offsets base i [] = refl
length-file_offsets base i (f ∷ files) =
    ap suc (length-file_offsets ((base + f.length_bytes) % 2 ^ 64) (suc i) files)

abbrev pub offset_of : ℕ → ℕ → File → FileOffset
offset_of base i f = record { start = base; end = base + f.length_bytes; file_index = i }

pub file_offsets-cons :
    (base i : ℕ) (f : File) (files : List File)
    → base + f.length_bytes < 2 ^ 64
    → file_offsets base i (f ∷ files)
      ≡ offset_of base i f ∷ file_offsets (base + f.length_bytes) (suc i) files
unfolding file_offsets
file_offsets-cons base i f files h =
    ap (λ e. record { start = base; end = e; file_index = i } ∷ file_offsets e (suc i) files)
      (omega arith)

pub file_offsets-append :
    (base i : ℕ) (xs ys : List File)
    → base + total_length xs < 2 ^ 64
    → file_offsets base i (xs ++ ys)
      ≡ file_offsets base i xs ++ file_offsets (base + total_length xs) (i + length xs) ys
unfolding total_length file_offsets
file_offsets-append base i [] ys h = ap₂ (λ b j. file_offsets b j ys) (omega arith) (omega arith)
file_offsets-append base i (x ∷ xs) ys h =
    let e : (base + x.length_bytes) % 2 ^ 64 ≡ base + x.length_bytes = omega arith in
    rw (e, file_offsets-append (base + x.length_bytes) (suc i) xs ys (omega arith))
      (ap₂
        (λ b j.
          offset_of base i x
          ∷ (file_offsets (base + x.length_bytes) (suc i) xs ++ file_offsets b j ys))
        (omega arith) (omega arith))

pub starts_before :
    (base i at : ℕ) (files : List File)
    → AllNonempty files
    → base + total_length files ≤ at
    → at < 2 ^ 64
    → All (λ fo. ltb fo.start at ≡ true) (file_offsets base i files)
unfolding total_length AllNonempty file_offsets
starts_before base i at [] ne h w = tt
starts_before base i at (f ∷ files) ne h w =
    let e : (base + f.length_bytes) % 2 ^ 64 ≡ base + f.length_bytes = omega arith in
    rw (e) (
      lt→ltb base at (omega (arith, ne.0)),
      starts_before (base + f.length_bytes) (suc i) at files ne.1 (omega arith) w,
    )

pub ends_before :
    (base i at : ℕ) (files : List File)
    → base + total_length files < at
    → at < 2 ^ 64
    → All (λ fo. ltb fo.end at ≡ true) (file_offsets base i files)
unfolding total_length file_offsets
ends_before base i at [] h w = tt
ends_before base i at (f ∷ files) h w =
    let e : (base + f.length_bytes) % 2 ^ 64 ≡ base + f.length_bytes = omega arith in
    rw (e) (
      lt→ltb (base + f.length_bytes) at (omega arith),
      ends_before (base + f.length_bytes) (suc i) at files (omega arith) w,
    )

pub starts_after :
    (base i at : ℕ) (files : List File)
    → at < base
    → base + total_length files < 2 ^ 64
    → All (λ fo. at < fo.start) (file_offsets base i files)
unfolding total_length file_offsets
starts_after base i at [] h w = tt
starts_after base i at (f ∷ files) h w =
    let e : (base + f.length_bytes) % 2 ^ 64 ≡ base + f.length_bytes = omega arith in
    rw (e) (h, starts_after (base + f.length_bytes) (suc i) at files (omega arith) (omega arith))

-- The file that holds the byte `at`.
pub record FileAt (base at : ℕ) (files : List File) : Type 0 where
  pub before : List File
  pub file : File
  pub after : List File
  pub split : files ≡ before ++ file ∷ after
  pub from : base + total_length before ≤ at
  pub to : at < base + total_length before + file.length_bytes

pub file_at :
    (base at : ℕ) (files : List File)
    → base ≤ at
    → at < base + total_length files
    → FileAt base at files
unfolding total_length
file_at base at [] h1 h2 = absurd (omega arith)
file_at base at (f ∷ files) h1 h2 = elim (dec_lt at (base + f.length_bytes)) [
  | yes lt ↦ record {
    before = [];
    file = f;
    after = files;
    split = refl;
    from = omega arith;
    to = omega arith;
  }
  | no ge ↦
      let c : FileAt (base + f.length_bytes) at files =
        file_at (base + f.length_bytes) at files (omega arith) (omega arith) in
      record {
        before = f ∷ c.before;
        file = c.file;
        after = c.after;
        split = ap (◌∷◌ f) c.split;
        from = omega (arith, c.from);
        to = omega (arith, c.to);
      }
]

pub drop-file_offsets :
    (base i : ℕ) (xs ys : List File)
    → base + total_length xs < 2 ^ 64
    → drop (length xs) (file_offsets base i (xs ++ ys))
      ≡ file_offsets (base + total_length xs) (i + length xs) ys
drop-file_offsets base i xs ys h =
    let rest : List FileOffset = file_offsets (base + total_length xs) (i + length xs) ys in
    ap (drop (length xs)) (file_offsets-append base i xs ys h)
    ∙ ap (λ n. drop n (file_offsets base i xs ++ rest)) (sym (length-file_offsets base i xs))
    ∙ drop-append (file_offsets base i xs) rest

pub take-file_offsets :
    (base i : ℕ) (xs ys : List File)
    → base + total_length xs < 2 ^ 64
    → take (length xs) (file_offsets base i (xs ++ ys)) ≡ file_offsets base i xs
take-file_offsets base i xs ys h =
    let rest : List FileOffset = file_offsets (base + total_length xs) (i + length xs) ys in
    ap (take (length xs)) (file_offsets-append base i xs ys h)
    ∙ ap (λ n. take n (file_offsets base i xs ++ rest)) (sym (length-file_offsets base i xs))
    ∙ take-append (file_offsets base i xs) rest
