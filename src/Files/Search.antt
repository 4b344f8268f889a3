-- ===== src/Files/Search.antt =====
-- Where iterate_files starts and ends, for a file that holds the byte.
use bittorrent_client.Base.{
  ℕ, suc, ◌+◌, ◌^◌, ◌≤◌, ◌<◌, ◌≡◌, ap, ◌∙◌, List, [], ◌∷◌, ◌++◌, arith, length, some, subst,
}
use bittorrent_client.Torrent.Metainfo.{File}
use bittorrent_client.Files.Offsets.{FileOffset, file_offsets}
use bittorrent_client.Files.Iterate.{find_start, find_end}
use bittorrent_client.Files.Locate.{find_start_lem, find_end_lem}
use bittorrent_client.Files.Layout.{
  length-file_offsets, total_length, AllNonempty, total_length-append, file_offsets-append,
  file_offsets-cons, offset_of, starts_before, ends_before, starts_after, FileAt,
}

pub AllNonempty-left : (xs ys : List File) → AllNonempty (xs ++ ys) → AllNonempty xs
unfolding AllNonempty
AllNonempty-left [] ys h = tt
AllNonempty-left (x ∷ xs) ys h = (h.0, AllNonempty-left xs ys h.1)

pub AllNonempty-right : (xs ys : List File) → AllNonempty (xs ++ ys) → AllNonempty ys
unfolding AllNonempty
AllNonempty-right [] ys h = h
AllNonempty-right (x ∷ xs) ys h = AllNonempty-right xs ys h.1

file_offsets-split :
    (base i : ℕ) (before after : List File) (file : File)
    → base + total_length (before ++ file ∷ after) < 2 ^ 64
    → file_offsets base i (before ++ file ∷ after)
      ≡ file_offsets base i before
        ++ offset_of (base + total_length before) (i + length before) file
          ∷ file_offsets
              (base + total_length before + file.length_bytes)
              (suc (i + length before))
              after
unfolding total_length
file_offsets-split base i before after file w =
    file_offsets-append base i before (file ∷ after)
      (omega (arith, total_length-append before (file ∷ after)))
    ∙ ap (◌++◌ (file_offsets base i before)) (
        file_offsets-cons (base + total_length before) (i + length before) file after
          (omega (arith, total_length-append before (file ∷ after))))

module _ (base i at : ℕ) (before after : List File) (file : File)
    (ne : AllNonempty (before ++ file ∷ after))
    (w : base + total_length (before ++ file ∷ after) < 2 ^ 64)
    (from : base + total_length before ≤ at)
    (to : at < base + total_length before + file.length_bytes) where
  find_start-split :
      find_start (file_offsets base i (before ++ file ∷ after)) at ≡ some (length before)
  unfolding total_length
  find_start-split =
      let t : total_length (before ++ file ∷ after)
          ≡ total_length before + (file.length_bytes + total_length after) =
        total_length-append before (file ∷ after) in
      let first : FileOffset = offset_of (base + total_length before) (i + length before) file in
      ap (λ fos. find_start fos at) (file_offsets-split base i before after file w)
      ∙ find_start_lem at (file_offsets base i before) first
          (file_offsets (base + total_length before + file.length_bytes) (suc (i + length before))
            after)
          (starts_before base i at before (AllNonempty-left before (file ∷ after) ne) from
            (omega arith))
          from to
          (starts_after (base + total_length before + file.length_bytes) (suc (i + length before))
            at after to (omega arith))
      ∙ ap some (length-file_offsets base i before)

  find_end-split :
      find_end (file_offsets base i (before ++ file ∷ after)) (suc at) ≡ some (length before)
  unfolding total_length
  find_end-split =
      let t : total_length (before ++ file ∷ after)
          ≡ total_length before + (file.length_bytes + total_length after) =
        total_length-append before (file ∷ after) in
      let last : FileOffset = offset_of (base + total_length before) (i + length before) file in
      ap (λ fos. find_end fos (suc at)) (file_offsets-split base i before after file w)
      ∙ find_end_lem (file_offsets base i before)
          (file_offsets (base + total_length before + file.length_bytes) (suc (i + length before))
            after)
          last (suc at) (ends_before base i (suc at) before (omega arith) (omega arith))
          (omega arith) (omega arith)
      ∙ ap some (length-file_offsets base i before)

module _ (base i at : ℕ) (files : List File) (c : FileAt base at files) (ne : AllNonempty files)
    (w : base + total_length files < 2 ^ 64) where
  pub find_start-file_offsets : find_start (file_offsets base i files) at ≡ some (length c.before)
  find_start-file_offsets =
      ap (λ fs. find_start (file_offsets base i fs) at) c.split
      ∙ find_start-split base i at c.before c.after c.file (subst AllNonempty c.split ne)
          (subst (λ fs. base + total_length fs < 2 ^ 64) c.split w) c.from c.to

  pub find_end-file_offsets : find_end (file_offsets base i files) (suc at) ≡ some (length c.before)
  find_end-file_offsets =
      ap (λ fs. find_end (file_offsets base i fs) (suc at)) c.split
      ∙ find_end-split base i at c.before c.after c.file (subst AllNonempty c.split ne)
          (subst (λ fs. base + total_length fs < 2 ^ 64) c.split w) c.from c.to
