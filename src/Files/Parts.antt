-- ===== src/Files/Parts.antt =====
-- The files that a range of bytes meets, as iterate_files finds them.
use bittorrent_client.Base.{
  ℕ, suc, ◌+◌, ◌^◌, ◌≤◌, ◌<◌, ◌≡◌, refl, ap, ap₂, sym, ◌∙◌, some, List, [], ◌∷◌, ◌++◌, arith,
  length, append_assoc, length-append, subst, take, drop,
}
use bittorrent_client.Torrent.Metainfo.{File}
use bittorrent_client.Files.Offsets.{FilesList, file_offsets}
use bittorrent_client.Files.Iterate.{find_start, find_end}
use bittorrent_client.Files.Layout.{
  total_length, total_length-append, AllNonempty, FileAt, file_at, drop-file_offsets,
  take-file_offsets,
}
use bittorrent_client.Files.Search.{
  AllNonempty-left, AllNonempty-right, find_start-file_offsets, find_end-file_offsets,
}
use bittorrent_client.Files.Loop.{Meet}

first_length : List File → ℕ
first_length [] = 0
first_length (f ∷ files) = f.length_bytes

Meet-from :
    (start_bytes end_bytes base : ℕ) (before : List File) (last : File)
    → AllNonempty (before ++ last ∷ [])
    → start_bytes < base + first_length (before ++ last ∷ [])
    → base + total_length before < end_bytes
    → Meet start_bytes end_bytes base (before ++ last ∷ [])
unfolding Meet AllNonempty total_length first_length
Meet-from start_bytes end_bytes base [] last ne h1 h2 = (h1, omega arith, tt)
Meet-from start_bytes end_bytes base (f ∷ []) last ne h1 h2 = (
  h1,
  omega arith,
  Meet-from start_bytes end_bytes (base + f.length_bytes) [] last ne.1 (omega (arith, ne.1.0))
      (omega arith),
)
Meet-from start_bytes end_bytes base (f ∷ g ∷ before) last ne h1 h2 = (
  h1,
  omega arith,
  Meet-from start_bytes end_bytes (base + f.length_bytes) (g ∷ before) last ne.1
      (omega (arith, ne.1.0)) (omega arith),
)

first_length-append :
    (before after : List File) (last : File)
    → first_length (before ++ last ∷ []) ≡ first_length (before ++ last ∷ after)
unfolding first_length
first_length-append [] after last = refl
first_length-append (f ∷ before) after last = refl

-- The files before the range, those that it meets, and those after it.
pub record Parts (start_bytes end_bytes : ℕ) (list : FilesList) (files : List File) : Type 0 where
  pub before : List File
  pub inside : List File
  pub after : List File
  pub split : files ≡ before ++ (inside ++ after)
  pub meet : Meet start_bytes end_bytes (total_length before) inside
  pub from : total_length before ≤ start_bytes
  pub to : end_bytes ≤ total_length before + total_length inside
  pub it_start : find_start list.files_offset start_bytes ≡ some (length before)
  pub it_end : ℕ
  pub it_end_found : find_end (drop (length before) list.files_offset) end_bytes ≡ some it_end
  pub range :
      take (suc it_end) (drop (length before) list.files_offset)
      ≡ file_offsets (total_length before) (length before) inside

pub parts :
    (start_bytes count : ℕ) (list : FilesList) (files : List File)
    → list.files_offset ≡ file_offsets 0 0 files
    → AllNonempty files
    → total_length files < 2 ^ 64
    → start_bytes + suc count ≤ total_length files
    → Parts start_bytes (start_bytes + suc count) list files
unfolding total_length first_length
parts start_bytes count list files layout ne w h =
    let c : FileAt 0 start_bytes files = file_at 0 start_bytes files (omega arith) (omega arith) in
    let t1 : total_length files
        ≡ total_length c.before + (c.file.length_bytes + total_length c.after) =
      ap total_length c.split ∙ total_length-append c.before (c.file ∷ c.after) in
    let base : ℕ = total_length c.before in
    let d : FileAt base (start_bytes + count) (c.file ∷ c.after) =
      file_at base (start_bytes + count) (c.file ∷ c.after) (omega (arith, c.from)) (omega arith) in
    let inside : List File = d.before ++ d.file ∷ [] in
    let t2 : total_length inside ≡ total_length d.before + (d.file.length_bytes + 0) =
      total_length-append d.before (d.file ∷ []) in
    let t3 : c.file.length_bytes + total_length c.after
        ≡ total_length d.before + (d.file.length_bytes + total_length d.after) =
      ap total_length d.split ∙ total_length-append d.before (d.file ∷ d.after) in
    let s : c.file ∷ c.after ≡ inside ++ d.after =
      d.split ∙ sym (append_assoc d.before (d.file ∷ []) d.after) in
    let ne1 : AllNonempty (c.file ∷ c.after) =
      AllNonempty-right c.before (c.file ∷ c.after) (subst AllNonempty c.split ne) in
    let dropped : drop (length c.before) list.files_offset
        ≡ file_offsets base (length c.before) (c.file ∷ c.after) =
      ap (drop (length c.before)) layout
      ∙ ap (λ fs. drop (length c.before) (file_offsets 0 0 fs)) c.split
      ∙ drop-file_offsets 0 0 c.before (c.file ∷ c.after) (omega arith)
      ∙ ap₂ (λ b i. file_offsets b i (c.file ∷ c.after)) (omega arith) (omega arith) in
    let m : suc (length d.before) ≡ length inside =
      omega (arith, length-append d.before (d.file ∷ [])) in
    record {
      before = c.before;
      inside = inside;
      after = d.after;
      split = c.split ∙ ap (◌++◌ c.before) s;
      meet =
          Meet-from start_bytes (start_bytes + suc count) base d.before d.file
            (AllNonempty-left inside d.after (subst AllNonempty s ne1))
            (omega
              (arith, first_length-append d.before d.after d.file, ap first_length d.split, c.to))
            (omega (arith, d.from));
      from = omega (arith, c.from);
      to = omega (arith, d.to);
      it_start =
          ap (λ fos. find_start fos start_bytes) layout
          ∙ find_start-file_offsets 0 0 start_bytes files c ne (omega arith);
      it_end = length d.before;
      it_end_found =
          ap₂ find_end dropped (omega arith)
          ∙ find_end-file_offsets base (length c.before) (start_bytes + count) (c.file ∷ c.after) d
              ne1 (omega arith);
      range =
          ap (take (suc (length d.before))) (dropped ∙ ap (file_offsets base (length c.before)) s)
          ∙ ap (λ n. take n (file_offsets base (length c.before) (inside ++ d.after))) m
          ∙ take-file_offsets base (length c.before) inside d.after (omega arith);
    }
