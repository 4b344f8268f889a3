-- ===== src/Bencode/Overrun.antt =====
-- ParseString and Parse: consume_n compares a string's length with the size of the whole buffer, so
-- at the top level a string may run past the end of the buffer.
use bittorrent_client.Base.{
  ℕ, zero, suc, ◌+◌, ◌*◌, ◌≤◌, ◌<◌, ◌≡◌, ◌↔◌, ◌⊎◌, inl, inr, refl, sym, ap, ◌∙◌, true, false, List,
  [], ◌∷◌, ◌++◌, Result, ok, Ensures, holds, rejected, Ensures-ok, Ensures-if, arith, lt→ltb,
  length, length-append, take, drop, subst,
}
use bittorrent_client.Bencode.Elements.{
  View, IsWhole, ElementRef, ListRef, element, string, no_elements, add_element, as_string, none_id,
}
use bittorrent_client.Bencode.Length.{IsLength, parse_length_complete}
use bittorrent_client.Bencode.Cursor.{Cursor, Failure, Reported, then_parse, has_data}
use bittorrent_client.Bencode.Grammar.{EncodesAll}
use bittorrent_client.Bencode.Parser.{
  parse_string, parse_string_only, with_element, push_front, parse_all, parse, drop_cursor,
  asserted, start_of, fuel_for,
}
use bittorrent_client.Bencode.Sound.Strings.{ReadsElement, ReadsString, parse_string-Ensures}
use bittorrent_client.Bencode.Sound.Elements.{not_longer, shorter, parse_element-Ensures}
use bittorrent_client.Bencode.Complete.Scalars.{cursor, parse_string_length-prefix}

-- The data begins with a length prefix and a colon, the length is less than the size of the whole
-- data, and the view has those of the bytes behind the colon that are there.
abbrev pub StringAtFront : List ℕ → View → Type 0
StringAtFront content v =
    (ds : List ℕ) × (r : List ℕ) × (content ≡ ds ++ b':' ∷ r)
    × IsLength ds v.size
    × (v.size < length content)
    × (v.bytes ≡ take v.size r)

string-Ensures :
    (content : List ℕ) (r : Result Failure (ElementRef × Cursor))
    → Ensures Reported (ReadsString (length content) (start_of content)) r
    → Ensures Reported
        (StringAtFront content)
        (drop_cursor (then_parse r λ e. asserted (as_string e)))
unfolding as_string
string-Ensures content r (holds {a} (n, ds, begin, num, less, line, _, same)) =
    rw same (holds (ds, begin.rest, line, num, less, refl))
string-Ensures content r (rejected h) = rejected h

parse_string-any :
    (total o n : ℕ) (ds r : List ℕ)
    → IsLength ds n
    → n < total
    → parse_string total (cursor o (ds ++ b':' ∷ r))
      ≡ ok (
        element
            (string (record { size = n; bytes = take n r }))
            (record { start = o; end = o + length ds + 1 + n }),
        cursor (o + length ds + 1 + n) (drop n r),
      )
unfolding parse_string
parse_string-any total o n ds r num h = rw (
  parse_string_length-prefix o ds r num.digits num.some_digit,
  parse_length_complete ds n num,
  lt→ltb n total h,
)

parse_string_only_complete :
    (content : List ℕ) (v : View) → StringAtFront content v → parse_string_only content ≡ ok v
unfolding parse_string_only as_string
parse_string_only_complete content v (ds, r, line, num, less, e) =
    let read = parse_string-any (length content) 0 v.size ds r num less in
    rw (ap (λ (x : List ℕ). parse_string (length content) (cursor 0 x)) line ∙ read)
      (ap (λ (b : List ℕ). ok (record { size = v.size; bytes = b })) (sym e))

parse_string_only-Ensures :
    (content : List ℕ) → Ensures Reported (StringAtFront content) (parse_string_only content)
unfolding parse_string_only
parse_string_only-Ensures content =
    string-Ensures content _ (parse_string-Ensures (length content) (start_of content))

-- ParseString returns `v`, before any address overflows, exactly when the data begins with digits and a
-- colon, the digits' number is the size of `v` and less than the size of the whole data, and `v` has those
-- of the bytes behind the colon that are there.
pub parse_string_only_iff :
    (content : List ℕ) (v : View) → (parse_string_only content ≡ ok v) ↔ StringAtFront content v
parse_string_only_iff content v =
    (Ensures-ok (parse_string_only-Ensures content), parse_string_only_complete content v)

take_ge : (n : ℕ) (xs : List ℕ) → length xs ≤ n → take n xs ≡ xs
take_ge zero [] h = refl
take_ge zero (x ∷ xs) h = absurd (omega arith)
take_ge (suc n) [] h = refl
take_ge (suc n) (x ∷ xs) h = ap (◌∷◌ x) (take_ge n xs (omega arith))

-- A string that is too short, by less than its prefix and colon, is accepted, with a view that runs past the
-- end of the buffer.
pub parse_string_only-past_end :
    (ds t : List ℕ) (n : ℕ)
    → IsLength ds n
    → length t < n
    → n < length ds + 1 + length t
    → (parse_string_only (ds ++ b':' ∷ t) ≡ ok (record { size = n; bytes = t }))
      × ¬ IsWhole (record { size = n; bytes = t })
parse_string_only-past_end ds t n num short less = (
  parse_string_only_complete (ds ++ b':' ∷ t) (record { size = n; bytes = t })
      (
        ds,
        t,
        refl,
        num,
        omega (arith, length-append ds (b':' ∷ t)),
        sym (take_ge n t (omega arith)),
      ),
  λ h. omega arith,
)

-- The last element is a string that runs past the end of the buffer.
abbrev pub LastOverruns : ListRef → Type 0
LastOverruns no_elements = ⊥
LastOverruns (add_element (element (string v) p) no_elements) = length v.bytes < v.size
LastOverruns (add_element e no_elements) = ⊥
LastOverruns (add_element e (add_element e' es)) = LastOverruns (add_element e' es)

-- What the loop of Parse returns from a cursor.
abbrev ReadsToEnd : Cursor → ListRef → Type 0
ReadsToEnd c es = EncodesAll es c.offset c.rest ⊎ LastOverruns es

LastOverruns-add :
    (e : ElementRef) (es : ListRef) → LastOverruns es → LastOverruns (add_element e es)
LastOverruns-add e no_elements h = absurd h
LastOverruns-add e (add_element e' es) h = h

has_data→pos : (c : Cursor) → has_data c ≡ true → 0 < length c.rest
unfolding has_data
has_data→pos c h = ground arith

no_data→nil : (c : Cursor) → has_data c ≡ false → c.rest ≡ []
unfolding has_data
no_data→nil c h = ground arith

only_element :
    (c c' : Cursor) (e : ElementRef)
    → ReadsElement c (e, c')
    → c'.rest ≡ []
    → ReadsToEnd c (add_element e no_elements)
only_element c c' e (inl (s, line, place, enc)) h = inl (s, [], enc, refl, line ∙ ap (◌++◌ s) h)
only_element c c' e (inr (v, same, over, _)) h =
    inr (subst (λ (x : ElementRef). LastOverruns (add_element x no_elements)) (sym same) over)

one_more :
    (c c' : Cursor) (e : ElementRef) (es : ListRef)
    → ReadsElement c (e, c')
    → 0 < length c'.rest
    → ReadsToEnd c' es
    → ReadsToEnd c (add_element e es)
one_more c c' e es (inl (s, line, place, enc)) pos (inl encs) =
    inl (s, c'.rest, enc, subst (λ (o : ℕ). EncodesAll es o c'.rest) place encs, line)
one_more c c' e es first pos (inr h) = inr (LastOverruns-add e es h)
one_more c c' e es (inr (_, _, _, over)) pos (inl encs) = absurd (omega (arith, ap length over))

push_front-Ensures :
    (c c' : Cursor) (e : ElementRef) (r : Result Failure ListRef)
    → ReadsElement c (e, c')
    → 0 < length c'.rest
    → Ensures Reported (ReadsToEnd c') r
    → Ensures Reported (ReadsToEnd c) (push_front e r)
push_front-Ensures c c' e r first pos (holds {a} h) = holds (one_more c c' e a first pos h)
push_front-Ensures c c' e r first pos (rejected h) = rejected h

with_element-Ensures :
    (c : Cursor) (r : Result Failure (ElementRef × Cursor))
    (f : ElementRef → Cursor → Result Failure ListRef)
    → Ensures Reported (ReadsElement c) r
    → ((e : ElementRef) (c' : Cursor)
        → ReadsElement c (e, c')
        → Ensures Reported (ReadsToEnd c) (f e c'))
    → Ensures Reported (ReadsToEnd c) (with_element r f)
with_element-Ensures c r f (holds {a = (e, c')} h) k = k e c' h
with_element-Ensures c r f (rejected h) k = rejected h

parse_all-Ensures :
    (total f : ℕ) (c : Cursor)
    → 2 * length c.rest < f
    → Ensures Reported (ReadsToEnd c) (parse_all total f c)
unfolding parse_all
parse_all-Ensures total zero c h = absurd (omega arith)
parse_all-Ensures total (suc f) c h =
    with_element-Ensures c _ _
      (parse_element-Ensures total (suc f) none_id c (omega arith) (omega arith))
      λ e c' first.
        Ensures-if (has_data c')
          (λ more.
            let pos : 0 < length c'.rest = has_data→pos c' more in
            push_front-Ensures c c' e _ first pos (
              parse_all-Ensures total f c' (
                omega (
                  arith,
                  not_longer c e c' first,
                  shorter c e c' (omega (arith, not_longer c e c' first)) first,
                ))))
          (λ no_more. holds (only_element c c' e first (no_data→nil c' no_more)))

-- Parse reports an error, or meets the length of a string that is at least 2 ^ 63, where the sum with an
-- address may overflow and the model ends, or returns elements that the whole data encodes, or a last element
-- that is a string past the end of the buffer; its fuel suffices and none of its assertions fails.
pub parse_total :
    (content : List ℕ)
    → Ensures Reported (λ es. EncodesAll es 0 content ⊎ LastOverruns es) (parse content)
unfolding parse
parse_total content =
    parse_all-Ensures (length content) (fuel_for content) (start_of content) (omega arith)
