-- ===== src/Bencode/Complete/Elements.antt =====
-- parse_element on any encoded element, by induction on the element.
use bittorrent_client.Base.{
  ℕ, zero, suc, ◌+◌, ◌*◌, ◌≤◌, ◌<◌, ◌≡◌, refl, sym, ap, ◌∙◌, true, List, [], ◌∷◌, ◌++◌,
  append_assoc, some, ok, arith, length, length-append, subst,
}
use bittorrent_client.Bencode.Elements.{
  ElementId, ElementPosition, View, ElementRef, StorageRef, ListRef, DictionaryRef, element,
  integer, string, list, dictionary, no_elements, add_element, no_entries, add_entry, as_string,
  list_id, dictionary_id,
}
use bittorrent_client.Bencode.Cursor.{Cursor}
use bittorrent_client.Bencode.Grammar.{EncodesString, Encodes, EncodesAll, EncodesEntries, span}
use bittorrent_client.Bencode.Parser.{more, parse_element, parse_elements, parse_entries}
use bittorrent_client.Bencode.Complete.Scalars.{cursor, Parses, whole_view}
use bittorrent_client.Bencode.Complete.Switch.{
  Dispatches, dispatch-string_complete, dispatch-integer_complete, dispatch-list_complete,
  dispatch-dictionary_complete, more-Encodes, more-string,
}
use bittorrent_client.Bencode.Sound.Containers.{EncodesString-pos, Encodes-pos}

is_string : (v : View) (p : ElementPosition) → as_string (element (string v) p) ≡ some v
unfolding as_string
is_string v p = refl

module _ (total : ℕ) where
  -- One round of each function, by what its calls return.
  element_step :
      (f : ℕ) (id : ElementId) (e : ElementRef) (o : ℕ) (s r : List ℕ)
      → Dispatches total id (parse_elements total f) (parse_entries total f) e o s r
      → Parses e o s (parse_element total (suc f) id) r
  unfolding parse_element
  element_step f id e o s r h = h

  elements_step :
      (f : ℕ) (c c₁ c₂ : Cursor) (e : ElementRef) (es : ListRef)
      → more c ≡ true
      → parse_element total f list_id c ≡ ok (e, c₁)
      → parse_elements total f c₁ ≡ ok (es, c₂)
      → parse_elements total (suc f) c ≡ ok (add_element e es, c₂)
  unfolding parse_element
  elements_step f c c₁ c₂ e es m p q = rw (m, p, q)

  entries_step :
      (f : ℕ) (c c₁ c₂ c₃ : Cursor) (key e : ElementRef) (k : View) (d : DictionaryRef)
      → more c ≡ true
      → parse_element total f dictionary_id c ≡ ok (key, c₁)
      → as_string key ≡ some k
      → parse_element total f dictionary_id c₁ ≡ ok (e, c₂)
      → parse_entries total f c₂ ≡ ok (d, c₃)
      → parse_entries total (suc f) c ≡ ok (add_entry k e d, c₃)
  unfolding parse_element
  entries_step f c c₁ c₂ c₃ key e k d m p s q t = rw (m, p, s, q, t)

  end_of_list :
      (f o : ℕ) (r : List ℕ)
      → parse_elements total (suc f) (cursor o (b'e' ∷ r)) ≡ ok (no_elements, cursor o (b'e' ∷ r))
  unfolding parse_element more
  end_of_list f o r = refl

  end_of_dictionary :
      (f o : ℕ) (r : List ℕ)
      → parse_entries total (suc f) (cursor o (b'e' ∷ r)) ≡ ok (no_entries, cursor o (b'e' ∷ r))
  unfolding parse_element more
  end_of_dictionary f o r = refl

  -- An element with its position and its bytes replaced by equal ones.
  placed :
      (f : ℕ) (id : ElementId) (st : StorageRef) (p : ElementPosition) (o : ℕ) (s s' r : List ℕ)
      → p ≡ span o s
      → s ≡ s'
      → Parses (element st (span o s')) o s' (parse_element total f id) r
      → Parses (element st p) o s (parse_element total f id) r
  placed f id st p o s s' r h e g =
      subst (λ (q : ElementPosition). Parses (element st q) o s (parse_element total f id) r)
        (sym h)
        (subst (λ (x : List ℕ). Parses (element st (span o x)) o x (parse_element total f id) r)
          (sym e) g)

  string_key :
      (f : ℕ) (id : ElementId) (v : View) (o : ℕ) (s r : List ℕ)
      → EncodesString v s
      → o + length s ≤ total
      → 0 < f
      → Parses (element (string v) (span o s)) o s (parse_element total f id) r
  string_key zero id v o s r enc h pos = absurd (omega arith)
  string_key (suc f) id v o s r enc h pos = element_step f id _ o s r (
      dispatch-string_complete total id (parse_elements total f) (parse_entries total f) v o s r enc
        h)

  integer_element :
      (f : ℕ) (id : ElementId) (v : View) (p : ElementPosition) (o : ℕ) (s r : List ℕ)
      → Encodes (element (integer v) p) o s
      → Parses (element (integer v) p) o s (parse_element total (suc f) id) r
  integer_element f id v p o s r (h, (good, fits, e)) =
      placed (suc f) id (integer v) p o s (b'i' ∷ (v.bytes ++ b'e' ∷ [])) r h e (
        subst
          (λ (w : View).
            Parses (element (integer w) (span o (b'i' ∷ (v.bytes ++ b'e' ∷ [])))) o
              (b'i' ∷ (v.bytes ++ b'e' ∷ [])) (parse_element total (suc f) id) r)
          (sym (whole_view v fits))
          (element_step f id _ o (b'i' ∷ (v.bytes ++ b'e' ∷ [])) r (
            dispatch-integer_complete total id (parse_elements total f) (parse_entries total f) o
              v.bytes r good)))

  mutual
    element_complete :
        (e : ElementRef) (f : ℕ) (id : ElementId) (o : ℕ) (s r : List ℕ)
        → Encodes e o s
        → o + length s ≤ total
        → 2 * length s ≤ f
        → 0 < f
        → Parses e o s (parse_element total f id) r
    element_complete e zero id o s r enc h fuel pos = absurd (omega arith)
    element_complete (element (integer v) p) (suc f) id o s r enc h fuel pos =
        integer_element f id v p o s r enc
    element_complete (element (string v) p) (suc f) id o s r (e, enc) h fuel pos =
        placed (suc f) id (string v) p o s s r e refl (string_key (suc f) id v o s r enc h pos)
    element_complete (element (list es) p) (suc f) id o s r (e, (body, encs, line)) h fuel pos =
        placed (suc f) id (list es) p o s (b'l' ∷ (body ++ b'e' ∷ [])) r e line (
          element_step f id _ o (b'l' ∷ (body ++ b'e' ∷ [])) r (
            dispatch-list_complete total id (parse_elements total f) (parse_entries total f) o es
              body r
              (elements_complete es f (o + 1) body r encs
                (omega (arith, ap length line, length-append body (b'e' ∷ [])))
                (omega (arith, ap length line, length-append body (b'e' ∷ []))))))
    element_complete (element (dictionary d) p) (suc f) id o s r (e, (body, encs, line)) h fuel
          pos =
        placed (suc f) id (dictionary d) p o s (b'd' ∷ (body ++ b'e' ∷ [])) r e line (
          element_step f id _ o (b'd' ∷ (body ++ b'e' ∷ [])) r (
            dispatch-dictionary_complete total id (parse_elements total f) (parse_entries total f) o
              d body r
              (entries_complete d f (o + 1) body r encs
                (omega (arith, ap length line, length-append body (b'e' ∷ [])))
                (omega (arith, ap length line, length-append body (b'e' ∷ []))))))

    elements_complete :
        (es : ListRef) (f : ℕ) (o : ℕ) (s r : List ℕ)
        → EncodesAll es o s
        → o + length s ≤ total
        → 2 * length s < f
        → parse_elements total f (cursor o (s ++ b'e' ∷ r))
          ≡ ok (es, cursor (o + length s) (b'e' ∷ r))
    elements_complete es zero o s r enc h fuel = absurd (omega arith)
    elements_complete no_elements (suc f) o s r enc h fuel =
        subst
          (λ (x : List ℕ).
            parse_elements total (suc f) (cursor o (x ++ b'e' ∷ r))
            ≡ ok (no_elements, cursor (o + length x) (b'e' ∷ r)))
          (sym enc)
          (end_of_list f o r ∙ ap (λ (n : ℕ). ok (no_elements, cursor n (b'e' ∷ r))) (omega arith))
    elements_complete (add_element e es) (suc f) o s r (s₁, s₂, enc₁, enc₂, line) h fuel =
        let tail : List ℕ = s₂ ++ b'e' ∷ r in
        let size : length s ≡ length s₁ + length s₂ =
          omega (arith, ap length line, length-append s₁ s₂) in
        let pos : 0 < length s₁ = Encodes-pos e o s₁ enc₁ in
        let join : s ++ b'e' ∷ r ≡ s₁ ++ tail =
          ap (λ (x : List ℕ). x ++ b'e' ∷ r) line ∙ append_assoc s₁ s₂ (b'e' ∷ r) in
        rw join (
          elements_step f (cursor o (s₁ ++ tail)) (cursor (o + length s₁) tail)
            (cursor (o + length s₁ + length s₂) (b'e' ∷ r)) e es (more-Encodes e o s₁ tail enc₁)
            (element_complete e f list_id o s₁ tail enc₁ (omega arith) (omega arith) (omega arith))
            (elements_complete es f (o + length s₁) s₂ r enc₂ (omega arith) (omega arith))
          ∙ ap (λ (n : ℕ). ok (add_element e es, cursor n (b'e' ∷ r))) (omega arith))

    entries_complete :
        (d : DictionaryRef) (f : ℕ) (o : ℕ) (s r : List ℕ)
        → EncodesEntries d o s
        → o + length s ≤ total
        → 2 * length s < f
        → parse_entries total f (cursor o (s ++ b'e' ∷ r))
          ≡ ok (d, cursor (o + length s) (b'e' ∷ r))
    entries_complete d zero o s r enc h fuel = absurd (omega arith)
    entries_complete no_entries (suc f) o s r enc h fuel =
        subst
          (λ (x : List ℕ).
            parse_entries total (suc f) (cursor o (x ++ b'e' ∷ r))
            ≡ ok (no_entries, cursor (o + length x) (b'e' ∷ r)))
          (sym enc)
          (end_of_dictionary f o r
            ∙ ap (λ (n : ℕ). ok (no_entries, cursor n (b'e' ∷ r))) (omega arith))
    entries_complete (add_entry k e d) (suc f) o s r (s₁, s₂, s₃, enc₁, enc₂, enc₃, line) h fuel =
        let tail : List ℕ = s₃ ++ b'e' ∷ r in
        let size : length s ≡ length s₁ + length s₂ + length s₃ =
          omega (arith, ap length line, length-append s₁ (s₂ ++ s₃), length-append s₂ s₃) in
        let pos : 0 < length s₁ = EncodesString-pos k s₁ enc₁ in
        let pos' : 0 < length s₂ = Encodes-pos e (o + length s₁) s₂ enc₂ in
        let join : s ++ b'e' ∷ r ≡ s₁ ++ (s₂ ++ tail) =
          ap (λ (x : List ℕ). x ++ b'e' ∷ r) line
          ∙ append_assoc s₁ (s₂ ++ s₃) (b'e' ∷ r)
          ∙ ap (◌++◌ s₁) (append_assoc s₂ s₃ (b'e' ∷ r)) in
        rw join (
          entries_step f (cursor o (s₁ ++ (s₂ ++ tail))) (cursor (o + length s₁) (s₂ ++ tail))
            (cursor (o + length s₁ + length s₂) tail)
            (cursor (o + length s₁ + length s₂ + length s₃) (b'e' ∷ r))
            (element (string k) (span o s₁)) e k d (more-string k o s₁ (s₂ ++ tail) enc₁)
            (string_key f dictionary_id k o s₁ (s₂ ++ tail) enc₁ (omega arith) (omega arith))
            (is_string k (span o s₁))
            (element_complete e f dictionary_id (o + length s₁) s₂ tail enc₂ (omega arith)
              (omega arith) (omega arith))
            (entries_complete d f (o + length s₁ + length s₂) s₃ r enc₃ (omega arith) (omega arith))
          ∙ ap (λ (n : ℕ). ok (add_entry k e d, cursor n (b'e' ∷ r))) (omega arith))

-- parse_element reads any encoded element that lies in the buffer, and stops behind it.
pub parse_element_complete :
    (total f : ℕ) (id : ElementId) (e : ElementRef) (o : ℕ) (s r : List ℕ)
    → Encodes e o s
    → o + length s ≤ total
    → 2 * length s ≤ f
    → 0 < f
    → Parses e o s (parse_element total f id) r
parse_element_complete total f id e o s r enc h fuel pos =
    element_complete total e f id o s r enc h fuel pos

pub parse_elements_complete :
    (total f : ℕ) (es : ListRef) (o : ℕ) (s r : List ℕ)
    → EncodesAll es o s
    → o + length s ≤ total
    → 2 * length s < f
    → parse_elements total f (cursor o (s ++ b'e' ∷ r)) ≡ ok (es, cursor (o + length s) (b'e' ∷ r))
parse_elements_complete total f es o s r enc h fuel = elements_complete total es f o s r enc h fuel

pub parse_entries_complete :
    (total f : ℕ) (d : DictionaryRef) (o : ℕ) (s r : List ℕ)
    → EncodesEntries d o s
    → o + length s ≤ total
    → 2 * length s < f
    → parse_entries total f (cursor o (s ++ b'e' ∷ r)) ≡ ok (d, cursor (o + length s) (b'e' ∷ r))
parse_entries_complete total f d o s r enc h fuel = entries_complete total d f o s r enc h fuel
