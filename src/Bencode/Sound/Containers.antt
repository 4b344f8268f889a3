-- ===== src/Bencode/Sound/Containers.antt =====
-- parse_list, parse_dictionary and their loops against the grammar.
use bittorrent_client.Base.{
  ℕ, ◌+◌, ◌<◌, ◌≡◌, ◌⊎◌, inl, inr, refl, sym, ap, ◌∙◌, Bool, true, false, List, [], ◌∷◌, ◌++◌,
  append_assoc, some, Ensures, holds, rejected, Ensures-mono, arith, ◌==◌, if◌then◌else◌, length,
  length-append, subst,
}
use bittorrent_client.Bencode.Elements.{
  ElementId, View, ElementRef, ListRef, DictionaryRef, element, integer, string, list, dictionary,
  add_element, add_entry, as_string,
}
use bittorrent_client.Bencode.Cursor.{Cursor, Reported, Parser, range}
use bittorrent_client.Bencode.Grammar.{EncodesString, Encodes, EncodesAll, EncodesEntries, span}
use bittorrent_client.Bencode.Parser.{parse_list_by, parse_dictionary_by, dispatch}
use bittorrent_client.Bencode.Sound.Strings.{parse_string-element, ReadsElement}
use bittorrent_client.Bencode.Sound.Scalars.{
  Reads, Ensures-then, consume-Ensures, parse_integer-Ensures, ReadsAs,
}

-- What a loop gives: the elements that the grammar reads, or no data left to close the container.
abbrev pub ReadsAll : Cursor → ListRef × Cursor → Type 0
ReadsAll c r = Reads EncodesAll c r ⊎ (r.1.rest ≡ [])

abbrev pub ReadsEntries : Cursor → DictionaryRef × Cursor → Type 0
ReadsEntries c r = Reads EncodesEntries c r ⊎ (r.1.rest ≡ [])

-- A container's bytes are its opening byte, its body and an 'e'.
enclosed :
    (ch : ℕ) (body : List ℕ) (c begin last stop : Cursor)
    → c.rest ≡ ch ∷ begin.rest
    → begin.offset ≡ c.offset + 1
    → begin.rest ≡ body ++ last.rest
    → last.offset ≡ begin.offset + length body
    → last.rest ≡ b'e' ∷ stop.rest
    → stop.offset ≡ last.offset + 1
    → (c.rest ≡ (ch ∷ (body ++ b'e' ∷ [])) ++ stop.rest)
      × (stop.offset ≡ c.offset + length (ch ∷ (body ++ b'e' ∷ [])))
enclosed ch body c begin last stop p q e f p' q' = (
  p ∙ ap (◌∷◌ ch) (e ∙ ap (◌++◌ body) p' ∙ sym (append_assoc body (b'e' ∷ []) stop.rest)),
  omega (arith, length-append body (b'e' ∷ [])),
)

range-eq-span :
    (c stop : Cursor) (s : List ℕ)
    → stop.offset ≡ c.offset + length s
    → range c stop ≡ span c.offset s
range-eq-span c stop s e = ap (λ (n : ℕ). record { start = c.offset; end = n }) e

nil≢cons : (x : ℕ) (xs ys : List ℕ) → ys ≡ [] → ys ≡ x ∷ xs → ⊥
nil≢cons x xs ys p q = cc

list_closed :
    (c begin last stop : Cursor) (es : ListRef)
    → c.rest ≡ b'l' ∷ begin.rest
    → begin.offset ≡ c.offset + 1
    → ReadsAll begin (es, last)
    → last.rest ≡ b'e' ∷ stop.rest
    → stop.offset ≡ last.offset + 1
    → Reads Encodes c (element (list es) (range c stop), stop)
list_closed c begin last stop es p q (inl (body, e, f, enc)) p' q' =
    let (all, size) = enclosed b'l' body c begin last stop p q e f p' q' in
    (
      b'l' ∷ (body ++ b'e' ∷ []),
      all,
      size,
      (
        range-eq-span c stop (b'l' ∷ (body ++ b'e' ∷ [])) size,
        (body, subst (λ (o : ℕ). EncodesAll es o body) q enc, refl),
      ),
    )
list_closed c begin last stop es p q (inr over) p' q' = absurd (nil≢cons _ _ _ over p')

pub parse_list_by-Ensures :
    (loop : Parser ListRef) (c : Cursor)
    → ((begin : Cursor)
        → length begin.rest < length c.rest
        → Ensures Reported (ReadsAll begin) (loop begin))
    → Ensures Reported (ReadsAs list c) (parse_list_by loop c)
unfolding parse_list_by
parse_list_by-Ensures loop c k = Ensures-then (consume-Ensures b'l' _ _ c) λ _ begin (p, q).
    Ensures-then (k begin (omega (arith, ap length p))) λ es last body.
      Ensures-then (consume-Ensures b'e' _ _ last)
        λ _ stop (p', q'). holds (es, refl, list_closed c begin last stop es p q body p' q')

dictionary_closed :
    (c begin last stop : Cursor) (d : DictionaryRef)
    → c.rest ≡ b'd' ∷ begin.rest
    → begin.offset ≡ c.offset + 1
    → ReadsEntries begin (d, last)
    → last.rest ≡ b'e' ∷ stop.rest
    → stop.offset ≡ last.offset + 1
    → Reads Encodes c (element (dictionary d) (range c stop), stop)
dictionary_closed c begin last stop d p q (inl (body, e, f, enc)) p' q' =
    let (all, size) = enclosed b'd' body c begin last stop p q e f p' q' in
    (
      b'd' ∷ (body ++ b'e' ∷ []),
      all,
      size,
      (
        range-eq-span c stop (b'd' ∷ (body ++ b'e' ∷ [])) size,
        (body, subst (λ (o : ℕ). EncodesEntries d o body) q enc, refl),
      ),
    )
dictionary_closed c begin last stop d p q (inr over) p' q' = absurd (nil≢cons _ _ _ over p')

pub parse_dictionary_by-Ensures :
    (loop : Parser DictionaryRef) (c : Cursor)
    → ((begin : Cursor)
        → length begin.rest < length c.rest
        → Ensures Reported (ReadsEntries begin) (loop begin))
    → Ensures Reported (ReadsAs dictionary c) (parse_dictionary_by loop c)
unfolding parse_dictionary_by
parse_dictionary_by-Ensures loop c k = Ensures-then (consume-Ensures b'd' _ _ c) λ _ begin (p, q).
    Ensures-then (k begin (omega (arith, ap length p))) λ d last body.
      Ensures-then (consume-Ensures b'e' _ _ last)
        λ _ stop (p', q'). holds (d, refl, dictionary_closed c begin last stop d p q body p' q')

Ensures-if_at :
    (b : Bool) (p q : Parser ElementRef) {P : ElementRef × Cursor → Type 0} (c : Cursor)
    → Ensures Reported P (p c)
    → Ensures Reported P (q c)
    → Ensures Reported P ((if b then p else q) c)
Ensures-if_at true p q c hp hq = hp
Ensures-if_at false p q c hp hq = hq

-- The switch of parse_element, given what its loops do on less data.
pub dispatch-Ensures :
    (total : ℕ) (id : ElementId) (elements : Parser ListRef) (entries : Parser DictionaryRef)
    (r : List ℕ) (c : Cursor)
    → ((begin : Cursor)
        → length begin.rest < length c.rest
        → Ensures Reported (ReadsAll begin) (elements begin))
    → ((begin : Cursor)
        → length begin.rest < length c.rest
        → Ensures Reported (ReadsEntries begin) (entries begin))
    → Ensures Reported (ReadsElement c) (dispatch total id elements entries r c)
unfolding dispatch
dispatch-Ensures total id elements entries [] c kl kd = rejected tt
dispatch-Ensures total id elements entries (ch ∷ r) c kl kd =
    Ensures-if_at (ch == b'i') _ _ c (Ensures-mono (parse_integer-Ensures c) λ _ h. inl h.2) (
      Ensures-if_at (ch == b'l') _ _ c
        (Ensures-mono (parse_list_by-Ensures elements c kl) λ _ h. inl h.2)
        (Ensures-if_at (ch == b'd') _ _ c
          (Ensures-mono (parse_dictionary_by-Ensures entries c kd) λ _ h. inl h.2)
          (parse_string-element total c)))

-- An element's encoding is not empty.
pub EncodesString-pos : (v : View) (s : List ℕ) → EncodesString v s → 0 < length s
EncodesString-pos v s (prefix, _, _, e) =
    omega (arith, ap length e, length-append prefix (b':' ∷ v.bytes))

pub Encodes-pos : (e : ElementRef) (o : ℕ) (s : List ℕ) → Encodes e o s → 0 < length s
Encodes-pos (element (integer v) p) o s (_, (_, _, e)) = omega (arith, ap length e)
Encodes-pos (element (string v) p) o s (_, enc) = EncodesString-pos v s enc
Encodes-pos (element (list es) p) o s (_, (_, _, e)) = omega (arith, ap length e)
Encodes-pos (element (dictionary d) p) o s (_, (_, _, e)) = omega (arith, ap length e)

append-eq-nil : (s r : List ℕ) → [] ≡ s ++ r → r ≡ []
append-eq-nil [] r e = sym e
append-eq-nil (x ∷ s) r e = cc

-- Where no data is left, none is left afterwards.
pub Reads-stays_empty {ℓ κ} :
    {A : Type ℓ} (Enc : A → ℕ → List ℕ → Type κ) (c : Cursor) (r : A × Cursor)
    → c.rest ≡ []
    → Reads Enc c r ⊎ (r.1.rest ≡ [])
    → r.1.rest ≡ []
Reads-stays_empty Enc c r e (inl (s, line, _, _)) = append-eq-nil s r.1.rest (sym e ∙ line)
Reads-stays_empty Enc c r e (inr h) = h

pub without_view :
    (c : Cursor) (r : ElementRef × Cursor) → ReadsElement c r → Reads Encodes c r ⊎ (r.1.rest ≡ [])
without_view c r (inl h) = inl h
without_view c r (inr (_, _, _, h)) = inr h

-- Two texts read one after the other.
Reads-join :
    (c c₁ c₂ : Cursor) (s t : List ℕ)
    → c.rest ≡ s ++ c₁.rest
    → c₁.offset ≡ c.offset + length s
    → c₁.rest ≡ t ++ c₂.rest
    → c₂.offset ≡ c₁.offset + length t
    → (c.rest ≡ (s ++ t) ++ c₂.rest) × (c₂.offset ≡ c.offset + length (s ++ t))
Reads-join c c₁ c₂ s t e f e' f' =
    (e ∙ ap (◌++◌ s) e' ∙ sym (append_assoc s t c₂.rest), omega (arith, length-append s t))

pub add_element-Reads :
    (c c₁ c₂ : Cursor) (e : ElementRef) (es : ListRef)
    → Reads Encodes c (e, c₁)
    → ReadsAll c₁ (es, c₂)
    → ReadsAll c (add_element e es, c₂)
add_element-Reads c c₁ c₂ e es first (inr over) = inr over
add_element-Reads c c₁ c₂ e es (s, line, place, enc) (inl (t, line', place', enc')) =
    let (all, size) = Reads-join c c₁ c₂ s t line place line' place' in
    inl (s ++ t, all, size, (s, t, enc, subst (λ (o : ℕ). EncodesAll es o t) place enc', refl))

as_string-Encodes :
    (key : ElementRef) (k : View) (o : ℕ) (s : List ℕ)
    → as_string key ≡ some k
    → Encodes key o s
    → EncodesString k s
unfolding as_string
as_string-Encodes (element (integer v) p) k o s h enc = cc
as_string-Encodes (element (string v) p) k o s h (_, enc) =
    subst (λ (w : View). EncodesString w s) (cc h) enc
as_string-Encodes (element (list es) p) k o s h enc = cc
as_string-Encodes (element (dictionary d) p) k o s h enc = cc

pub add_entry-Reads :
    (c c₁ c₂ c₃ : Cursor) (key : ElementRef) (k : View) (e : ElementRef) (d : DictionaryRef)
    → as_string key ≡ some k
    → Reads Encodes c (key, c₁)
    → Reads Encodes c₁ (e, c₂)
    → ReadsEntries c₂ (d, c₃)
    → ReadsEntries c (add_entry k e d, c₃)
add_entry-Reads c c₁ c₂ c₃ key k e d h first second (inr over) = inr over
add_entry-Reads c c₁ c₂ c₃ key k e d h (s, l₁, p₁, enc₁) (t, l₂, p₂, enc₂) (inl (u, l₃, p₃, enc₃)) =
    let (l₂₃, p₂₃) = Reads-join c₁ c₂ c₃ t u l₂ p₂ l₃ p₃ in
    let (all, size) = Reads-join c c₁ c₃ s (t ++ u) l₁ p₁ l₂₃ p₂₃ in
    let place : c₂.offset ≡ c.offset + length s + length t = omega arith in
    inl (
      s ++ (t ++ u),
      all,
      size,
      (
        s,
        t,
        u,
        as_string-Encodes key k c.offset s h enc₁,
        subst (λ (o : ℕ). Encodes e o t) p₁ enc₂,
        subst (λ (o : ℕ). EncodesEntries d o u) place enc₃,
        refl,
      ),
    )
