-- ===== src/Bencode/Sound/Elements.antt =====
-- parse_element and the loops of the containers: one induction on the fuel.
use bittorrent_client.Base.{
  ℕ, zero, suc, ◌*◌, ◌≤◌, ◌<◌, ◌≡◌, inl, inr, refl, ap, true, List, [], Option, none, some, Ensures,
  holds, rejected, Ensures-if, arith, length, length-append, subst,
}
use bittorrent_client.Bencode.Elements.{
  ElementId, View, ElementRef, ListRef, DictionaryRef, no_elements, add_element, no_entries,
  add_entry, as_string, list_id, dictionary_id,
}
use bittorrent_client.Bencode.Cursor.{Cursor, Reported}
use bittorrent_client.Bencode.Grammar.{Encodes, EncodesAll, EncodesEntries}
use bittorrent_client.Bencode.Parser.{
  key_or_fail, more, parse_element, parse_elements, parse_entries,
}
use bittorrent_client.Bencode.Sound.Scalars.{Reads, Ensures-then}
use bittorrent_client.Bencode.Sound.Strings.{ReadsElement}
use bittorrent_client.Bencode.Sound.Containers.{
  ReadsAll, ReadsEntries, dispatch-Ensures, Encodes-pos, Reads-stays_empty, without_view,
  add_element-Reads, add_entry-Reads,
}

more→pos : (c : Cursor) → more c ≡ true → 0 < length c.rest
unfolding more
more→pos c h = ground arith

key_or_fail-Ensures :
    (o : Option View) (c : Cursor)
    → Ensures Reported (λ r. (o ≡ some r.0) × (r.1 ≡ c)) (key_or_fail o c)
key_or_fail-Ensures none c = rejected tt
key_or_fail-Ensures (some k) c = holds (refl, refl)

-- After an element there is less data, if there was any.
pub shorter :
    (c : Cursor) (e : ElementRef) (c' : Cursor)
    → 0 < length c.rest
    → ReadsElement c (e, c')
    → length c'.rest < length c.rest
shorter c e c' pos (inl (s, line, place, enc)) =
    omega (arith, ap length line, length-append s c'.rest, Encodes-pos e c.offset s enc)
shorter c e c' pos (inr (_, _, _, over)) = omega (arith, ap length over)

pub not_longer :
    (c : Cursor) (e : ElementRef) (c' : Cursor)
    → ReadsElement c (e, c')
    → length c'.rest ≤ length c.rest
not_longer c e c' (inl (s, line, place, enc)) =
    omega (arith, ap length line, length-append s c'.rest)
not_longer c e c' (inr (_, _, _, over)) = omega (arith, ap length over)

next_element :
    (c c₁ c₂ : Cursor) (e : ElementRef) (es : ListRef)
    → ReadsElement c (e, c₁)
    → ReadsAll c₁ (es, c₂)
    → ReadsAll c (add_element e es, c₂)
next_element c c₁ c₂ e es (inl first) others = add_element-Reads c c₁ c₂ e es first others
next_element c c₁ c₂ e es (inr (_, _, _, over)) others =
    inr (Reads-stays_empty EncodesAll c₁ (es, c₂) over others)

next_entry :
    (c c₁ c₂ c₃ : Cursor) (key : ElementRef) (k : View) (e : ElementRef) (d : DictionaryRef)
    → as_string key ≡ some k
    → ReadsElement c (key, c₁)
    → ReadsElement c₁ (e, c₂)
    → ReadsEntries c₂ (d, c₃)
    → ReadsEntries c (add_entry k e d, c₃)
next_entry c c₁ c₂ c₃ key k e d h (inl first) (inl second) others =
    add_entry-Reads c c₁ c₂ c₃ key k e d h first second others
next_entry c c₁ c₂ c₃ key k e d h first (inr (_, _, _, over)) others =
    inr (Reads-stays_empty EncodesEntries c₂ (d, c₃) over others)
next_entry c c₁ c₂ c₃ key k e d h (inr (_, _, _, over)) second others = inr (
    Reads-stays_empty EncodesEntries c₂ (d, c₃)
      (Reads-stays_empty Encodes c₁ (e, c₂) over (without_view c₁ (e, c₂) second)) others)

no_data_left :
    {A : Type 0} (Enc : A → ℕ → List ℕ → Type 0) (none_read : A) (c : Cursor)
    → Enc none_read c.offset []
    → Reads Enc c (none_read, c)
no_data_left Enc none_read c h = ([], refl, omega arith, h)

module _ (total : ℕ) where
  mutual
    unfolding parse_element

    element-Ensures :
        (f : ℕ) (id : ElementId) (c : Cursor)
        → 2 * length c.rest ≤ f
        → 0 < f
        → Ensures Reported (ReadsElement c) (parse_element total f id c)
    element-Ensures zero id c h pos = absurd (omega arith)
    element-Ensures (suc f) id c h pos =
        dispatch-Ensures total id (parse_elements total f) (parse_entries total f) c.rest c
          (λ begin less. elements-Ensures f begin (omega arith))
          (λ begin less. entries-Ensures f begin (omega arith))

    elements-Ensures :
        (f : ℕ) (c : Cursor)
        → 2 * length c.rest < f
        → Ensures Reported (ReadsAll c) (parse_elements total f c)
    elements-Ensures zero c h = absurd (omega arith)
    elements-Ensures (suc f) c h =
        Ensures-if (more c)
          (λ m.
            let pos : 0 < length c.rest = more→pos c m in
            Ensures-then (element-Ensures f list_id c (omega arith) (omega arith)) λ e c₁ first.
              Ensures-then (elements-Ensures f c₁ (omega (arith, shorter c e c₁ pos first)))
                λ es c₂ others. holds (next_element c c₁ c₂ e es first others))
          (λ _. holds (inl (no_data_left EncodesAll no_elements c refl)))

    entries-Ensures :
        (f : ℕ) (c : Cursor)
        → 2 * length c.rest < f
        → Ensures Reported (ReadsEntries c) (parse_entries total f c)
    entries-Ensures zero c h = absurd (omega arith)
    entries-Ensures (suc f) c h =
        Ensures-if (more c)
          (λ m.
            let pos : 0 < length c.rest = more→pos c m in
            Ensures-then (element-Ensures f dictionary_id c (omega arith) (omega arith))
              λ key c₁ first.
                Ensures-then (key_or_fail-Ensures (as_string key) c₁) λ k c₁' (is_key, same).
                  let less : length c₁.rest < length c.rest = shorter c key c₁ pos first in
                  let there : length c₁'.rest ≡ length c₁.rest =
                    ap (λ (x : Cursor). length x.rest) same in
                  Ensures-then (element-Ensures f dictionary_id c₁' (omega arith) (omega arith))
                    λ e c₂ second.
                      Ensures-then
                        (entries-Ensures f c₂ (omega (arith, not_longer c₁' e c₂ second)))
                        λ d c₃ others. holds (
                          next_entry c c₁ c₂ c₃ key k e d is_key first
                            (subst (λ (x : Cursor). ReadsElement x (e, c₂)) same second) others))
          (λ _. holds (inl (no_data_left EncodesEntries no_entries c refl)))

-- With twice the data's length as fuel, parse_element reads an element of the grammar from the
-- front of the data, or a string that runs past the end of the buffer, or reports an error.
pub parse_element-Ensures :
    (total f : ℕ) (id : ElementId) (c : Cursor)
    → 2 * length c.rest ≤ f
    → 0 < f
    → Ensures Reported (ReadsElement c) (parse_element total f id c)
parse_element-Ensures total f id c h pos = element-Ensures total f id c h pos

pub parse_elements-Ensures :
    (total f : ℕ) (c : Cursor)
    → 2 * length c.rest < f
    → Ensures Reported (ReadsAll c) (parse_elements total f c)
parse_elements-Ensures total f c h = elements-Ensures total f c h

pub parse_entries-Ensures :
    (total f : ℕ) (c : Cursor)
    → 2 * length c.rest < f
    → Ensures Reported (ReadsEntries c) (parse_entries total f c)
parse_entries-Ensures total f c h = entries-Ensures total f c h
