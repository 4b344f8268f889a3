-- ===== src/Torrent/Encoded.antt =====
-- Elements that encode some bytes: what be_parse_utils.h makes of them, and where the value of a key
-- stands.
use bittorrent_client.Base.{
  ℕ, ◌+◌, ◌<◌, ◌≡◌, sym, ap, ◌∙◌, subst, some, List, ◌++◌, append_assoc, Ensures, holds, rejected,
  bytes_eq, length, length-append, arith, Option-cases, Bool-cases, inl, inr,
}
use bittorrent_client.Bencode.Elements.{
  View, IsWhole, ElementRef, ListRef, DictionaryRef, element, integer, string, list, dictionary,
  no_elements, add_element, no_entries, add_entry, as_string, as_integer, as_list, as_dictionary,
}
use bittorrent_client.Bencode.Length.{u64_mod, parse_length, parse_length_sound}
use bittorrent_client.Bencode.Grammar.{Encodes, EncodesAll, EncodesEntries}
use bittorrent_client.Torrent.Values.{
  IsCode, element_as_string, element_as_integer, element_as_list, element_as_dictionary,
  parse_as_uint64,
}
use bittorrent_client.Torrent.Invoke.{AllValues, first_value}

-- The element encodes some bytes at some offset.
abbrev pub IsEncoded : ElementRef → Type 0
IsEncoded e = (o : ℕ) × (s : List ℕ) × Encodes e o s

abbrev pub AllElements : ListRef → Type 0
AllElements no_elements = Unit {0}
AllElements (add_element e es) = IsEncoded e × AllElements es

elements_encoded : (es : ListRef) (o : ℕ) (s : List ℕ) → EncodesAll es o s → AllElements es
elements_encoded no_elements o s h = tt
elements_encoded (add_element e es) o s (first, others, enc, encs, line) =
    ((o, first, enc), elements_encoded es (o + length first) others encs)

pub entries-IsEncoded :
    (d : DictionaryRef) (o : ℕ) (s : List ℕ) → EncodesEntries d o s → AllValues IsEncoded d
entries-IsEncoded no_entries o s h = tt
entries-IsEncoded (add_entry k e d) o s (key, value, others, name, enc, encs, line) =
    ((o + length key, value, enc), entries-IsEncoded d (o + length key + length value) others encs)

pub element_as_string-Ensures :
    (e : ElementRef) → IsEncoded e → Ensures IsCode IsWhole (element_as_string e)
unfolding element_as_string as_string
element_as_string-Ensures (element (string v) p) (o, s, (same, (prefix, len, fits, line))) =
    holds fits
element_as_string-Ensures (element (integer v) p) h = rejected tt
element_as_string-Ensures (element (list es) p) h = rejected tt
element_as_string-Ensures (element (dictionary d) p) h = rejected tt

pub element_as_integer-Ensures :
    (e : ElementRef) → Ensures IsCode (λ _. Unit {0}) (element_as_integer e)
unfolding element_as_integer as_integer
element_as_integer-Ensures (element (integer v) p) = holds tt
element_as_integer-Ensures (element _ p) = rejected tt

pub element_as_list-Ensures :
    (e : ElementRef) → IsEncoded e → Ensures IsCode AllElements (element_as_list e)
unfolding element_as_list as_list
element_as_list-Ensures (element (list es) p) (o, s, (same, (body, encs, line))) =
    holds (elements_encoded es (o + 1) body encs)
element_as_list-Ensures (element (integer v) p) h = rejected tt
element_as_list-Ensures (element (string v) p) h = rejected tt
element_as_list-Ensures (element (dictionary d) p) h = rejected tt

pub element_as_dictionary-Ensures :
    (e : ElementRef) → IsEncoded e → Ensures IsCode (AllValues IsEncoded) (element_as_dictionary e)
unfolding element_as_dictionary as_dictionary
element_as_dictionary-Ensures (element (dictionary d) p) (o, s, (same, (body, encs, line))) =
    holds (entries-IsEncoded d (o + 1) body encs)
element_as_dictionary-Ensures (element (integer v) p) h = rejected tt
element_as_dictionary-Ensures (element (string v) p) h = rejected tt
element_as_dictionary-Ensures (element (list es) p) h = rejected tt

pub parse_as_uint64-Ensures : (n : View) → Ensures IsCode (λ k. k < u64_mod) (parse_as_uint64 n)
unfolding parse_as_uint64
parse_as_uint64-Ensures n = elim (Option-cases (parse_length n.bytes)) [
  | inl h ↦ rw h (rejected tt)
  | inr (k, h) ↦ rw h (holds ((parse_length_sound n.bytes k h).fits))
]

-- In the encoding of a dictionary's entries, the first value of a key encodes the bytes at its place.
pub entries-first_value :
    (key : List ℕ) (d : DictionaryRef) (o : ℕ) (s : List ℕ) (e : ElementRef)
    → EncodesEntries d o s
    → first_value key d ≡ some e
    → (before : List ℕ) × (value : List ℕ) × (behind : List ℕ) × (s ≡ before ++ (value ++ behind))
      × Encodes e (o + length before) value
unfolding first_value
entries-first_value key no_entries o s e encs h = cc
entries-first_value key (add_entry k e' d) o s e (name, value, others, kenc, enc, encs, line) h =
    elim (Bool-cases (bytes_eq k.bytes key)) [
      | inl same ↦
          let eq : e' ≡ e = ground arith in
          (
            name,
            value,
            others,
            line,
            subst (λ (x : ElementRef). Encodes x (o + length name) value) eq enc,
          )
      | inr other ↦
          let (before, v, behind, line', enc') =
            entries-first_value key d (o + length name + length value) others e encs
              (ground arith) in
          (
            name ++ (value ++ before),
            v,
            behind,
            line
                ∙ ap (λ (t : List ℕ). name ++ (value ++ t)) line'
                ∙ ap (λ (t : List ℕ). name ++ t) (sym (append_assoc value before (v ++ behind)))
                ∙ sym (append_assoc name (value ++ before) (v ++ behind)),
            subst (λ (n : ℕ). Encodes e n v)
                (omega (arith, length-append name (value ++ before), length-append value before))
                enc',
          )
    ]
