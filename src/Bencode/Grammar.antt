-- ===== src/Bencode/Grammar.antt =====
-- The grammar of bencoded data that the parser is held to, stated of an element, the offset at which
-- it stands, and the bytes that encode it. Positions are part of it.
use bittorrent_client.Base.{ℕ, ◌+◌, ◌≡◌, ◌≢◌, ◌⊎◌, List, [], ◌∷◌, ◌++◌, length}
use bittorrent_client.Bencode.Elements.{
  ElementPosition, View, IsWhole, ElementRef, StorageRef, ListRef, DictionaryRef, element, integer,
  string, list, dictionary, no_elements, add_element, no_entries, add_entry,
}
use bittorrent_client.Bencode.Length.{AllDigits, IsLength}

-- The digits of a number without leading zeros: "0", or a digit that is not '0' and more digits.
abbrev pub IsPlain : List ℕ → Type 0
IsPlain [] = ⊥
IsPlain (d ∷ ds) = AllDigits (d ∷ ds) × ((d ≢ b'0') ⊎ (ds ≡ []))

-- An optional '-' before them; no "-0".
pub data IsInteger : List ℕ → Type 0 where
  plain : {s : List ℕ} → IsPlain s → IsInteger s
  negative : {d : ℕ} {ds : List ℕ} → AllDigits (d ∷ ds) → d ≢ b'0' → IsInteger (b'-' ∷ d ∷ ds)

-- A length prefix, a colon and as many bytes as it says.
abbrev pub EncodesString : View → List ℕ → Type 0
EncodesString v s =
    (prefix : List ℕ) × IsLength prefix v.size × IsWhole v × (s ≡ prefix ++ b':' ∷ v.bytes)

abbrev pub span : ℕ → List ℕ → ElementPosition
span o s = record { start = o; end = o + length s }

abbrev mutual
  pub Encodes : ElementRef → ℕ → List ℕ → Type 0
  Encodes (element storage p) o s = (p ≡ span o s) × EncodesStorage storage o s

  pub EncodesStorage : StorageRef → ℕ → List ℕ → Type 0
  EncodesStorage (integer v) o s =
      IsInteger v.bytes × IsWhole v × (s ≡ b'i' ∷ (v.bytes ++ b'e' ∷ []))
  EncodesStorage (string v) o s = EncodesString v s
  EncodesStorage (list es) o s =
      (body : List ℕ) × EncodesAll es (o + 1) body × (s ≡ b'l' ∷ (body ++ b'e' ∷ []))
  EncodesStorage (dictionary d) o s =
      (body : List ℕ) × EncodesEntries d (o + 1) body × (s ≡ b'd' ∷ (body ++ b'e' ∷ []))

  pub EncodesAll : ListRef → ℕ → List ℕ → Type 0
  EncodesAll no_elements o s = s ≡ []
  EncodesAll (add_element e es) o s =
      (first : List ℕ) × (others : List ℕ) × Encodes e o first
      × EncodesAll es (o + length first) others
      × (s ≡ first ++ others)

  pub EncodesEntries : DictionaryRef → ℕ → List ℕ → Type 0
  EncodesEntries no_entries o s = s ≡ []
  EncodesEntries (add_entry k e d) o s =
      (key : List ℕ) × (value : List ℕ) × (others : List ℕ) × EncodesString k key
      × Encodes e (o + length key) value
      × EncodesEntries d (o + length key + length value) others
      × (s ≡ key ++ (value ++ others))
