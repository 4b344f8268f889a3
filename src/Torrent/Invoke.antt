-- ===== src/Torrent/Invoke.antt =====
-- What the loop over the entries of a dictionary does: invariants of the shared state, and that each
-- parser of the table takes the first value of its key.
use bittorrent_client.Base.{
  ℕ, zero, suc, ◌≡◌, refl, sym, ap, ◌∙◌, subst, true, false, Option, none, some, List, [], ◌∷◌,
  Result, ok, err, Ensures, holds, rejected, Ensures-bind, Ensures-if, Ensures-mono, bytes_eq,
  bytes_eq→eq, bytes_eq_refl, if◌then◌else◌, arith, All, Bool-cases, inl, inr,
}
use bittorrent_client.Bencode.Elements.{View, ElementRef, DictionaryRef, no_entries, add_entry}
use bittorrent_client.Torrent.Values.{ContentError, IsCode}
use bittorrent_client.Torrent.Keys.{KeyParser, skips, mark, invoke_parser_optional_key, invoke_all}

-- A property of every value of a dictionary.
abbrev pub AllValues : (ElementRef → Type 0) → DictionaryRef → Type 0
AllValues V no_entries = Unit {0}
AllValues V (add_entry name e d) = V e × AllValues V d

-- An invariant of the state, a property of the values, and for each key what holds of the state once
-- the parser of that key has run.
module _ {S : Type 0} (I : S → Type 0) (Post : List ℕ → S → Type 0) (V : ElementRef → Type 0) where
  abbrev pub IsStep : List ℕ → S → S → Type 0
  IsStep key s s' = I s' × Post key s' × ((k : List ℕ) → Post k s → Post k s')

  abbrev pub Keeps : KeyParser S → Type 0
  Keeps p = (s : S) (e : ElementRef) → I s → V e → Ensures IsCode (IsStep p.key s) (p.parse s e)

  abbrev pub Ran : S → KeyParser S → Type 0
  Ran s p = p.parsed ≡ true → Post p.key s

  Ran-All :
      (ps : List (KeyParser S)) (s s' : S)
      → ((k : List ℕ) → Post k s → Post k s')
      → All (Ran s) ps
      → All (Ran s') ps
  Ran-All [] s s' h r = tt
  Ran-All (p ∷ ps) s s' h r = (λ e. h p.key (r.0 e), Ran-All ps s s' h r.1)

  abbrev pub IsGood : List (KeyParser S) × S → Type 0
  IsGood (ps, s) = All Keeps ps × All (Ran s) ps × I s

  invoke_key-Ensures :
      (ps : List (KeyParser S)) (s : S) (key : List ℕ) (e : ElementRef)
      → IsGood (ps, s)
      → V e
      → Ensures IsCode
          (λ r. IsGood r × ((k : List ℕ) → Post k s → Post k (r.1)))
          (invoke_parser_optional_key ps s key e)
  unfolding invoke_parser_optional_key
  invoke_key-Ensures [] s key e g v = holds (g, λ k h. h)
  invoke_key-Ensures (p ∷ ps) s key e (keeps, ran, i) v =
      Ensures-if (skips p key)
        (λ _.
          Ensures-bind (invoke_key-Ensures ps s key e (keeps.1, ran.1, i) v)
            λ (ps', s') ((keeps', ran', i'), mono).
              holds (((keeps.0, keeps'), ((λ h. mono p.key (ran.0 h)), ran'), i'), mono))
        (λ _. Ensures-bind (keeps.0 s e i v) λ s' (i', post, mono).
          holds (((keeps.0, keeps.1), ((λ _. post), Ran-All ps s s' mono ran.1), i'), mono))

  pub invoke_all-Ensures :
      (ps : List (KeyParser S)) (s : S) (d : DictionaryRef)
      → IsGood (ps, s)
      → AllValues V d
      → Ensures IsCode IsGood (invoke_all ps s d)
  unfolding invoke_all
  invoke_all-Ensures ps s no_entries g v = holds g
  invoke_all-Ensures ps s (add_entry name e d) g v =
      Ensures-bind (invoke_key-Ensures ps s name.bytes e g v.0)
        λ (ps', s') (g', _). invoke_all-Ensures ps' s' d g' v.1

-- Any outcome.
abbrev pub Ends : {A : Type 0} → (A → Type 0) → Result ContentError A → Type 0
Ends P r = Ensures (λ _. Unit {0}) P r

ends : {A : Type 0} → (r : Result ContentError A) → Ends (λ _. Unit {0}) r
ends (ok a) = holds tt
ends (err e) = rejected tt

-- The first value of a key.
unfoldable pub first_value : List ℕ → DictionaryRef → Option ElementRef
first_value key no_entries = none
first_value key (add_entry name e d) =
    let rest = first_value key d in if bytes_eq name.bytes key then some e else rest

module _ {S : Type 0} where
  -- The parser at place `n` is `p`, and it is the first of its key.
  abbrev pub At : List ℕ → ℕ → List (KeyParser S) → KeyParser S → Type 0
  At key n [] p = ⊥
  At key zero (p' ∷ ps) p = (p' ≡ p) × (p.key ≡ key)
  At key (suc n) (p' ∷ ps) p = (bytes_eq key p'.key ≡ false) × At key n ps p

  -- What becomes of a parser at an entry.
  abbrev seen : KeyParser S → List ℕ → ElementRef → KeyParser S
  seen p key e = if skips p key then p else mark p e

  At-key :
      (key : List ℕ) (n : ℕ) (ps : List (KeyParser S)) (p : KeyParser S)
      → At key n ps p
      → p.key ≡ key
  At-key key n [] p at = elim at [ ]
  At-key key zero (p' ∷ ps) p at = at.1
  At-key key (suc n) (p' ∷ ps) p at = At-key key n ps p at.1

  skips-other :
      (p p' : KeyParser S) (key k : List ℕ)
      → p.key ≡ key
      → bytes_eq key p'.key ≡ false
      → skips p' k ≡ false
      → skips p k ≡ true
  skips-other p p' key k same other taken =
      let eq : k ≡ p'.key = bytes_eq→eq k p'.key (ground arith) in
      elim (Bool-cases (bytes_eq k p.key)) [
        | inl h ↦
            let eq' : key ≡ p'.key = sym same ∙ sym (bytes_eq→eq k p.key h) ∙ eq in
            let both : bytes_eq key p'.key ≡ true = rw eq' (bytes_eq_refl p'.key) in cc
        | inr h ↦ ground arith
      ]

  seen-skips : (p : KeyParser S) (k : List ℕ) (e : ElementRef) → skips p k ≡ true → seen p k e ≡ p
  seen-skips p k e h = rw h refl

  seen-takes :
      (p : KeyParser S) (k : List ℕ) (e : ElementRef) → skips p k ≡ false → seen p k e ≡ mark p e
  seen-takes p k e h = rw h refl

  same_key : (p : KeyParser S) (k : List ℕ) (e : ElementRef) → (seen p k e).key ≡ p.key
  same_key p k e = elim (Bool-cases (skips p k)) [
    | inl h ↦ ap (λ (q : KeyParser S). q.key) (seen-skips p k e h)
    | inr h ↦ ap (λ (q : KeyParser S). q.key) (seen-takes p k e h)
  ]

  invoke_key-At :
      (key : List ℕ) (n : ℕ) (ps : List (KeyParser S)) (p : KeyParser S) (s : S) (k : List ℕ)
      (e : ElementRef)
      → At key n ps p
      → Ends (λ r. At key n r.0 (seen p k e)) (invoke_parser_optional_key ps s k e)
  unfolding invoke_parser_optional_key
  invoke_key-At key n [] p s k e at = elim at [ ]
  invoke_key-At key zero (q ∷ ps) p s k e at =
      Ensures-if (skips q k)
        (λ h. Ensures-bind (ends (invoke_parser_optional_key ps s k e)) λ r _. holds (
          at.0 ∙ sym (seen-skips p k e (subst (λ (x : KeyParser S). skips x k ≡ true) at.0 h)),
          same_key p k e ∙ at.1,
        ))
        (λ h. Ensures-bind (ends (q.parse s e)) λ s' _. holds (
          ap (λ (x : KeyParser S). mark x e) at.0
              ∙ sym (seen-takes p k e (subst (λ (x : KeyParser S). skips x k ≡ false) at.0 h)),
          same_key p k e ∙ at.1,
        ))
  invoke_key-At key (suc n) (q ∷ ps) p s k e at =
      Ensures-if (skips q k)
        (λ h. Ensures-bind (invoke_key-At key n ps p s k e at.1) λ r at'. holds (at.0, at'))
        (λ h. Ensures-bind (ends (q.parse s e)) λ s' _. holds (
          at.0,
          subst (λ (x : KeyParser S). At key n ps x)
              (sym (seen-skips p k e (skips-other p q key k (At-key key n ps p at.1) at.0 h))) at.1,
        ))

  -- What becomes of a parser at the entries of a dictionary.
  abbrev pub after : KeyParser S → DictionaryRef → KeyParser S
  after p d = if p.parsed then p else elim (first_value p.key d) [ some e ↦ mark p e | none ↦ p ]

  skips-not_key : (p : KeyParser S) (k : List ℕ) → bytes_eq k p.key ≡ false → skips p k ≡ true
  skips-not_key p k h = ground arith

  after-entry :
      (p : KeyParser S) (name : View) (e : ElementRef) (d : DictionaryRef)
      → after (seen p name.bytes e) d ≡ after p (add_entry name e d)
  unfolding first_value
  after-entry p name e d = elim (Bool-cases p.parsed) [
    | inl h ↦ rw h refl
    | inr h ↦ elim (Bool-cases (bytes_eq name.bytes p.key)) [
      | inl same ↦ rw (h, same) refl
      | inr other ↦
          ap (λ (q : KeyParser S). after q d)
            (seen-skips p name.bytes e (skips-not_key p name.bytes other))
          ∙ rw other refl
    ]
  ]

  after-no_entries : (p : KeyParser S) → p ≡ after p no_entries
  unfolding first_value
  after-no_entries p = elim (Bool-cases p.parsed) [ inl h ↦ rw h refl | inr h ↦ rw h refl ]

  pub invoke_all-At :
      (key : List ℕ) (n : ℕ) (ps : List (KeyParser S)) (p : KeyParser S) (s : S) (d : DictionaryRef)
      → At key n ps p
      → Ends (λ r. At key n r.0 (after p d)) (invoke_all ps s d)
  unfolding invoke_all first_value
  invoke_all-At key n ps p s no_entries at =
      holds (subst (λ (x : KeyParser S). At key n ps x) (after-no_entries p) at)
  invoke_all-At key n ps p s (add_entry name e d) at =
      Ensures-bind (invoke_key-At key n ps p s name.bytes e at) λ (ps', s') at'.
        Ensures-mono (invoke_all-At key n ps' (seen p name.bytes e) s' d at')
          λ r at''. subst (λ (x : KeyParser S). At key n r.0 x) (after-entry p name e d) at''
