-- ===== src/Bencode/Refused.antt =====
-- What parse_string refuses: the tests of consume_n that fail.
use bittorrent_client.Base.{
  ℕ, ◌+◌, ◌≤◌, ◌≡◌, refl, ap, false, inl, inr, List, ◌∷◌, ◌++◌, err, ltb, Bool-cases, if◌then◌else◌,
  arith, length, length-append,
}
use bittorrent_client.Bencode.Errors
use bittorrent_client.Bencode.Elements.{as_string, string_id}
use bittorrent_client.Bencode.Length.{IsLength, parse_length_complete}
use bittorrent_client.Bencode.Cursor.{parse_error, address_overflow, address_limit, then_parse}
use bittorrent_client.Bencode.Parser.{
  parse_string, parse_string_only, drop_cursor, asserted, start_of,
}
use bittorrent_client.Bencode.Complete.Scalars.{parse_string_length-prefix}

ge→ltb : (a b : ℕ) → b ≤ a → ltb a b ≡ false
ge→ltb a b h = ground arith

refused :
    (total n : ℕ) (ds t : List ℕ)
    → IsLength ds n
    → ltb n total ≡ false
    → drop_cursor
        (then_parse (parse_string total (start_of (ds ++ b':' ∷ t))) λ e. asserted (as_string e))
      ≡ err (
          if ltb n address_limit
          then parse_error (record {
            ec = Errors.string_out_of_bound;
            offset = length ds + 1;
            element = string_id;
          })
          else address_overflow n)
unfolding parse_string
refused total n ds t num large =
    rw
      (
        parse_string_length-prefix 0 ds t num.digits num.some_digit,
        parse_length_complete ds n num,
        large,
      )
      (elim (Bool-cases (ltb n address_limit)) [
        | inl e ↦ rw (e) (
            ap
              (λ (o : ℕ). err (
                parse_error
                  (record { ec = Errors.string_out_of_bound; offset = o; element = string_id })))
              (omega arith))
        | inr e ↦ rw (e) refl
      ])

-- A string of at least as many bytes as the whole data has is refused behind its colon, unless the length is so
-- large, at least 2 ^ 63, that the model ends at the address.
pub parse_string_only-refused :
    (ds t : List ℕ) (n : ℕ)
    → IsLength ds n
    → length ds + 1 + length t ≤ n
    → parse_string_only (ds ++ b':' ∷ t)
      ≡ err (
          if ltb n address_limit
          then parse_error (record {
            ec = Errors.string_out_of_bound;
            offset = length ds + 1;
            element = string_id;
          })
          else address_overflow n)
unfolding parse_string_only
parse_string_only-refused ds t n num long =
    let large : ltb n (length (ds ++ b':' ∷ t)) ≡ false =
      ge→ltb n _ (omega (arith, length-append ds (b':' ∷ t))) in
    refused (length (ds ++ b':' ∷ t)) n ds t num large
