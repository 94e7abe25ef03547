-- ===== src/Cli/Oath/Search.antt =====
-- `kind_of`, `algorithm_of`, `display_name` and `search` of crates/ckman/src/commands/oath.rs, and
-- the choice of the single hit that the commands on one account begin with.
use canokey_manager.Prelude.{
  ℕ, ◌≡◌, refl, sym, ◌∙◌, ap, inl, inr, Bool, false, not, ◌&&◌, Option, none, some, List, [], ◌∷◌,
  ◌++◌, ◌/◌, ◌%◌, ◌==◌, if◌then◌else◌, Result, ok, err, Bool-cases, append_assoc, append-nil,
}
use canokey_manager.Prelude.Text.{codes}
use canokey_manager.Prelude.Bytes.{bytes_eq}
use canokey_manager.Oath.Name.{Kind, hotp, totp, parse_name}
use canokey_manager.Uri.Parse.{Algorithm, sha1, sha256, sha512}
use canokey_manager.Cli.Select.{contains, filter}
use canokey_manager.Cli.Oath.{
  Entry, Host, Failure, no_match, multiple_matches, unsupported_algorithm,
}

-- The high nibble of the octet.
unfoldable pub kind_of : Entry → Option Kind
kind_of entry =
    let nibble = entry.algorithm_type / 16 in
    if nibble == 1 then some hotp else if nibble == 2 then some totp else none

unfoldable pub algorithm_of : Entry → Result Algorithm Failure
algorithm_of entry =
    let nibble = entry.algorithm_type % 16 in
    if nibble == 1
    then ok sha1
    else if nibble == 2
    then ok sha256
    else if nibble == 3
    then ok sha512
    else err (unsupported_algorithm nibble)

-- `kind_of(entry).unwrap_or(Kind::Totp)`
abbrev pub kind_or_totp : Option Kind → Kind
kind_or_totp none = totp
kind_or_totp (some kind) = kind

abbrev pub is_hidden_issuer : Option (List ℕ) → Bool
is_hidden_issuer none = false
is_hidden_issuer (some issuer) = bytes_eq issuer (codes "_hidden")

-- A match of exactly one account.
unfoldable pub single_hit : List Entry → Result Entry Failure
single_hit [] = err no_match
single_hit (entry ∷ []) = ok entry
single_hit (a ∷ b ∷ hits) = err (multiple_matches (a ∷ b ∷ hits))

module _ (host : Host) where
  abbrev pub display_name : Entry → List ℕ
  display_name entry = host.lossy entry.name

  unfoldable pub is_hidden : Entry → Bool
  unfolding parse_name kind_of
  is_hidden entry =
      is_hidden_issuer (parse_name (host.lossy entry.name) (kind_or_totp (kind_of entry))).issuer

  abbrev pub is_substring : List ℕ → Entry → Bool
  is_substring query entry = contains (host.lowercase (display_name entry)) (host.lowercase query)

  -- The loop, with the hits so far.
  unfoldable pub search_loop : List Entry → List ℕ → Bool → List Entry → List Entry
  unfolding is_hidden bytes_eq
  search_loop [] query show_hidden hits = hits
  search_loop (entry ∷ entries) query show_hidden hits =
      let skipped = search_loop entries query show_hidden hits in
      let pushed = search_loop entries query show_hidden (hits ++ (entry ∷ [])) in
      if not show_hidden && is_hidden entry
      then skipped
      else if bytes_eq entry.name query
      then entry ∷ []
      else if is_substring query entry
      then pushed
      else skipped

  unfoldable pub search : List Entry → List ℕ → Bool → List Entry
  unfolding search_loop
  search entries query show_hidden = search_loop entries query show_hidden []

  -- The description: of the accounts that may be shown, the first one of that very name, or else all
  -- whose displayed name has the query in it.
  unfoldable pub is_shown : Bool → Entry → Bool
  unfolding is_hidden
  is_shown show_hidden entry = not (not show_hidden && is_hidden entry)

  unfoldable pub first_named : List ℕ → List Entry → Option Entry
  unfolding bytes_eq
  first_named query [] = none
  first_named query (entry ∷ entries) =
      let rest = first_named query entries in if bytes_eq entry.name query then some entry else rest

  abbrev pub one_or : Option Entry → List Entry → List Entry
  one_or none hits = hits
  one_or (some entry) hits = entry ∷ []

  unfoldable pub described_hits : List Entry → List ℕ → List Entry → List Entry
  unfolding first_named
  described_hits hits query entries =
      one_or (first_named query entries) (hits ++ filter (is_substring query) entries)

  search_loop-described :
      (entries : List Entry) (query : List ℕ) (show_hidden : Bool) (hits : List Entry)
      → search_loop entries query show_hidden hits
        ≡ described_hits hits query (filter (is_shown show_hidden) entries)
  unfolding search_loop described_hits is_shown first_named
  search_loop-described [] query show_hidden hits = sym (append-nil hits)
  search_loop-described (entry ∷ entries) query show_hidden hits =
      elim (Bool-cases (not show_hidden && is_hidden entry)) [
        | inl s ↦ rw s (search_loop-described entries query show_hidden hits)
        | inr s ↦ elim (Bool-cases (bytes_eq entry.name query)) [
          | inl n ↦ rw (s, n) refl
          | inr n ↦ elim (Bool-cases (is_substring query entry)) [
            | inl b ↦
                rw (s, n, b)
                  (search_loop-described entries query show_hidden (hits ++ (entry ∷ []))
                    ∙ ap (one_or (first_named query (filter (is_shown show_hidden) entries)))
                        (append_assoc hits (entry ∷ []) _))
            | inr b ↦ rw (s, n, b) (search_loop-described entries query show_hidden hits)
          ]
        ]
      ]

  -- The search gives, of the accounts that may be shown, the first one whose raw name is the query
  -- and nothing else; where there is none, all accounts whose displayed name contains the query in any
  -- case, in order.
  pub search-described :
      (entries : List Entry) (query : List ℕ) (show_hidden : Bool)
      → search entries query show_hidden
        ≡ described_hits [] query (filter (is_shown show_hidden) entries)
  unfolding search
  search-described entries query show_hidden = search_loop-described entries query show_hidden []
