-- ===== src/OpenPgp.antt =====
-- `key_information` of crates/ckman-core/src/openpgp.rs.
mod Runs
use canokey_manager.Prelude.{
  ℕ, ◌+◌, ◌≡◌, ◌≢◌, refl, ap, sym, Bool, true, false, not, ◌&&◌, ◌||◌, Option, none, some, List, [],
  ◌∷◌, ◌++◌, ◌==◌, ==_iff, ==_refl, if◌then◌else◌, Result, ok, err, All, Bool-cases, inl, inr,
}

pub record Field : Type 0 where
  pub tag : ℕ
  pub value : List ℕ

pub data InvalidResponse : Type 0 where
  invalid : InvalidResponse

abbrev pub tagged : List Field → List Field
tagged [] = []
tagged (field ∷ fields) =
    let rest = tagged fields in if field.tag == 0xde then field ∷ rest else rest

unfoldable pub is_seen : ℕ → List ℕ → Bool
is_seen k [] = false
is_seen k (s ∷ seen) = k == s || is_seen k seen

-- The loop over the pairs, `seen` the references whose flag is set. An odd byte at the end is the
-- failed test of the length, which comes first and fails alike.
unfoldable pub read_pairs : ℕ → List ℕ → Option ℕ → List ℕ → Result (Option ℕ) InvalidResponse
unfolding is_seen
read_pairs reference seen status [] = ok status
read_pairs reference seen status (k ∷ []) = err invalid
read_pairs reference seen status (k ∷ s ∷ rest) =
    let next = read_pairs reference (k ∷ seen) (if k == reference then some s else status) rest in
    if is_seen k seen then err invalid else next

-- `occurrence` is `slot.occurrence()`.
unfoldable pub read_field : ℕ → List Field → Result (Option ℕ) InvalidResponse
unfolding read_pairs
read_field occurrence [] = ok none
read_field occurrence (field ∷ []) = read_pairs (occurrence + 1) [] none field.value
read_field occurrence (field ∷ other ∷ fields) = err invalid

unfoldable pub key_information : List Field → ℕ → Result (Option ℕ) InvalidResponse
unfolding read_field
key_information discretionary occurrence = read_field occurrence (tagged discretionary)

-- The pairs as the card writes them, and the status of a reference among them.
abbrev pub written : List (ℕ × ℕ) → List ℕ
written [] = []
written ((k, s) ∷ pairs) = k ∷ s ∷ written pairs

abbrev pub lookup : ℕ → List (ℕ × ℕ) → Option ℕ
lookup reference [] = none
lookup reference ((k, s) ∷ pairs) =
    let rest = lookup reference pairs in if k == reference then some s else rest

abbrev pub HasDistinctKeys : List (ℕ × ℕ) → Type 0
HasDistinctKeys [] = Unit
HasDistinctKeys ((k, s) ∷ pairs) = All (λ p. p.0 ≢ k) pairs × HasDistinctKeys pairs

unseen : (k : ℕ) (seen : List ℕ) → All (λ s. k ≢ s) seen → is_seen k seen ≡ false
unfolding is_seen
unseen k [] h = refl
unseen k (s ∷ seen) h = elim (Bool-cases (k == s)) [
  | inl e ↦ absurd (h.0 ((==_iff k s).0 e))
  | inr e ↦ rw e (unseen k seen h.1)
]

abbrev or_else : Option ℕ → Option ℕ → Option ℕ
or_else none o = o
or_else (some s) o = some s

lookup-absent : (k : ℕ) (pairs : List (ℕ × ℕ)) → All (λ p. p.0 ≢ k) pairs → lookup k pairs ≡ none
lookup-absent k [] h = refl
lookup-absent k ((j, s) ∷ pairs) h = elim (Bool-cases (j == k)) [
  | inl e ↦ absurd (h.0 ((==_iff j k).0 e))
  | inr e ↦ rw e (lookup-absent k pairs h.1)
]

-- No pair has a reference that was seen before.
abbrev AreNew : List ℕ → List (ℕ × ℕ) → Type 0
AreNew seen pairs = All (λ p. All (λ s. p.0 ≢ s) seen) pairs

more_seen :
    (k : ℕ) (seen : List ℕ) (pairs : List (ℕ × ℕ))
    → All (λ p. p.0 ≢ k) pairs
    → AreNew seen pairs
    → AreNew (k ∷ seen) pairs
more_seen k seen [] h new = tt
more_seen k seen (p ∷ pairs) h new = ((h.0, new.0), more_seen k seen pairs h.1 new.1)

read_pairs-written :
    (reference : ℕ) (seen : List ℕ) (status : Option ℕ) (pairs : List (ℕ × ℕ))
    → HasDistinctKeys pairs
    → AreNew seen pairs
    → read_pairs reference seen status (written pairs)
      ≡ ok (or_else (lookup reference pairs) status)
unfolding read_pairs
read_pairs-written reference seen status [] distinct new = refl
read_pairs-written reference seen status ((k, s) ∷ pairs) distinct new =
    rw (unseen k seen new.0) (elim (Bool-cases (k == reference)) [
      | inr e ↦ rw e (
          read_pairs-written reference (k ∷ seen) status pairs distinct.1
            (more_seen k seen pairs distinct.0 new.1))
      | inl e ↦ rw e (
          rw
            (read_pairs-written reference (k ∷ seen) (some s) pairs distinct.1
              (more_seen k seen pairs distinct.0 new.1))
            (rw (lookup-absent reference pairs (rw (sym ((==_iff k reference).0 e)) distinct.0))
              refl))
    ])

no_seen : (pairs : List (ℕ × ℕ)) → AreNew [] pairs
no_seen [] = tt
no_seen (p ∷ pairs) = (tt, no_seen pairs)

-- Where the discretionary data has one DE object with pairs for distinct references, the status of
-- a slot is the one paired with the reference of the slot, and none if there is no such pair.
pub key_information-written :
    (fields : List Field) (pairs : List (ℕ × ℕ)) (occurrence : ℕ)
    → tagged fields ≡ record { tag = 0xde; value = written pairs } ∷ []
    → HasDistinctKeys pairs
    → key_information fields occurrence ≡ ok (lookup (occurrence + 1) pairs)
unfolding key_information
key_information-written fields pairs occurrence one distinct = rw one (
    rw (read_pairs-written (occurrence + 1) [] none pairs distinct (no_seen pairs))
      (from_none (lookup (occurrence + 1) pairs)))
  where
    from_none :
        (o : Option ℕ) → ◌≡◌ {A = Result (Option ℕ) InvalidResponse} (ok (or_else o none)) (ok o)
    from_none none = refl
    from_none (some s) = refl
