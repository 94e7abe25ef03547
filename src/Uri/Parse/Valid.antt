-- ===== src/Uri/Parse/Valid.antt =====
-- What a parsed otpauth URI satisfies, and percent-encoding read back (crates/ckman-core/src/uri.rs).
use canokey_manager.Prelude.{
  ℕ, ◌≤◌, ◌≡◌, ◌≢◌, refl, subst, Bool, true, false, not, ◌&&◌, Option, none, some, List, [], ◌∷◌,
  leb, ◌==◌, if◌then◌else◌, Result, ok, guard, ok_or, map_err, >>=-eq-ok, arith, Bool-cases, inl,
  inr, ok_injective,
}
use canokey_manager.Prelude.Text.{codes, is_empty, split_once}
use canokey_manager.Prelude.Text.Decimal.{parse_unsigned, u32_limit}
use canokey_manager.Oath.Name.{Kind}
use canokey_manager.Uri.Base32.{base32_decode}
use canokey_manager.Uri.Parse.{
  UriError, scheme, kind_error, missing_name, missing_secret, digits_error, period_error,
  counter_error, secret_error, OtpAuth, split, strip_prefix, is_seen, Query, upper_case,
  algorithm_of, set_parameter, apply_parameter, pair_or, query_start, kind_of, label_of, filled,
  counter_of, percent_decode, read_pair, read_query, finish, parse,
}

abbrev pub HasValidNumbers : Query → Type 0
HasValidNumbers q = (4 ≤ q.digits) × (q.digits ≤ 8) × (1 ≤ q.period)

guard_ok : (b : Bool) (e : UriError) {u : Unit {0}} → guard b e ≡ ok u → b ≡ true
guard_ok true e h = refl
guard_ok false e h = absurd (cc)

in_range : (n : ℕ) → (leb 4 n && leb n 8) ≡ true → (4 ≤ n) × (n ≤ 8)
in_range n h = (ground arith, ground arith)

positive : (n : ℕ) → not (n == 0) ≡ true → 1 ≤ n
positive n h = ground arith

choose :
    (P : Query → Type 0) (b : Bool) (x y : Result Query UriError) {q : Query}
    → (x ≡ ok q → P q)
    → (y ≡ ok q → P q)
    → (if b then x else y) ≡ ok q
    → P q
choose P true x y hx hy h = hx h
choose P false x y hx hy h = hy h

query_start-HasValidNumbers : (issuer : Option (List ℕ)) → HasValidNumbers (query_start issuer)
query_start-HasValidNumbers issuer = (omega arith, omega arith, omega arith)

set_parameter-HasValidNumbers :
    (q q' : Query) (index : ℕ) (value : List ℕ)
    → HasValidNumbers q
    → set_parameter q index value ≡ ok q'
    → HasValidNumbers q'
unfolding set_parameter
set_parameter-HasValidNumbers q q' index value v =
    choose HasValidNumbers (index == 0) _ _
      (λ h.
        let (a, e, k) = >>=-eq-ok (map_err secret_error (base32_decode value)) _ h in
        subst HasValidNumbers (ok_injective k) v)
      (choose HasValidNumbers (index == 1) _ _ (λ h. subst HasValidNumbers (ok_injective h) v)
        (choose HasValidNumbers (index == 2) _ _
          (λ h.
            let (a, e, k) = >>=-eq-ok (algorithm_of (upper_case value)) _ h in
            subst HasValidNumbers (ok_injective k) v)
          (choose HasValidNumbers (index == 3) _ _
            (λ h.
              let (n, e, k) = >>=-eq-ok (ok_or (parse_unsigned 256 value) digits_error) _ h in
              let (u, f, m) = >>=-eq-ok (guard (leb 4 n && leb n 8) digits_error) _ k in
              let (low, high) = in_range n (guard_ok _ _ f) in
              subst HasValidNumbers (ok_injective m) (low, high, v.2))
            (choose HasValidNumbers (index == 4) _ _
              (λ h.
                let (n, e, k) =
                  >>=-eq-ok (ok_or (parse_unsigned u32_limit value) period_error) _ h in
                let (u, f, m) = >>=-eq-ok (guard (not (n == 0)) period_error) _ k in
                subst HasValidNumbers (ok_injective m) (v.0, v.1, positive n (guard_ok _ _ f)))
              (λ h.
                let (n, e, k) =
                  >>=-eq-ok (ok_or (parse_unsigned u32_limit value) counter_error) _ h in
                subst HasValidNumbers (ok_injective k) v)))))

apply_parameter-HasValidNumbers :
    (q q' : Query) (o : Option ℕ) (value : List ℕ)
    → HasValidNumbers q
    → apply_parameter q o value ≡ ok q'
    → HasValidNumbers q'
unfolding apply_parameter
apply_parameter-HasValidNumbers q q' none value v h = subst HasValidNumbers (ok_injective h) v
apply_parameter-HasValidNumbers q q' (some index) value v h =
    elim (Bool-cases (is_seen index q.seen)) [
      | inl e ↦ absurd (cc (rw e at h))
      | inr e ↦ set_parameter-HasValidNumbers _ q' index value v (rw e at h)
    ]

is_empty-false : (s : List ℕ) → not (is_empty s) ≡ true → s ≢ []
is_empty-false [] h = absurd (cc)
is_empty-false (c ∷ s) h = λ e. cc

filled-nonempty :
    (o : Option (List ℕ)) (e : UriError) (s : List ℕ) → ok_or (filled o) e ≡ ok s → s ≢ []
filled-nonempty none e s h = absurd (cc)
filled-nonempty (some []) e s h = absurd (cc)
filled-nonempty (some (c ∷ bytes)) e s h = λ n. cc

module _ (trim : List ℕ → List ℕ) (is_utf8 : List ℕ → Bool) where
  read_pair-HasValidNumbers :
      (q next : Query) (pair : List ℕ)
      → HasValidNumbers q
      → read_pair trim is_utf8 q pair ≡ ok next
      → HasValidNumbers next
  unfolding read_pair
  read_pair-HasValidNumbers q next pair v e = elim (Bool-cases (is_empty pair)) [
    | inl n ↦ subst HasValidNumbers (ok_injective (rw n at e)) v
    | inr n ↦
        let parts = pair_or pair (split_once b'=' pair) in
        let (key, f, k) = >>=-eq-ok (percent_decode trim is_utf8 parts.0) _ (rw n at e) in
        let (value, g, m) = >>=-eq-ok (percent_decode trim is_utf8 parts.1) _ k in
        apply_parameter-HasValidNumbers q next _ value v m
  ]

  read_query-HasValidNumbers :
      (q q' : Query) (pairs : List (List ℕ))
      → HasValidNumbers q
      → read_query trim is_utf8 q pairs ≡ ok q'
      → HasValidNumbers q'
  unfolding read_query
  read_query-HasValidNumbers q q' [] v h = subst HasValidNumbers (ok_injective h) v
  read_query-HasValidNumbers q q' (pair ∷ pairs) v h =
      let (next, e, k) = >>=-eq-ok (read_pair trim is_utf8 q pair) _ h in
      read_query-HasValidNumbers next q' pairs (read_pair-HasValidNumbers q next pair v e) k

  -- A URI that is accepted gives a credential with an account and a secret that are not empty, four to
  -- eight digits and a period of at least one second.
  pub parse-valid :
      (uri : List ℕ) (credential : OtpAuth)
      → parse trim is_utf8 uri ≡ ok credential
      → (credential.account ≢ [])
        × (credential.secret ≢ [])
        × (4 ≤ credential.digits)
        × (credential.digits ≤ 8)
        × (1 ≤ credential.period)
  unfolding parse finish
  parse-valid uri credential h =
      let (rest, a, h1) =
        >>=-eq-ok (ok_or (strip_prefix (codes "otpauth://") (trim uri)) scheme) _ h in
      let (parts, b, h2) = >>=-eq-ok (ok_or (split_once b'/' rest) kind_error) _ h1 in
      let (kind, c, h3) = >>=-eq-ok (kind_of parts.0) _ h2 in
      let halves : List ℕ × List ℕ = pair_or parts.1 (split_once b'?' parts.1) in
      let (label, d, h4) = >>=-eq-ok (percent_decode trim is_utf8 halves.0) _ h3 in
      let (u, e, h5) =
        >>=-eq-ok (guard (not (is_empty (label_of label (split_once b':' label)).1)) missing_name) _
          h4 in
      let (q, f, h6) =
        >>=-eq-ok
          (read_query trim is_utf8 (query_start (label_of label (split_once b':' label)).0)
            (split b'&' halves.1))
          _ h5 in
      let numbers =
        read_query-HasValidNumbers (query_start (label_of label (split_once b':' label)).0) q
          (split b'&' halves.1)
          (query_start-HasValidNumbers (label_of label (split_once b':' label)).0) f in
      finished kind (label_of label (split_once b':' label)).1 q (is_empty-false _ (guard_ok _ _ e))
        numbers h6
    where
      finished :
          (kind : Kind) (account : List ℕ) (q : Query)
          → account ≢ []
          → HasValidNumbers q
          → finish trim is_utf8 kind account q ≡ ok credential
          → (credential.account ≢ [])
            × (credential.secret ≢ [])
            × (4 ≤ credential.digits)
            × (credential.digits ≤ 8)
            × (1 ≤ credential.period)
      finished kind account q named v h =
          let (secret, a, h1) = >>=-eq-ok (ok_or (filled q.secret) missing_secret) _ h in
          let (counter, b, h2) = >>=-eq-ok (counter_of kind q.counter) _ h1 in
          subst
            (λ o.
              (o.account ≢ []) × (o.secret ≢ []) × (4 ≤ o.digits) × (o.digits ≤ 8) × (1 ≤ o.period))
            (ok_injective h2)
            (named, filled-nonempty q.secret missing_secret secret a, v.0, v.1, v.2)
