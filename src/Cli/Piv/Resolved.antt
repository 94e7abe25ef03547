-- ===== src/Cli/Piv/Resolved.antt =====
-- Where the management key that `resolve_management_protection` of crates/ckman/src/commands/piv.rs
-- returns comes from.
use canokey_manager.Prelude.{
  ℕ, ◌≡◌, ◌∙◌, refl, sym, ap, ◌⊎◌, inl, inr, Bool, true, false, Option, none, some, List, [], ◌∷◌,
  ◌++◌, if◌then◌else◌, Result, ok, err, map_err, ok_or, Result-cases, Bool-cases, ok_injective,
  subst,
}
use canokey_manager.Piv.Pivman.{PivmanData, has_stored_key, puk_blocked}
use canokey_manager.Piv.Management.{ManagementKeyAlgorithm, tdes, ManagementKey}
use canokey_manager.Cli.Overwrite.{PivError}
use canokey_manager.Cli.Effects.{event, lift, ◌>>=◌, bind-eq-ok}
use canokey_manager.Cli.Oath.Hex.{hex_decode}
use canokey_manager.Cli.Piv.{
  Secret, stored_pin, derived_pin, management_key_hex, Event, pivman_read, protected_read,
  secret_asked, default_warned, Failure, prompt_failed, not_hex, wrong_key_length, no_protected_key,
  wrong_stored_length, wrong_derived_key, wrong_pin, Host, ResolvedManagement, of_card, or_false,
  management_algorithm, management_is_default, resolve_pin_string, check_pin, resolve_pin, key_of,
  resolved, hex_key, stored_bytes, stored_management, derived_management, warn_if,
  entered_management, by_salt, by_pivman, resolve_management_protection,
}

if-eq-ok :
    {A : Type 0} (b : Bool) (a c : A) (e : Failure)
    → ◌≡◌ {A = Result A Failure} (if b then ok a else err e) (ok c)
    → (b ≡ true) × (a ≡ c)
if-eq-ok true a c e h = (refl, ok_injective h)
if-eq-ok false a c e h = absurd (cc)

ok_or-eq-ok : {A : Type 0} (o : Option A) (e : Failure) (a : A) → ok_or o e ≡ ok a → o ≡ some a
ok_or-eq-ok none e a h = absurd (cc)
ok_or-eq-ok (some b) e a h = cc

of_card-eq-ok : {A : Type 0} (r : Result A PivError) (a : A) → of_card r ≡ ok a → r ≡ ok a
of_card-eq-ok (ok b) a h = ap ok (ok_injective h)
of_card-eq-ok (err e) a h = absurd (cc)

prompt-eq-ok : {A : Type 0} (r : Result A ℕ) (a : A) → map_err prompt_failed r ≡ ok a → r ≡ ok a
prompt-eq-ok (ok b) a h = ap ok (ok_injective h)
prompt-eq-ok (err e) a h = absurd (cc)

module _ (host : Host) where
  -- The user gave the PIN with the command, or entered it for this purpose.
  abbrev pub IsPinFrom : Option (List ℕ) → Secret → List ℕ → Type 0
  IsPinFrom (some given) secret pin = pin ≡ given
  IsPinFrom none secret pin = (h : List Event) × (host.prompt secret h ≡ ok pin)

  -- The card gave the stored key for the PIN: while protection is completed and the PUK is not blocked
  -- yet, as the record has it.
  abbrev pub IsStored : Bool → PivmanData → List ℕ → List ℕ → Type 0
  IsStored complete pivman pin bytes =
      ((complete ≡ true)
        × (puk_blocked pivman ≡ false)
        × ((h : List Event) × (host.protected_key pin h ≡ ok (some bytes))))
      ⊎ ((complete ≡ true)
          × (puk_blocked pivman ≡ true)
          × ((h : List Event) × (host.completed_key pin h ≡ ok bytes)))
      ⊎ ((complete ≡ false) × ((h : List Event) × (host.managed_key pin h ≡ ok bytes)))

  -- The key that was entered: the factory key, behind a warning, or its digits.
  abbrev pub IsEntered : ResolvedManagement → List Event → Type 0
  IsEntered r h =
      (entered : List ℕ) × ((before : List Event) × (host.prompt management_key_hex before
          ≡ ok entered))
      × (r.pin ≡ none)
      × (((entered ≡ [])
            × (r.key.bytes ≡ host.default_key r.key.algorithm)
            × ((earlier : List Event) × (h ≡ earlier ++ (default_warned ∷ []))))
          ⊎ (hex_decode entered ≡ some r.key.bytes))

  abbrev pub BySalt : Option (List ℕ) → Option (List ℕ) → ResolvedManagement → List Event → Type 0
  BySalt (some salt) given r h =
      (pin : List ℕ) × IsPinFrom given derived_pin pin
      × (r.pin ≡ some pin)
      × (r.key ≡ record { algorithm = tdes; bytes = host.derive_key pin salt })
  BySalt none given r h = IsEntered r h

  abbrev pub IsResolved :
      Option (List ℕ) → Option (List ℕ) → Bool → ResolvedManagement → List Event → Type 0
  IsResolved (some hex) given complete r h = (hex_decode hex ≡ some r.key.bytes) × (r.pin ≡ none)
  IsResolved none given complete r h =
      (pivman : PivmanData) × ((before : List Event) × (host.pivman before ≡ ok pivman))
      × (((has_stored_key pivman ≡ true)
            × ((pin : List ℕ) × IsPinFrom given stored_pin pin
                × (host.is_pin pin ≡ true)
                × (r.pin ≡ some pin)
                × IsStored complete pivman pin r.key.bytes))
          ⊎ ((has_stored_key pivman ≡ false) × BySalt pivman.salt given r h))

  key_of-eq-ok :
      (failure : Failure) (bytes : List ℕ) (algorithm : ManagementKeyAlgorithm) (h : List Event)
      (key : ManagementKey)
      → (key_of host failure bytes algorithm h).0 ≡ ok key
      → record { algorithm = algorithm; bytes = bytes } ≡ key
  key_of-eq-ok failure bytes algorithm h key e =
      (if-eq-ok (host.is_key algorithm bytes) (record { algorithm = algorithm; bytes = bytes }) key
        failure e).1

  hex_key-eq-ok :
      (hex : List ℕ) (h : List Event) (key : ManagementKey)
      → (hex_key host hex h).0 ≡ ok key
      → hex_decode hex ≡ some key.bytes
  unfolding hex_key
  hex_key-eq-ok hex h key e =
      let (bytes, a, e1) = bind-eq-ok (lift (ok_or (hex_decode hex) not_hex)) _ h key e in
      let (algorithm, b, e2) =
        bind-eq-ok (management_algorithm host) (key_of host wrong_key_length bytes) h key e1 in
      ok_or-eq-ok (hex_decode hex) not_hex bytes a
      ∙ ap (λ k. some k.bytes)
          (key_of-eq-ok wrong_key_length bytes algorithm (management_algorithm host h).1 key e2)

  resolve_pin_string-IsPinFrom :
      (given : Option (List ℕ)) (secret : Secret) (h : List Event) (pin : List ℕ)
      → (resolve_pin_string host given secret h).0 ≡ ok pin
      → IsPinFrom given secret pin
  unfolding resolve_pin_string
  resolve_pin_string-IsPinFrom (some given) secret h pin e = sym (ok_injective e)
  resolve_pin_string-IsPinFrom none secret h pin e = (h, prompt-eq-ok (host.prompt secret h) pin e)

  resolve_pin-IsPinFrom :
      (given : Option (List ℕ)) (secret : Secret) (h : List Event) (pin : List ℕ)
      → (resolve_pin host given secret h).0 ≡ ok pin
      → IsPinFrom given secret pin × (host.is_pin pin ≡ true)
  unfolding resolve_pin
  resolve_pin-IsPinFrom given secret h pin e =
      let (entered, a, e1) =
        bind-eq-ok (resolve_pin_string host given secret) (check_pin host) h pin e in
      let (valid, same_pin) = if-eq-ok (host.is_pin entered) entered pin wrong_pin e1 in
      (
        subst (IsPinFrom given secret) same_pin
            (resolve_pin_string-IsPinFrom given secret h entered a),
        subst (λ p. host.is_pin p ≡ true) same_pin valid,
      )

  stored_bytes-IsStored :
      (complete : Bool) (pivman : PivmanData) (pin : List ℕ) (h : List Event) (bytes : List ℕ)
      → (stored_bytes host complete pivman pin h).0 ≡ ok bytes
      → IsStored complete pivman pin bytes
  unfolding stored_bytes
  stored_bytes-IsStored false pivman pin h bytes e =
      inr (inr (refl, (h, of_card-eq-ok (host.managed_key pin h) bytes e)))
  stored_bytes-IsStored true pivman pin h bytes e = elim (Bool-cases (puk_blocked pivman)) [
    | inl b ↦ inr (
        inl (
          refl,
          b,
          (h, of_card-eq-ok (host.completed_key pin h) bytes (rw (b, stored_bytes) at e)),
        ))
    | inr b ↦
        let (found, a, e1) =
          bind-eq-ok (event (protected_read pin) (λ h. of_card (host.protected_key pin h)))
            (λ found. lift (ok_or found no_protected_key)) h bytes (rw (b, stored_bytes) at e) in
        inl (
          refl,
          b,
          (
            h,
            of_card-eq-ok (host.protected_key pin h) found a
                ∙ ap ok (ok_or-eq-ok found no_protected_key bytes e1),
          ),
        )
  ]

  stored_management-IsStored :
      (complete : Bool) (pivman : PivmanData) (given : Option (List ℕ)) (h : List Event)
      (r : ResolvedManagement)
      → (stored_management host complete pivman given h).0 ≡ ok r
      → (pin : List ℕ) × IsPinFrom given stored_pin pin
        × (host.is_pin pin ≡ true)
        × (r.pin ≡ some pin)
        × IsStored complete pivman pin r.key.bytes
  unfolding stored_management
  stored_management-IsStored complete pivman given h r e =
      let (pin, a, e1) =
        bind-eq-ok (resolve_pin host given stored_pin)
          (λ pin. stored_bytes host complete pivman pin >>= λ bytes.
            management_algorithm host >>= λ algorithm.
            key_of host wrong_stored_length bytes algorithm >>= resolved host (some pin))
          h r e in
      let h1 = (resolve_pin host given stored_pin h).1 in
      let (bytes, b, e2) =
        bind-eq-ok (stored_bytes host complete pivman pin)
          (λ bytes. management_algorithm host >>= λ algorithm.
            key_of host wrong_stored_length bytes algorithm >>= resolved host (some pin))
          h1 r e1 in
      let h2 = (stored_bytes host complete pivman pin h1).1 in
      let (algorithm, c, e3) =
        bind-eq-ok (management_algorithm host)
          (λ algorithm.
            key_of host wrong_stored_length bytes algorithm >>= resolved host (some pin))
          h2 r e2 in
      let h3 = (management_algorithm host h2).1 in
      let (key, d, e4) =
        bind-eq-ok (key_of host wrong_stored_length bytes algorithm) (resolved host (some pin)) h3 r
          e3 in
      let (from, valid) = resolve_pin-IsPinFrom given stored_pin h pin a in
      let same_key : bytes ≡ r.key.bytes =
        ap (λ k. k.bytes) (key_of-eq-ok wrong_stored_length bytes algorithm h3 key d)
        ∙ ap (λ r. r.key.bytes) (ok_injective e4) in
      (
        pin,
        from,
        valid,
        ap (λ r. r.pin) (sym (ok_injective e4)),
        subst (IsStored complete pivman pin) same_key
            (stored_bytes-IsStored complete pivman pin h1 bytes b),
      )

  derived_management-derived :
      (salt : List ℕ) (given : Option (List ℕ)) (h : List Event) (r : ResolvedManagement)
      → (derived_management host salt given h).0 ≡ ok r
      → BySalt (some salt) given r (derived_management host salt given h).1
  unfolding derived_management
  derived_management-derived salt given h r e =
      let (pin, a, e1) =
        bind-eq-ok (resolve_pin_string host given derived_pin)
          (λ pin. key_of host wrong_derived_key (host.derive_key pin salt) tdes >>= λ key.
            check_pin host pin >>= λ checked. resolved host (some checked) key)
          h r e in
      let h1 = (resolve_pin_string host given derived_pin h).1 in
      let (key, b, e2) =
        bind-eq-ok (key_of host wrong_derived_key (host.derive_key pin salt) tdes)
          (λ key. check_pin host pin >>= λ checked. resolved host (some checked) key) h1 r e1 in
      let h2 = (key_of host wrong_derived_key (host.derive_key pin salt) tdes h1).1 in
      let (checked, c, e3) =
        bind-eq-ok (check_pin host pin) (λ checked. resolved host (some checked) key) h2 r e2 in
      let (valid, same_pin) = if-eq-ok (host.is_pin pin) pin checked wrong_pin c in
      (
        pin,
        resolve_pin_string-IsPinFrom given derived_pin h pin a,
        ap (λ r. r.pin) (sym (ok_injective e3)) ∙ ap some (sym same_pin),
        ap (λ r. r.key) (sym (ok_injective e3))
            ∙ sym (key_of-eq-ok wrong_derived_key (host.derive_key pin salt) tdes h1 key b),
      )

  entered_management-IsEntered :
      (entered : List ℕ) (before h : List Event) (r : ResolvedManagement)
      → host.prompt management_key_hex before ≡ ok entered
      → (entered_management host entered h).0 ≡ ok r
      → IsEntered r (entered_management host entered h).1
  unfolding entered_management
  entered_management-IsEntered [] before h r p e =
      elim (Result-cases (management_algorithm host h).0) [
        | inr (x, a) ↦ absurd (cc (rw a at e))
        | inl (algorithm, a) ↦
            let same_result = ok_injective (rw a at e) in
            rw a (
              [],
              (before, p),
              ap (λ r. r.pin) (sym same_result),
              inl (
                refl,
                ap (λ r. r.key.bytes) (sym same_result)
                    ∙ ap (λ r. host.default_key r.key.algorithm) same_result,
                ((management_algorithm host h).1, refl),
              ),
            )
      ]
  entered_management-IsEntered (c ∷ hex) before h r p e =
      let (key, a, e1) =
        bind-eq-ok (hex_key host (c ∷ hex))
          (λ key. management_is_default host >>= λ is_default.
            warn_if host (or_false is_default) >>= λ _. resolved host none key)
          h r e in
      let h1 = (hex_key host (c ∷ hex) h).1 in
      let (is_default, b, e2) =
        bind-eq-ok (management_is_default host)
          (λ is_default. warn_if host (or_false is_default) >>= λ _. resolved host none key) h1 r
          e1 in
      let h2 = (management_is_default host h1).1 in
      let (_, d, e3) =
        bind-eq-ok (warn_if host (or_false is_default)) (λ _. resolved host none key) h2 r e2 in
      (
        c ∷ hex,
        (before, p),
        ap (λ r. r.pin) (sym (ok_injective e3)),
        inr (hex_key-eq-ok (c ∷ hex) h key a ∙ ap (λ r. some r.key.bytes) (ok_injective e3)),
      )

  by_salt-BySalt :
      (salt given : Option (List ℕ)) (h : List Event) (r : ResolvedManagement)
      → (by_salt host salt given h).0 ≡ ok r
      → BySalt salt given r (by_salt host salt given h).1
  unfolding by_salt
  by_salt-BySalt (some salt) given h r e = derived_management-derived salt given h r e
  by_salt-BySalt none given h r e = elim (Result-cases (host.prompt management_key_hex h)) [
    | inr (x, p) ↦ absurd (cc (rw p at e))
    | inl (entered, p) ↦ rw p (
        entered_management-IsEntered entered h (h ++ (secret_asked management_key_hex ∷ [])) r p
          (rw p at e))
  ]

  -- The key that is resolved is that of the command line, where there is one, and then no PIN goes
  -- with it. Otherwise it is, by what ADMIN DATA says: the stored key that the card gives for the PIN;
  -- or the key that is derived from the PIN and the salt; or the key that was entered, the factory key
  -- only behind a warning. The PIN is the one given, or else one that was entered for this purpose.
  pub resolve_management_protection-IsResolved :
      (hex given : Option (List ℕ)) (complete : Bool) (h : List Event) (r : ResolvedManagement)
      → (resolve_management_protection host hex given complete h).0 ≡ ok r
      → IsResolved hex given complete r (resolve_management_protection host hex given complete h).1
  unfolding resolve_management_protection by_pivman
  resolve_management_protection-IsResolved (some hex) given complete h r e =
      let (key, a, e1) = bind-eq-ok (hex_key host hex) (resolved host none) h r e in
      (
        hex_key-eq-ok hex h key a ∙ ap (λ r. some r.key.bytes) (ok_injective e1),
        ap (λ r. r.pin) (sym (ok_injective e1)),
      )
  resolve_management_protection-IsResolved none given complete h r e =
      elim (Result-cases (host.pivman h)) [
        | inr (x, p) ↦ absurd (cc (rw p at e))
        | inl (pivman, p) ↦ elim (Bool-cases (has_stored_key pivman)) [
          | inl s ↦ rw p (
              rw s (
                pivman,
                (h, p),
                inl (
                  s,
                  stored_management-IsStored complete pivman given (h ++ (pivman_read ∷ [])) r
                      (rw (p, s) at e),
                ),
              ))
          | inr s ↦ rw p (
              rw s (
                pivman,
                (h, p),
                inr (
                  s,
                  by_salt-BySalt pivman.salt given (h ++ (pivman_read ∷ [])) r (rw (p, s) at e),
                ),
              ))
        ]
      ]
