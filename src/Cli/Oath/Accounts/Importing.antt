-- ===== src/Cli/Oath/Accounts/Importing.antt =====
-- What holds when `accounts_uri` of crates/ckman/src/commands/oath.rs sends the credential of a URI to
-- the card.
use canokey_manager.Prelude.{
  ℕ, ◌+◌, ◌-◌, ◌≤◌, ◌<◌, arith, ◌≡◌, refl, sym, ap, ◌∙◌, ◌≢◌, ◌↔◌, subst, none, some, ◌⊎◌, inl, inr,
  Bool, true, false, Option, List, ok, Bool-cases, ok_injective, length, ◌==◌, ==_iff,
}
use canokey_manager.Prelude.Bytes.{bytes_eq_sound, bytes_eq_refl}
use canokey_manager.Prelude.Text.{codes}
use canokey_manager.Oath.Name.{Kind, hotp, totp, format_id}
use canokey_manager.Uri.Parse.{OtpAuth}
use canokey_manager.Cli.Effects.{lift, OnlyQuiet_refl, Guarded, Guarded-bind, Guarded-map}
use canokey_manager.Cli.Oath.{Entry, Credential, add, Event, Host}
use canokey_manager.Cli.Oath.Session.Reading.{IsReading}
use canokey_manager.Cli.Oath.Accounts.{AccessArgs, any_named}
use canokey_manager.Cli.Oath.Accounts.Add.{
  uri_initial_counter, id_of, credential_of, from_uri, is_steam, adjust_steam, add_credential,
  add_parsed,
}
use canokey_manager.Cli.Oath.Accounts.Consent.{IsListed, Sends}
use canokey_manager.Cli.Oath.Accounts.Adding.{IsAddition, add_credential-Guarded}

module _ (host : Host) where
  -- The number of digits: that of the URI, but six where a Steam URI says five.
  abbrev pub IsDigits : OtpAuth → ℕ → Type 0
  IsDigits parsed digits =
      ((parsed.digits ≡ 5) × (parsed.issuer ≡ some (codes "Steam")) × (digits ≡ 6))
      ⊎ ((digits ≡ parsed.digits) × ((parsed.digits ≢ 5) ⊎ (parsed.issuer ≢ some (codes "Steam"))))

  -- The credential of a URI, field by field.
  abbrev pub IsCredential : OtpAuth → Bool → Credential → Type 0
  IsCredential parsed touch credential =
      (credential.credential_name
        ≡ format_id parsed.issuer parsed.account parsed.kind parsed.period)
      × (credential.kind ≡ parsed.kind)
      × (credential.algorithm ≡ parsed.algorithm)
      × IsDigits parsed credential.digits
      × (credential.secret ≡ parsed.secret)
      × (credential.require_touch ≡ touch)
      × (credential.increasing ≡ false)
      × (((parsed.kind ≡ hotp) × (credential.initial_counter + 1 ≡ parsed.counter))
          ⊎ ((parsed.kind ≡ totp)
              × (0 < parsed.period)
              × (credential.initial_counter ≡ 0)
              × (parsed.counter ≡ 0)))

  -- What is known when the credential of a URI is added.
  abbrev pub IsImport : OtpAuth → Bool → Bool → List Event → Event → Type 0
  IsImport parsed touch force before v =
      (credential : Credential) × IsCredential parsed touch credential
      × (4 ≤ credential.digits)
      × (credential.digits ≤ 8)
      × (1 ≤ length credential.secret)
      × (length credential.secret ≤ 64)
      × (host.is_name credential.credential_name ≡ true)
      × Sends host (add credential)
          (λ h.
            (force ≡ true)
            ⊎ ((entries : List Entry) × IsListed host entries h
                × (any_named credential.credential_name entries ≡ false)))
          before v

  is_steam_iff :
      (issuer : Option (List ℕ)) → (is_steam issuer ≡ true) ↔ (issuer ≡ some (codes "Steam"))
  unfolding is_steam
  is_steam_iff none = (λ h. absurd (cc), λ h. absurd (cc))
  is_steam_iff (some issuer) = (
    λ h. ap some (bytes_eq_sound issuer _ h),
    λ h. subst (λ o. is_steam o ≡ true) (sym h) (bytes_eq_refl (codes "Steam")),
  )

  adjust_steam-IsDigits :
      (parsed : OtpAuth)
      → (digits : ℕ) × IsDigits parsed digits
        × (adjust_steam parsed ≡ record parsed { digits = digits })
  unfolding adjust_steam
  adjust_steam-IsDigits parsed = elim (Bool-cases (parsed.digits == 5)) [
    | inr d ↦
        (parsed.digits, inr (refl, inl (λ e. cc ((==_iff parsed.digits 5).1 e, d))), rw d refl)
    | inl d ↦ elim (Bool-cases (is_steam parsed.issuer)) [
      | inl t ↦ (6, inl ((==_iff _ _).0 d, (is_steam_iff parsed.issuer).0 t, refl), rw (d, t) refl)
      | inr t ↦ (
        parsed.digits,
        inr (refl, inr (λ e. cc ((is_steam_iff parsed.issuer).1 e, t))),
        rw (d, t) refl,
      )
    ]
  ]

  IsAddition-IsImport :
      (parsed : OtpAuth) (digits counter : ℕ) (touch force : Bool) (args : AccessArgs)
      (before : List Event) (v : Event)
      → IsDigits parsed digits
      → ((parsed.kind ≡ hotp) × (counter + 1 ≡ parsed.counter))
        ⊎ ((parsed.kind ≡ totp) × (counter ≡ 0) × (parsed.counter ≡ 0))
      → IsAddition host
          (from_uri (record parsed { digits = digits }) counter touch force args)
          before
          v
      → IsImport parsed touch force before v
  unfolding credential_of id_of
  IsAddition-IsImport parsed digits counter touch force args before v d c
        (access, e, ((kinds, least, most, some_bytes, few_bytes), name, unused)) =
      (
        credential_of (from_uri (record parsed { digits = digits }) counter touch force args),
        (refl, refl, refl, d, refl, refl, refl, by_kind c kinds),
        least,
        most,
        some_bytes,
        few_bytes,
        name,
        (access, e, unused),
      )
    where
      by_kind :
          ((parsed.kind ≡ hotp) × (counter + 1 ≡ parsed.counter))
            ⊎ ((parsed.kind ≡ totp) × (counter ≡ 0) × (parsed.counter ≡ 0))
          → ((parsed.kind ≡ hotp) ⊎ ((0 < parsed.period) × (counter ≡ 0)))
          → ((parsed.kind ≡ hotp) × (counter + 1 ≡ parsed.counter))
            ⊎ ((parsed.kind ≡ totp) × (0 < parsed.period) × (counter ≡ 0) × (parsed.counter ≡ 0))
      by_kind (inl h) k = inl h
      by_kind (inr (t, z, w)) (inl h) = absurd (cc (sym t ∙ h))
      by_kind (inr (t, z, w)) (inr (p, _)) = inr (t, p, z, w)

  uri_initial_counter-eq-ok :
      (kind : Kind) (counter stored : ℕ)
      → uri_initial_counter kind counter ≡ ok stored
      → ((kind ≡ hotp) × (stored + 1 ≡ counter)) ⊎ ((kind ≡ totp) × (stored ≡ 0) × (counter ≡ 0))
  unfolding uri_initial_counter
  uri_initial_counter-eq-ok hotp counter stored h = elim (Bool-cases (counter == 0)) [
    | inl z ↦ absurd (cc (rw (z, uri_initial_counter) at h))
    | inr z ↦
        inl (refl, positive counter stored z (ok_injective (rw (z, uri_initial_counter) at h)))
  ]
    where
      positive :
          (counter stored : ℕ)
          → (counter == 0) ≡ false
          → counter - 1 ≡ stored
          → stored + 1 ≡ counter
      positive counter stored z e = ground arith
  uri_initial_counter-eq-ok totp counter stored h = elim (Bool-cases (counter == 0)) [
    | inl z ↦
        inr (refl, sym (ok_injective (rw (z, uri_initial_counter) at h)), (==_iff counter 0).0 z)
    | inr z ↦ absurd (cc (rw (z, uri_initial_counter) at h))
  ]

  -- Of what a URI says at most one credential is added to the card, with the URI's name, kind,
  -- algorithm and secret, and with its digits but for the five of a Steam URI, for which six are
  -- stored. The counter that is stored is one less than that of the URI for an HOTP credential; for a
  -- TOTP credential both are 0 and the period is not. The fields are in the ranges of the card, and
  -- the user forced it, or the accounts were listed and none of them has that name.
  pub add_parsed-Guarded :
      (device : Option ℕ) (reader : Option (List ℕ)) (touch force : Bool) (args : AccessArgs)
      (parsed : OtpAuth) (h : List Event)
      → Guarded IsReading
          (IsImport parsed touch force)
          h
          (add_parsed host device reader touch force args parsed h)
  unfolding add_parsed
  add_parsed-Guarded device reader touch force args parsed h =
      let (digits, d, e) = adjust_steam-IsDigits parsed in
      Guarded-bind IsReading (IsImport parsed touch force)
        (lift (uri_initial_counter parsed.kind parsed.counter)) _ h (OnlyQuiet_refl IsReading h)
        (λ counter c.
          let new = from_uri (adjust_steam parsed) counter touch force args in
          Guarded-map IsReading (IsAddition host new) (IsImport parsed touch force) h
            (add_credential host device reader new h)
            (λ before v w.
              IsAddition-IsImport parsed digits counter touch force args before v d
                (uri_initial_counter-eq-ok parsed.kind parsed.counter counter c)
                (subst (λ p. IsAddition host (from_uri p counter touch force args) before v) e w))
            (add_credential-Guarded host device reader new h))
