-- ===== src/Cli/Effects.antt =====
-- Actions of a command: they return or fail, and extend the list of the events so far (commands to
-- the card, prompts, files). What the surroundings answer may depend on those events.
use canokey_manager.Prelude.{
  ◌≡◌, refl, sym, ◌∙◌, ap, ◌⊎◌, inl, inr, Bool, true, false, List, [], ◌∷◌, ◌++◌, append_assoc,
  append-nil, Result, ok, err, map_err, Result-cases, All, All-append,
}

abbrev pub Action : Type 0 → Type 0 → Type 0 → Type 0
Action V E A = List V → Result A E × List V

infixl 5 ◌>>=◌ ◌>>◌
abbrev pub continue :
    {V E A B : Type 0} → (A → Action V E B) → Result A E → List V → Result B E × List V
continue f (ok a) h = f a h
continue f (err e) h = (err e, h)

abbrev pub ◌>>=◌ : {V E A B : Type 0} → Action V E A → (A → Action V E B) → Action V E B
◌>>=◌ m f h = continue f (m h).0 (m h).1

abbrev pub ◌>>◌ : {V E B : Type 0} → Action V E (Unit {0}) → Action V E B → Action V E B
m >> k = m >>= λ _. k

abbrev pub pure : {V E A : Type 0} → A → Action V E A
pure a h = (ok a, h)

abbrev pub fail : {V E A : Type 0} → E → Action V E A
fail e h = (err e, h)

abbrev pub lift : {V E A : Type 0} → Result A E → Action V E A
lift r h = (r, h)

-- One event, and what comes of it.
abbrev pub event : {V E A : Type 0} → V → (List V → Result A E) → Action V E A
event v answer h = (answer h, h ++ (v ∷ []))

-- What `?` does to an error that is of another type.
abbrev pub map_failure : {V E F A : Type 0} → (E → F) → Action V E A → Action V F A
map_failure f m h = (map_err f (m h).0, (m h).1)

-- The result as a value, for a `match` on it.
abbrev pub attempt : {V E F A : Type 0} → Action V E A → Action V F (Result A E)
attempt m h = (ok (m h).0, (m h).1)

abbrev pub when : {V E : Type 0} → Bool → Action V E (Unit {0}) → Action V E (Unit {0})
when true m = m
when false m = pure tt

abbrev pub unless : {V E : Type 0} → Bool → E → Action V E (Unit {0})
unless true e = pure tt
unless false e = fail e

-- A successful bind had a successful first part.
pub bind-eq-ok :
    {V E A B : Type 0} (m : Action V E A) (f : A → Action V E B) (h : List V) (b : B)
    → ((m >>= f) h).0 ≡ ok b
    → (a : A) × ((m h).0 ≡ ok a) × ((f a (m h).1).0 ≡ ok b)
bind-eq-ok m f h b e = elim (Result-cases (m h).0) [
  | inl (a, p) ↦ (a, p, rw p at e)
  | inr (x, p) ↦ absurd (cc (rw p at e))
]

module _ {V : Type 0} (IsQuiet : V → Type 0) where
  -- Only quiet events have happened since `h`.
  abbrev pub OnlyQuiet : List V → List V → Type 0
  OnlyQuiet h h' = (sent : List V) × All IsQuiet sent × (h' ≡ h ++ sent)

  pub OnlyQuiet_refl : (h : List V) → OnlyQuiet h h
  OnlyQuiet_refl h = ([], tt, sym (append-nil h))

  pub OnlyQuiet_trans : (h h' h'' : List V) → OnlyQuiet h h' → OnlyQuiet h' h'' → OnlyQuiet h h''
  OnlyQuiet_trans h h' h'' (sent, each, a) (more, others, b) = (
    sent ++ more,
    All-append IsQuiet sent more each others,
    b ∙ ap (λ l. l ++ more) a ∙ append_assoc h sent more,
  )

  pub OnlyQuiet-step : (h : List V) (v : V) → IsQuiet v → OnlyQuiet h (h ++ (v ∷ []))
  OnlyQuiet-step h v q = (v ∷ [], (q, tt), refl)

  abbrev pub Quiet : {E A : Type 0} → Action V E A → Type 0
  Quiet m = (h : List V) → OnlyQuiet h (m h).1

  pub Quiet-bind :
      {E A B : Type 0} (m : Action V E A) (f : A → Action V E B)
      → Quiet m
      → ((a : A) → Quiet (f a))
      → Quiet (m >>= f)
  Quiet-bind m f first rest h = elim (Result-cases (m h).0) [
    | inl (a, p) ↦ rw p (OnlyQuiet_trans h (m h).1 (f a (m h).1).1 (first h) (rest a (m h).1))
    | inr (x, p) ↦ rw p (first h)
  ]

  -- Either only quiet events happened, or one other, which is as `W` says of it and of the events
  -- before it.
  abbrev pub Guarded : {R : Type 0} → (List V → V → Type 0) → List V → R × List V → Type 0
  Guarded W h r =
      OnlyQuiet h r.1
      ⊎ ((before : List V) × (v : V) × OnlyQuiet h before
          × W before v
          × OnlyQuiet (before ++ (v ∷ [])) r.1)

  Guarded-before :
      {R : Type 0} (W : List V → V → Type 0) (h h' : List V) (r : R × List V)
      → OnlyQuiet h h'
      → Guarded W h' r
      → Guarded W h r
  Guarded-before W h h' r first (inl quiet) = inl (OnlyQuiet_trans h h' r.1 first quiet)
  Guarded-before W h h' r first (inr (before, v, quiet, w, after)) =
      inr (before, v, OnlyQuiet_trans h h' before first quiet, w, after)

  Guarded-after :
      {R S : Type 0} (W : List V → V → Type 0) (h : List V) (r : R × List V) (s : S × List V)
      → Guarded W h r
      → OnlyQuiet r.1 s.1
      → Guarded W h s
  Guarded-after W h r s (inl quiet) rest = inl (OnlyQuiet_trans h r.1 s.1 quiet rest)
  Guarded-after W h r s (inr (before, v, quiet, w, after)) rest =
      inr (before, v, quiet, w, OnlyQuiet_trans (before ++ (v ∷ [])) r.1 s.1 after rest)

  pub Guarded-bind :
      {E A B : Type 0} (W : List V → V → Type 0) (m : Action V E A) (f : A → Action V E B)
      (h : List V)
      → OnlyQuiet h (m h).1
      → ((a : A) → (m h).0 ≡ ok a → Guarded W (m h).1 (f a (m h).1))
      → Guarded W h ((m >>= f) h)
  Guarded-bind W m f h first rest = elim (Result-cases (m h).0) [
    | inr (x, p) ↦ rw p (inl first)
    | inl (a, p) ↦ rw p (Guarded-before W h (m h).1 (f a (m h).1) first (rest a p))
  ]

  -- The other way around: what follows is quiet.
  pub Guarded-then :
      {E A B : Type 0} (W : List V → V → Type 0) (m : Action V E A) (f : A → Action V E B)
      (h : List V)
      → Guarded W h (m h)
      → ((a : A) → Quiet (f a))
      → Guarded W h ((m >>= f) h)
  Guarded-then {E = E} {B = B} W m f h first rest = elim (Result-cases (m h).0) [
    | inr (x, p) ↦
        rw p
          (Guarded-after {S = Result B E} W h (m h) (err x, (m h).1) first (OnlyQuiet_refl (m h).1))
    | inl (a, p) ↦ rw p (Guarded-after W h (m h) (f a (m h).1) first (rest a (m h).1))
  ]

  pub Guarded-map :
      {R : Type 0} (W U : List V → V → Type 0) (h : List V) (r : R × List V)
      → ((before : List V) (v : V) → W before v → U before v)
      → Guarded W h r
      → Guarded U h r
  Guarded-map W U h r f (inl quiet) = inl quiet
  Guarded-map W U h r f (inr (before, v, quiet, w, after)) =
      inr (before, v, quiet, f before v w, after)
