-- ===== src/Cli/Oath/Accounts/Consent.antt =====
-- What holds when a command of crates/ckman/src/commands/oath.rs on one account changes the card.
use canokey_manager.Prelude.{
  ℕ, ◌≡◌, ◌∙◌, refl, sym, ap, ◌⊎◌, inl, inr, Bool, true, false, not, Option, none, some, List, [],
  ◌∷◌, ◌++◌, ok, guard, Result-cases, ok_injective, ok_or,
}
use canokey_manager.Cli.Effects.{
  ◌>>=◌, lift, OnlyQuiet, OnlyQuiet_refl, OnlyQuiet_trans, OnlyQuiet-step, Quiet, Quiet-bind,
  Guarded, Guarded-bind, Guarded-then, Guarded-map,
}
use canokey_manager.Cli.Oath.{
  Access, Entry, Change, Question, Event, listed, changed, confirmed, printed, Failure, Host,
}
use canokey_manager.Cli.Oath.Session.{Session, Command, access_of, run_typed, run, connect}
use canokey_manager.Cli.Oath.Session.Reading.{IsReading, connect-Reading, access_of-Reading}
use canokey_manager.Cli.Oath.Search.{single_hit, search}
use canokey_manager.Cli.Oath.Accounts.{
  AccessArgs, print, list_request, list_entries, make_change, accept_answer, ask_user,
  confirm_unless,
}

pub print-Reading : (text : List ℕ) → Quiet IsReading (print text)
print-Reading text h = OnlyQuiet-step IsReading h (printed text) tt

pub guard-eq-ok : {E : Type 0} (b : Bool) (e : E) → guard b e ≡ ok tt → b ≡ true
guard-eq-ok true e h = refl
guard-eq-ok false e h = absurd (cc)

module _ (host : Host) where
  -- The card has listed these accounts, and has not changed since.
  abbrev pub IsListed : List Entry → List Event → Type 0
  IsListed entries h =
      (access : Option Access) × (before : List Event) × (host.list access before ≡ ok entries)
      × OnlyQuiet IsReading (before ++ (listed access ∷ [])) h

  -- The user has said yes to the question.
  abbrev pub IsConfirmed : Question → List Event → Type 0
  IsConfirmed question h =
      (before : List Event) × (host.confirm question before ≡ ok true)
      × OnlyQuiet IsReading (before ++ (confirmed question ∷ [])) h

  -- The one request that changes the card, and what holds before it is sent.
  abbrev pub Sends : Change → (List Event → Type 0) → List Event → Event → Type 0
  Sends change Q before v = (access : Option Access) × (v ≡ changed access change) × Q before

  pub list_entries-Reading : (session : Session) → Quiet IsReading (list_entries host session)
  unfolding list_entries run run_typed
  list_entries-Reading session =
      Quiet-bind IsReading (access_of host session.key) (list_request host)
        (access_of-Reading host session.key)
        (λ access h. OnlyQuiet-step IsReading h (listed access) tt)

  pub list_entries-IsListed :
      (session : Session) (h : List Event) (entries : List Entry)
      → (list_entries host session h).0 ≡ ok entries
      → IsListed entries (list_entries host session h).1
  unfolding list_entries run run_typed
  list_entries-IsListed session h entries e = elim (Result-cases (access_of host session.key h).0) [
    | inr (x, p) ↦ absurd (cc (rw p at e))
    | inl (access, p) ↦ elim (Result-cases (host.list access (access_of host session.key h).1)) [
      | inr (x, q) ↦ absurd (cc (rw (p, q) at e))
      | inl (found, q) ↦ rw p (
        access,
        (access_of host session.key h).1,
        q ∙ ap ok (ok_injective (rw (p, q) at e)),
        OnlyQuiet_refl IsReading _,
      )
    ]
  ]

  pub make_change-Guarded :
      (session : Session) (change : Change) (h : List Event)
      → Guarded IsReading
          (Sends change (OnlyQuiet IsReading h))
          h
          (make_change host session change h)
  unfolding make_change run run_typed
  make_change-Guarded session change h =
      let start = access_of-Reading host session.key h in
      elim (Result-cases (access_of host session.key h).0) [
        | inr (x, p) ↦ rw p (inl start)
        | inl (access, p) ↦ rw p (
            inr
              (_, changed access change, start, (access, refl, start), OnlyQuiet_refl IsReading _))
      ]

  pub confirm_unless-Reading :
      (force : Bool) (question : Question) → Quiet IsReading (confirm_unless host force question)
  confirm_unless-Reading true question = OnlyQuiet_refl IsReading
  confirm_unless-Reading false question =
      Quiet-bind IsReading (ask_user host question) (accept_answer host)
        (λ h. OnlyQuiet-step IsReading h (confirmed question) tt)
        (λ accepted h. OnlyQuiet_refl IsReading h)

  pub confirm_unless-eq-ok :
      (force : Bool) (question : Question) (h : List Event)
      → (confirm_unless host force question h).0 ≡ ok tt
      → (force ≡ true) ⊎ IsConfirmed question (confirm_unless host force question h).1
  confirm_unless-eq-ok true question h e = inl refl
  confirm_unless-eq-ok false question h e = elim (Result-cases (host.confirm question h)) [
    | inr (x, p) ↦ absurd (cc (rw p at e))
    | inl (true, p) ↦ rw p (inr (h, p, OnlyQuiet_refl IsReading _))
    | inl (false, p) ↦ absurd (cc (rw p at e))
  ]

  pub IsListed-later :
      (entries : List Entry) (h h' : List Event)
      → IsListed entries h
      → OnlyQuiet IsReading h h'
      → IsListed entries h'
  IsListed-later entries h h' (access, before, a, quiet) more = (
    access,
    before,
    a,
    OnlyQuiet_trans IsReading (before ++ (listed access ∷ [])) h h' quiet more,
  )

  pub IsConfirmed-later :
      (question : Question) (h h' : List Event)
      → IsConfirmed question h
      → OnlyQuiet IsReading h h'
      → IsConfirmed question h'
  IsConfirmed-later question h h' (before, a, quiet) more =
      (before, a, OnlyQuiet_trans IsReading (before ++ (confirmed question ∷ [])) h h' quiet more)

  -- The user has confirmed, or has forced the change.
  abbrev pub IsWanted : Bool → Question → List Event → Type 0
  IsWanted force question h = (force ≡ true) ⊎ IsConfirmed question h

  pub IsWanted-later :
      (force : Bool) (question : Question) (h h' : List Event)
      → IsWanted force question h
      → OnlyQuiet IsReading h h'
      → IsWanted force question h'
  IsWanted-later force question h h' (inl forced) more = inl forced
  IsWanted-later force question h h' (inr answer) more =
      inr (IsConfirmed-later question h h' answer more)

  -- A change and a line that reports it.
  pub change_and_print-Guarded :
      (W : List Event → Event → Type 0) (session : Session) (change : Change)
      (f : Unit {0} → Command (Unit {0})) (h : List Event)
      → ((a : Unit {0}) → Quiet IsReading (f a))
      → ((before : List Event) (v : Event)
          → Sends change (OnlyQuiet IsReading h) before v
          → W before v)
      → Guarded IsReading W h ((make_change host session change >>= f) h)
  change_and_print-Guarded W session change f h quiet w =
      Guarded-then IsReading W (make_change host session change) f h
        (Guarded-map IsReading (Sends change (OnlyQuiet IsReading h)) W h
          (make_change host session change h) w (make_change-Guarded session change h))
        quiet

  pub single_hit-eq-ok :
      (hits : List Entry) (entry : Entry) → single_hit hits ≡ ok entry → hits ≡ entry ∷ []
  unfolding single_hit
  single_hit-eq-ok [] entry e = absurd (cc)
  single_hit-eq-ok (a ∷ []) entry e = cc
  single_hit-eq-ok (a ∷ b ∷ hits) entry e = absurd (cc)

  -- A command that lists the accounts of a session and goes on with the single hit.
  pub on_single_hit-Guarded :
      (W : List Event → Event → Type 0) (device : Option ℕ) (reader : Option (List ℕ))
      (args : AccessArgs) (query : List ℕ) (f : Session → List Entry → Entry → Command (Unit {0}))
      → ((session : Session) (entries : List Entry) (entry : Entry) (h : List Event)
          → IsListed entries h
          → search host entries query true ≡ entry ∷ []
          → Guarded IsReading W h (f session entries entry h))
      → (h : List Event)
      → Guarded IsReading W h (
          (connect host device reader args.password args.remember >>= λ session.
          list_entries host session >>= λ entries.
          lift (single_hit (search host entries query true)) >>= f session entries)
            h)
  on_single_hit-Guarded W device reader args query f each h =
      Guarded-bind IsReading W (connect host device reader args.password args.remember) _ h
        (connect-Reading host device reader args.password args.remember h)
        (λ session c.
          let h1 = (connect host device reader args.password args.remember h).1 in
          Guarded-bind IsReading W (list_entries host session) _ h1
            (list_entries-Reading session h1)
            (λ entries l.
              let h2 = (list_entries host session h1).1 in
              Guarded-bind IsReading W (lift (single_hit (search host entries query true)))
                (f session entries) h2 (OnlyQuiet_refl IsReading h2)
                (λ entry s.
                  each session entries entry h2 (list_entries-IsListed session h1 entries l)
                    (single_hit-eq-ok (search host entries query true) entry s))))

  pub ok_or-eq-ok :
      {A : Type 0} (o : Option A) (e : Failure) (a : A) → ok_or o e ≡ ok a → o ≡ some a
  ok_or-eq-ok none e a h = absurd (cc)
  ok_or-eq-ok (some b) e a h = cc

  pub not-eq-true : (b : Bool) → not b ≡ true → b ≡ false
  not-eq-true true h = sym h
  not-eq-true false h = refl
