-- ===== src/CtapHid/Channel/Replies.antt =====
-- What the waiting loops of crates/ckman-transport/src/ctaphid.rs return.
use canokey_manager.Prelude.{
  ℕ, ◌≡◌, ◌≢◌, refl, ap, Option, none, List, [], ◌∷◌, ◌++◌, ◌==◌, if◌then◌else◌, Result, Bool-cases,
  inl, inr,
}
use mathlib.Core.Path.{fun_ext}
use canokey_manager.CtapHid.Wire.{Command, Keepalive, CtapHidError}
use canokey_manager.CtapHid.Decoder.{MessageDecoder, push}
use canokey_manager.CtapHid.Channel.{
  Arrival, expired, silent, failed, report, Round, next, done, cid_of, report_round, answer_round,
  follow, wait_loop,
}

-- The arrivals without the reports of other channels.
abbrev pub own : ℕ → List Arrival → List Arrival
own cid [] = []
own cid (report r ∷ rest) = if cid_of r == cid then report r ∷ own cid rest else own cid rest
own cid (expired ∷ rest) = expired ∷ own cid rest
own cid (silent ∷ rest) = silent ∷ own cid rest
own cid (failed e ∷ rest) = failed e ∷ own cid rest

abbrev pub IsStop : Arrival → Type 0
IsStop (report r) = ⊥
IsStop expired = Unit
IsStop silent = Unit
IsStop (failed e) = Unit

follow-ne-none {ℓ} :
    {A : Type ℓ} (round : Round A)
    (loop : MessageDecoder → Option (Result A CtapHidError) × List Keepalive)
    → ((d : MessageDecoder) → (loop d).0 ≢ none)
    → (follow round loop).0 ≢ none
unfolding follow
follow-ne-none (done result) loop h = λ e. cc
follow-ne-none (next d statuses) loop h = h d

module _ {ℓ} {A : Type ℓ} (on_message : Command → List ℕ → MessageDecoder → Round A) where
  -- Traffic of other channels changes nothing.
  pub wait_loop-own :
      (cid : ℕ) (d : MessageDecoder) (arrivals : List Arrival)
      → wait_loop on_message cid d arrivals ≡ wait_loop on_message cid d (own cid arrivals)
  unfolding wait_loop report_round
  wait_loop-own cid d [] = refl
  wait_loop-own cid d (expired ∷ rest) = refl
  wait_loop-own cid d (silent ∷ rest) = refl
  wait_loop-own cid d (failed e ∷ rest) = refl
  wait_loop-own cid d (report r ∷ rest) = elim (Bool-cases (cid_of r == cid)) [
    | inl e ↦ rw e (
        rw e (
          ap (follow (answer_round on_message (push d r)))
            (fun_ext λ d'. wait_loop-own cid d' rest)))
    | inr e ↦ rw e (wait_loop-own cid d rest)
  ]

  -- A loop whose script holds an expired deadline, a silent read or a failed read returns.
  pub wait_loop-returns :
      (cid : ℕ) (d : MessageDecoder) (before after : List Arrival) (stop : Arrival)
      → IsStop stop
      → (wait_loop on_message cid d (before ++ (stop ∷ after))).0 ≢ none
  unfolding wait_loop
  wait_loop-returns cid d [] after expired h = λ e. cc
  wait_loop-returns cid d [] after silent h = λ e. cc
  wait_loop-returns cid d [] after (failed x) h = λ e. cc
  wait_loop-returns cid d [] after (report r) h = absurd h
  wait_loop-returns cid d (expired ∷ before) after stop h = λ e. cc
  wait_loop-returns cid d (silent ∷ before) after stop h = λ e. cc
  wait_loop-returns cid d (failed x ∷ before) after stop h = λ e. cc
  wait_loop-returns cid d (report r ∷ before) after stop h =
      follow-ne-none (report_round on_message cid d r) _
        (λ d'. wait_loop-returns cid d' before after stop h)
