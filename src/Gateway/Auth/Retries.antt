-- ===== src/Gateway/Auth/Retries.antt =====
-- The loop of `loadPublicKey` as a relation on its runs, read off the source: the guard
-- `attempt < 10`, the `return`, and the wait of half a second after a failure.
use aiself_healer.Common.{
  ℕ, zero, suc, ◌+◌, ◌*◌, ◌≤◌, ◌<◌, String, Option, none, some, ◌≡◌, ◌⊎◌, ◌∙◌, refl, sym, arith,
  inl, inr,
}
use aiself_healer.Gateway.Auth.{PublicKey}
use aiself_healer.Gateway.Auth.Keys.{
  Fetched, ok, refused, thrown, Imported, imported, Failed, fetch_key, fetch_key_skip,
}

-- the bound of the loop, and the wait in milliseconds
abbrev pub attempts : ℕ
attempts = 10

abbrev pub pause : ℕ
pause = 500

module _ {K : Type 0} (import_spki : String → Imported K) (fetch : String → ℕ → Fetched)
    (url : String) where
  -- From a value of `attempt` the loop makes a number of calls, waits for a time, and returns a
  -- key or is left without one.
  pub data Runs : ℕ → ℕ → ℕ → Option (PublicKey K) → Type 0 where
    leaves : {attempt : ℕ} → attempts ≤ attempt → Runs attempt 0 0 none
    returns :
        {attempt : ℕ} (text : String)
        → attempt < attempts
        → fetch url attempt ≡ ok text
        → Runs attempt 1 0 (some (imported (import_spki text)))
    retries :
        {attempt calls time : ℕ} {found : Option (PublicKey K)}
        → attempt < attempts
        → Failed (fetch url attempt)
        → Runs (attempt + 1) calls time found
        → Runs attempt (calls + 1) (time + pause) found

  -- A run with its bounds: a call for each value of `attempt` at most, and a wait for each call.
  record Bounded (left attempt : ℕ) (found : Option (PublicKey K)) : Type 0 where
    calls : ℕ
    time : ℕ
    run : Runs attempt calls time found
    few : calls ≤ left
    short : time ≤ pause * calls

  Fetched-cases : (f : Fetched) → ((text : String) × (f ≡ ok text)) ⊎ Failed f
  Fetched-cases (ok text) = inl (text, refl)
  Fetched-cases refused = inr (inl refl)
  Fetched-cases thrown = inr (inr refl)

  fetch_key-Bounded :
      (left attempt : ℕ)
      → left + attempt ≡ attempts
      → Bounded left attempt (fetch_key import_spki fetch url left attempt)
  unfolding fetch_key
  fetch_key-Bounded zero attempt e = record {
    calls = 0;
    time = 0;
    run = leaves (omega arith);
    few = omega arith;
    short = omega arith;
  }
  fetch_key-Bounded (suc left) attempt e = elim (Fetched-cases (fetch url attempt)) [
    | inl (text, good) ↦
        rw (good, fetch_key)
          (record {
            calls = 1;
            time = 0;
            run = returns text (omega arith) good;
            few = omega arith;
            short = omega arith;
          })
    | inr bad ↦
        let rest = fetch_key-Bounded left (attempt + 1) (omega arith) in
        rw (fetch_key_skip import_spki fetch url left attempt bad) (record {
          calls = rest.calls + 1;
          time = rest.time + pause;
          run = retries (omega arith) bad rest.run;
          few = omega (arith, rest.few);
          short = omega (arith, rest.short);
        })
  ]

  ok-Failed : (text : String) (f : Fetched) → f ≡ ok text → ¬ Failed f
  ok-Failed text f e (inl r) = ground (arith, e, r)
  ok-Failed text f e (inr r) = ground (arith, e, r)

  -- Whatever run there is, it returns what the function does.
  Runs-fetch_key :
      (left : ℕ) {attempt calls time : ℕ} {found : Option (PublicKey K)}
      → left + attempt ≡ attempts
      → Runs attempt calls time found
      → found ≡ fetch_key import_spki fetch url left attempt
  unfolding fetch_key
  Runs-fetch_key zero e (leaves h) = refl
  Runs-fetch_key zero e (returns text h good) = absurd (omega arith)
  Runs-fetch_key zero e (retries h bad run) = absurd (omega arith)
  Runs-fetch_key (suc left) e (leaves h) = absurd (omega arith)
  Runs-fetch_key (suc left) e (returns text h good) = rw (good, fetch_key) refl
  Runs-fetch_key (suc left) {attempt} e (retries h bad run) =
      Runs-fetch_key left (omega arith) run
      ∙ sym (fetch_key_skip import_spki fetch url left attempt bad)

  -- The loop ends whatever the responses are: it has a run from its start, with ten calls and five
  -- seconds of waiting at most, and every run returns what `fetch_key` gives for ten attempts.
  pub fetch_key-Runs :
      ((calls : ℕ) × (time : ℕ) × Runs 0 calls time (fetch_key import_spki fetch url attempts 0)
        × (calls ≤ attempts)
        × (time ≤ 5000))
      × ((calls time : ℕ) (found : Option (PublicKey K))
          → Runs 0 calls time found
          → found ≡ fetch_key import_spki fetch url attempts 0)
  fetch_key-Runs =
      let b = fetch_key-Bounded attempts 0 refl in
      (
        (b.calls, b.time, b.run, b.few, omega (arith, b.few, b.short)),
        λ calls time found run. Runs-fetch_key attempts refl run,
      )
