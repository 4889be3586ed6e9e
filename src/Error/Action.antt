-- ===== src/Error/Action.antt =====
-- Runs of Rust code over a state that outlives an error: the outcome, and the state after it.
use surreal_knowledge_base.Base.{◌≡◌, refl, ap, ap₂}
use surreal_knowledge_base.Error.{SkbError, Outcome, ok, err, panic, out_of_fuel, ok-injective}

abbrev pub Action : Type 0 → Type 0 → Type 0
Action S A = S → Outcome SkbError A × S

module _ {S : Type 0} where
  -- On with the value, from the state after the first action; an error ends the run there.
  abbrev pub onward :
      {A B : Type 0} → (A → Action S B) → Outcome SkbError A × S → Outcome SkbError B × S
  onward next (ok a, s) = next a s
  onward next (err e, s) = (err e, s)
  onward next (panic, s) = (panic, s)
  onward next (out_of_fuel, s) = (out_of_fuel, s)

  infixl 5 ◌▸◌ ◌⨾◌
  abbrev pub ◌▸◌ : {A B : Type 0} → Action S A → (A → Action S B) → Action S B
  (m ▸ next) s = onward next (m s)

  abbrev pub ◌⨾◌ : {B : Type 0} → Action S (Unit {0}) → Action S B → Action S B
  m ⨾ next = m ▸ λ _. next

  abbrev pub return : {A : Type 0} → A → Action S A
  return a s = (ok a, s)

  -- An outcome that does not depend on the state.
  abbrev pub of_outcome : {A : Type 0} → Outcome SkbError A → Action S A
  of_outcome o s = (o, s)

  -- What only reads the state.
  abbrev pub reading : {A : Type 0} → (S → Outcome SkbError A) → Action S A
  reading read s = (read s, s)

  -- The state after a statement: a new one if it was accepted, the old one if not.
  abbrev pub settled : {A : Type 0} → S → Outcome SkbError (A × S) → Outcome SkbError A × S
  settled s (ok (a, t)) = (ok a, t)
  settled s (err e) = (err e, s)
  settled s panic = (panic, s)
  settled s out_of_fuel = (out_of_fuel, s)

  abbrev pub written : S → Outcome SkbError S → Outcome SkbError (Unit {0}) × S
  written s (ok t) = (ok tt, t)
  written s (err e) = (err e, s)
  written s panic = (panic, s)
  written s out_of_fuel = (out_of_fuel, s)

  -- What changes the state only when it succeeds: a statement, or a transaction.
  abbrev pub writing : (S → Outcome SkbError S) → Action S (Unit {0})
  writing write s = written s (write s)

  abbrev pub transaction : {A : Type 0} → (S → Outcome SkbError (A × S)) → Action S A
  transaction run s = settled s (run s)

  -- A run that ends in a value went on from a value of its first action.
  pub onward-eq-ok :
      {A B : Type 0} (next : A → Action S B) (p : Outcome SkbError A × S) (r : B) (t : S)
      → onward next p ≡ (ok r, t)
      → (a : A) × (u : S) × (p ≡ (ok a, u)) × (next a u ≡ (ok r, t))
  onward-eq-ok next (ok a, u) r t h = (a, u, refl, h)
  onward-eq-ok next (err e, u) r t h = cc
  onward-eq-ok next (panic, u) r t h = cc
  onward-eq-ok next (out_of_fuel, u) r t h = cc

  -- A statement that has a value was accepted.
  pub written-eq-ok :
      (s : S) (o : Outcome SkbError S) (r : Unit {0}) (t : S) → written s o ≡ (ok r, t) → o ≡ ok t
  written-eq-ok s (ok u) r t h = ap (λ p. ok p.1) h
  written-eq-ok s (err e) r t h = cc
  written-eq-ok s panic r t h = cc
  written-eq-ok s out_of_fuel r t h = cc

  pub settled-eq-ok :
      {A : Type 0} (s : S) (o : Outcome SkbError (A × S)) (r : A) (t : S)
      → settled s o ≡ (ok r, t)
      → o ≡ ok (r, t)
  settled-eq-ok s (ok (a, u)) r t h =
      ap₂ (λ x y. ok (x, y)) (ok-injective (ap (λ p. p.0) h)) (ap (λ p. p.1) h)
  settled-eq-ok s (err e) r t h = cc
  settled-eq-ok s panic r t h = cc
  settled-eq-ok s out_of_fuel r t h = cc

  -- An action keeps a property of the state, however it ends.
  pub record Keeps {A : Type 0} (P : S → Type 0) (m : Action S A) : Type 0 where
    pub kept : (s : S) → P s → P (m s).1

  onward-kept :
      {A B : Type 0} (P : S → Type 0) (next : A → Action S B) (p : Outcome SkbError A × S)
      → P p.1
      → ((a : A) → Keeps P (next a))
      → P (onward next p).1
  onward-kept P next (ok a, u) h keeps = (keeps a).kept u h
  onward-kept P next (err e, u) h keeps = h
  onward-kept P next (panic, u) h keeps = h
  onward-kept P next (out_of_fuel, u) h keeps = h

  pub bind-Keeps :
      {A B : Type 0} (P : S → Type 0) (m : Action S A) (next : A → Action S B)
      → Keeps P m
      → ((a : A) → Keeps P (next a))
      → Keeps P (m ▸ next)
  bind-Keeps P m next first rest = record {
    kept = λ s h. onward-kept P next (m s) (first.kept s h) rest;
  }

  pub chain-Keeps :
      {B : Type 0} (P : S → Type 0) (m : Action S (Unit {0})) (next : Action S B)
      → Keeps P m
      → Keeps P next
      → Keeps P (m ⨾ next)
  chain-Keeps P m next first rest = bind-Keeps P m (λ _. next) first (λ _. rest)

  pub return-Keeps : {A : Type 0} (P : S → Type 0) (a : A) → Keeps P (return a)
  return-Keeps P a = record { kept = λ s h. h }

  pub of_outcome-Keeps :
      {A : Type 0} (P : S → Type 0) (o : Outcome SkbError A) → Keeps P (of_outcome o)
  of_outcome-Keeps P o = record { kept = λ s h. h }

  pub written-kept :
      (P : S → Type 0) (s : S) (o : Outcome SkbError S)
      → P s
      → ((t : S) → o ≡ ok t → P t)
      → P (written s o).1
  written-kept P s (ok t) h accepted = accepted t refl
  written-kept P s (err e) h accepted = h
  written-kept P s panic h accepted = h
  written-kept P s out_of_fuel h accepted = h

  pub settled-kept :
      {A : Type 0} (P : S → Type 0) (s : S) (o : Outcome SkbError (A × S))
      → P s
      → ((r : A × S) → o ≡ ok r → P r.1)
      → P (settled s o).1
  settled-kept P s (ok r) h accepted = accepted r refl
  settled-kept P s (err e) h accepted = h
  settled-kept P s panic h accepted = h
  settled-kept P s out_of_fuel h accepted = h

  -- What only reads leaves the state to what follows.
  pub reading-eq-ok :
      {A B : Type 0} (next : A → Action S B) (o : Outcome SkbError A) (s : S) (r : B) (t : S)
      → onward next (o, s) ≡ (ok r, t)
      → (a : A) × (o ≡ ok a) × (next a s ≡ (ok r, t))
  reading-eq-ok next (ok a) s r t h = (a, refl, h)
  reading-eq-ok next (err e) s r t h = cc
  reading-eq-ok next panic s r t h = cc
  reading-eq-ok next out_of_fuel s r t h = cc

  -- The same of a chain whose second part does not take the value.
  pub chain-eq-ok :
      {B : Type 0} (m : Action S (Unit {0})) (next : Action S B) (s : S) (r : B) (t : S)
      → (m ⨾ next) s ≡ (ok r, t)
      → (u : S) × (m s ≡ (ok tt, u)) × (next u ≡ (ok r, t))
  chain-eq-ok m next s r t h =
      let (_, u, first, rest) = onward-eq-ok (λ _. next) (m s) r t h in (u, first, rest)
