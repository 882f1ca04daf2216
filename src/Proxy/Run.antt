-- ===== src/Proxy/Run.antt =====
-- Code that reads and writes a state and may panic. A panic ends the request: `none`.
use cloudlab_k8s.Prelude.{◌≡◌, refl, ap, Option, none, some}

abbrev pub Run : Type 0 → Type 0 → Type 0
Run S A = S → Option (A × S)

abbrev pub pure : {S A : Type 0} → A → Run S A
pure a s = some (a, s)

abbrev pub panic : {S A : Type 0} → Run S A
panic s = none

infixl 5 ◌>>=◌ ◌>>◌
abbrev pub ◌>>=◌ : {S A B : Type 0} → Run S A → (A → Run S B) → Run S B
◌>>=◌ m f s = elim (m s) [ none ↦ none | some (a, s') ↦ f a s' ]

abbrev pub ◌>>◌ : {S A B : Type 0} → Run S A → Run S B → Run S B
m >> k = m >>= λ _. k

-- Dereferences a pointer that may be nil.
abbrev pub deref : {S A : Type 0} → Option A → Run S A
deref none = panic
deref (some a) = pure a

-- A block whose first step returns goes on from there; one whose first step panics panics.
pub bind_some :
    {S A B : Type 0} (m : Run S A) (f : A → Run S B) (s s' : S) (a : A)
    → m s ≡ some (a, s')
    → (m >>= f) s ≡ f a s'
bind_some m f s s' a e = rw (e, ◌>>=◌)

pub bind_none :
    {S A B : Type 0} (m : Run S A) (f : A → Run S B) (s : S) → m s ≡ none → (m >>= f) s ≡ none
bind_none m f s e = rw (e, ◌>>=◌)

-- A block depends on its first step's outcome only.
pub bind_same :
    {S A B : Type 0} (m n : Run S A) (f : A → Run S B) (s t : S)
    → m s ≡ n t
    → (m >>= f) s ≡ (n >>= f) t
bind_same {S} {A} {B} m n f s t e =
    ap {B = Option (B × S)} (λ o. elim o [ none ↦ none | some (a, s') ↦ f a s' ]) e

-- Every outcome satisfies the condition, and there is no panic.
abbrev pub Returns : {S A : Type 0} → (A → S → Type 0) → Option (A × S) → Type 0
Returns P none = ⊥
Returns P (some (a, s)) = P a s

-- A first step that returns so, and a rest that returns from there.
pub Returns-bind :
    {S A B : Type 0} (P : A → S → Type 0) (Q : B → S → Type 0) (m : Run S A) (f : A → Run S B)
    (s : S)
    → Returns P (m s)
    → ((a : A) (t : S) → P a t → Returns Q (f a t))
    → Returns Q ((m >>= f) s)
Returns-bind {S} {A} {B} P Q m f s h k = go (m s) h
  where
    go :
        (o : Option (A × S))
        → Returns P o
        → Returns {S = S} {A = B} Q (elim o [ none ↦ none | some (a, s') ↦ f a s' ])
    go none h = h
    go (some (a, t)) h = k a t h

-- Blocks that do the same behind one first step.
pub bind_through :
    {S A B C : Type 0} (m : Run S A) (f : A → Run S C) (g : A → Run S B) (h : B → Run S C) (s : S)
    → ((a : A) (t : S) → f a t ≡ (g a >>= h) t)
    → (m >>= f) s ≡ ((m >>= g) >>= h) s
bind_through {S} {A} {B} {C} m f g h s e = go (m s)
  where
    go :
        (o : Option (A × S))
        → Path
            (Option (C × S))
            (elim o [ none ↦ none | some (a, t) ↦ f a t ])
            (elim (elim o as (λ _. Option (B × S)) [ none ↦ none | some (a, t) ↦ g a t ]) [
              | none ↦ none
              | some (b, t) ↦ h b t
            ])
    go none = λ i. none
    go (some (a, t)) = e a t

pub bind_mapped :
    {S A B C : Type 0} (m : Run S A) (f : A → B) (g : B → Run S C) (h : A → Run S C) (s : S)
    → ((a : A) (t : S) → g (f a) t ≡ h a t)
    → ((m >>= λ a. pure (f a)) >>= g) s ≡ (m >>= h) s
bind_mapped {S} {A} {B} {C} m f g h s e = go (m s)
  where
    go :
        (o : Option (A × S))
        → Path
            (Option (C × S))
            (elim (elim o as (λ _. Option (B × S)) [ none ↦ none | some (a, t) ↦ some (f a, t) ]) [
              | none ↦ none
              | some (b, t) ↦ g b t
            ])
            (elim o [ none ↦ none | some (a, t) ↦ h a t ])
    go none = λ i. none
    go (some (a, t)) = e a t

pub Returns-mono :
    {S A : Type 0} (P Q : A → S → Type 0) (o : Option (A × S))
    → Returns P o
    → ((a : A) (t : S) → P a t → Q a t)
    → Returns Q o
Returns-mono P Q none h k = h
Returns-mono P Q (some (a, t)) h k = k a t h

-- Whatever the block returns, it keeps what holds of the state.
abbrev pub Keeps : {S A : Type 0} → (S → Type 0) → Run S A → Type 0
Keeps {S} {A} I m = (a : A) (s t : S) → I s → m s ≡ some (a, t) → I t

-- The two steps behind a block that returns.
pub bind_steps :
    {S A B : Type 0} (m : Run S A) (f : A → Run S B) (s t : S) (b : B)
    → (m >>= f) s ≡ some (b, t)
    → (a : A) × (r : S) × (m s ≡ some (a, r)) × (f a r ≡ some (b, t))
bind_steps {S} {A} {B} m f s t b e = go (m s) refl e
  where
    go :
        (o : Option (A × S))
        → m s ≡ o
        → Path (Option (B × S)) (elim o [ none ↦ none | some (a, r) ↦ f a r ]) (some (b, t))
        → (a : A) × (r : S) × (m s ≡ some (a, r)) × (f a r ≡ some (b, t))
    go none q e = cc
    go (some (a, r)) q e = (a, r, q, e)

pub Keeps-bind :
    {S A B : Type 0} (I : S → Type 0) (m : Run S A) (f : A → Run S B)
    → Keeps I m
    → ((a : A) → Keeps I (f a))
    → Keeps I (m >>= f)
Keeps-bind I m f h k b s t i e =
    let (a, r, first, second) = bind_steps m f s t b e in k a b r t (h a s r i first) second

pub Keeps-pure : {S A : Type 0} (I : S → Type 0) (a : A) → Keeps I (pure {S = S} a)
Keeps-pure {S} {A} I a b s t i e = rw (← state_eq e) i
  where
    state_eq : {a b : A} {s t : S} → Path (Option (A × S)) (some (a, s)) (some (b, t)) → s ≡ t
    state_eq e = cc

pub Keeps-deref : {S A : Type 0} (I : S → Type 0) (o : Option A) → Keeps I (deref {S = S} o)
Keeps-deref I none b s t i e = cc
Keeps-deref I (some a) b s t i e = Keeps-pure I a b s t i e
