-- ===== src/Base/Io.antt =====
-- Go code that acts on the system: a state, and an error or a panic that ends the function.
use mathlib.Core.Path.{◌≡◌, refl, ap, ◌∙◌}
use mathlib.Core.Bool.{Bool, false}
use mathlib.Core.Option.{Option, none, some}
use Prim.Native.Nat.{ℕ}
use k8slan.Base.Results.{Result, ok, err, panic}
use k8slan.Base.Equality.{◌==◌, nat_eq}
use k8slan.Base.Text.{Text}

-- An `error`: the number of a system call, a link that was not found, and the messages that
-- `fmt.Errorf` makes of another error with `%w` (which keeps it) or without.
pub data Error : Type 0 where
  errno : ℕ → Error
  link_not_found : Error
  wrap : Text → Error → Error
  message : Text → Error

-- `errors.Is(err, number)`
unfoldable pub is_errno : Error → ℕ → Bool
unfolding nat_eq
is_errno (errno k) n = k == n
is_errno link_not_found n = false
is_errno (wrap m e) n = is_errno e n
is_errno (message m) n = false

abbrev pub map_error {ℓ} : {A : Type ℓ} → (Error → Error) → Result Error A → Result Error A
map_error f (ok a) = ok a
map_error f (err e) = err (f e)
map_error f panic = panic

abbrev pub drop_error : Result Error (Unit {0}) → Result Error (Unit {0})
drop_error (ok a) = ok tt
drop_error (err e) = ok tt
drop_error panic = panic

abbrev pub caught {ℓ} : {A : Type ℓ} → Result Error A → Result Error (Result Error A)
caught (ok a) = ok (ok a)
caught (err e) = ok (err e)
caught panic = panic

abbrev pub Io {ℓ κ} : Type ℓ → Type κ → Type (ℓ ⊔ κ)
Io S A = S → Result Error A × S

module _ {ℓ} {S : Type ℓ} where
  abbrev pub pure {κ} : {A : Type κ} → A → Io S A
  pure a s = (ok a, s)

  abbrev pub fail {κ} : {A : Type κ} → Error → Io S A
  fail e s = (err e, s)

  -- What follows an outcome.
  abbrev pub then_run {κ μ} :
      {A : Type κ} {B : Type μ} → (A → Io S B) → Result Error A × S → Result Error B × S
  then_run f (ok a, s) = f a s
  then_run f (err e, s) = (err e, s)
  then_run f (panic, s) = (panic, s)

  infixl 5 ◌>>=◌ ◌>>◌
  abbrev pub ◌>>=◌ {κ μ} : {A : Type κ} {B : Type μ} → Io S A → (A → Io S B) → Io S B
  ◌>>=◌ m f s = then_run f (m s)

  abbrev pub ◌>>◌ {κ} : {B : Type κ} → Io S (Unit {0}) → Io S B → Io S B
  m >> k = m >>= λ _. k

  -- `fmt.Errorf("text … %w", err)` on the error of an action
  abbrev pub wrapping {κ} : {A : Type κ} → Text → Io S A → Io S A
  wrapping text m s = let (r, t) = m s in (map_error (wrap text) r, t)

  -- The same with `%v` or `%q`: the error is only printed.
  abbrev pub printing {κ} : {A : Type κ} → Text → Io S A → Io S A
  printing text m s = let (r, t) = m s in (map_error (λ _. message text) r, t)

  -- A call whose error is dropped.
  abbrev pub ignoring : Io S (Unit {0}) → Io S (Unit {0})
  ignoring m s = let (r, t) = m s in (drop_error r, t)

  -- The error of a call as a value, as in `_, err := f()` followed by a test.
  abbrev pub attempt {κ} : {A : Type κ} → Io S A → Io S (Result Error A)
  attempt m s = let (r, t) = m s in (caught r, t)

  -- `*p`
  abbrev pub deref_io {κ} : {A : Type κ} → Option A → Io S A
  deref_io (some a) s = (ok a, s)
  deref_io none s = (panic, s)

  -- A deferred call runs whatever the outcome, which it does not change.
  abbrev pub deferring {κ} : {A : Type κ} → Io S (Unit {0}) → Io S A → Io S A
  deferring cleanup m s = let (r, t) = m s in (r, (cleanup t).1)

  -- What two actions that succeeded have done.
  pub io_bind_ok {κ μ} :
      {A : Type κ} {B : Type μ} (m : Io S A) (f : A → Io S B) (s : S) {b : B} {t : S}
      → ◌>>=◌ m f s ≡ (ok b, t)
      → (a : A) × (u : S) × (m s ≡ (ok a, u)) × (f a u ≡ (ok b, t))
  io_bind_ok {A} m f s {b} {t} h = split (m s) refl h
    where
      split :
          (r : Result Error A × S)
          → m s ≡ r
          → then_run f r ≡ (ok b, t)
          → (a : A) × (u : S) × (m s ≡ (ok a, u)) × (f a u ≡ (ok b, t))
      split (ok a, u) e h' = (a, u, e, h')
      split (err x, u) e h' = cc
      split (panic, u) e h' = cc

-- What an action has done that succeeded with another text for its error.
mapped_ok :
    {S A : Type 0} (f : Error → Error) (m : Io S A) (s : S) {a : A} {t : S}
    → Path (Result Error A × S) (map_error f (m s).0, (m s).1) (ok a, t)
    → m s ≡ (ok a, t)
mapped_ok {S} {A} f m s {a} {t} h = split (m s) refl h
  where
    split :
        (r : Result Error A × S)
        → m s ≡ r
        → Path (Result Error A × S) (map_error f r.0, r.1) (ok a, t)
        → m s ≡ (ok a, t)
    split (ok x, u) e h' = e ∙ h'
    split (err x, u) e h' = cc
    split (panic, u) e h' = cc

pub printing_ok :
    {S A : Type 0} (text : Text) (m : Io S A) (s : S) {a : A} {t : S}
    → printing text m s ≡ (ok a, t)
    → m s ≡ (ok a, t)
printing_ok text m s h = mapped_ok (λ e. message text) m s h

pub wrapping_ok :
    {S A : Type 0} (text : Text) (m : Io S A) (s : S) {a : A} {t : S}
    → wrapping text m s ≡ (ok a, t)
    → m s ≡ (ok a, t)
wrapping_ok text m s h = mapped_ok (wrap text) m s h

-- What a call did whose outcome was taken as a value.
pub attempt_ok :
    {S A : Type 0} (m : Io S A) (s : S) {a : A} {t : S}
    → attempt m s ≡ (ok (ok a), t)
    → m s ≡ (ok a, t)
attempt_ok {S} {A} m s {a} {t} h = split (m s) refl h
  where
    split :
        (r : Result Error A × S)
        → m s ≡ r
        → Path (Result Error (Result Error A) × S) (caught r.0, r.1) (ok (ok a), t)
        → m s ≡ (ok a, t)
    split (ok x, u) e h' = e ∙ cc
    split (err x, u) e h' = cc
    split (panic, u) e h' = cc

pub attempt_err :
    {S A : Type 0} (m : Io S A) (s : S) {e : Error} {t : S}
    → attempt m s ≡ (ok (err e), t)
    → m s ≡ (err e, t)
attempt_err {S} {A} m s {e} {t} h = split (m s) refl h
  where
    split :
        (r : Result Error A × S)
        → m s ≡ r
        → Path (Result Error (Result Error A) × S) (caught r.0, r.1) (ok (err e), t)
        → m s ≡ (err e, t)
    split (ok x, u) k h' = cc
    split (err x, u) k h' = k ∙ cc
    split (panic, u) k h' = cc

pub deref_io_ok :
    {S A : Type 0} (o : Option A) (s : S) {a : A} {t : S}
    → deref_io o s ≡ (ok a, t)
    → (o ≡ some a) × (s ≡ t)
deref_io_ok none s h = cc
deref_io_ok (some x) s h = (cc, cc)

-- What an action does after one that succeeded.
pub io_bind_run :
    {S A B : Type 0} (m : Io S A) (f : A → Io S B) (s : S) {a : A} {u : S}
    → m s ≡ (ok a, u)
    → ◌>>=◌ m f s ≡ f a u
io_bind_run m f s e = ap (then_run f) e

pub pure_ok :
    {S A : Type 0} {a b : A} {s t : S}
    → Path (Result Error A × S) (ok a, s) (ok b, t)
    → (a ≡ b) × (s ≡ t)
pure_ok h = (cc, cc)

pub deref_io_run :
    {S A : Type 0} {o : Option A} (s : S) {a : A} → o ≡ some a → deref_io o s ≡ (ok a, s)
deref_io_run s e = ap (λ o. deref_io o s) e

-- What an action that reads a pointer first does with it when it succeeds.
pub deref_then :
    {S A B : Type 0} (o : Option A) (k : A → Io S B) (s : S) {b : B} {t : S}
    → ◌>>=◌ (deref_io o) k s ≡ (ok b, t)
    → (a : A) × (o ≡ some a) × (k a s ≡ (ok b, t))
deref_then none k s h = cc
deref_then (some a) k s h = (a, refl, h)

-- What a successful action with a deferred call has done.
pub deferring_ok :
    {S A : Type 0} (cleanup : Io S (Unit {0})) (m : Io S A) (s : S) {a : A} {t : S}
    → deferring cleanup m s ≡ (ok a, t)
    → (u : S) × (m s ≡ (ok a, u)) × ((cleanup u).1 ≡ t)
deferring_ok {S} {A} cleanup m s {a} {t} h = split (m s) refl h
  where
    split :
        (r : Result Error A × S)
        → m s ≡ r
        → Path (Result Error A × S) (r.0, (cleanup r.1).1) (ok a, t)
        → (u : S) × (m s ≡ (ok a, u)) × ((cleanup u).1 ≡ t)
    split (ok x, u) e h' = (u, e ∙ cc, cc)
    split (err x, u) e h' = cc
    split (panic, u) e h' = cc
