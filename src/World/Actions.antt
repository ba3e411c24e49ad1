-- ===== src/World/Actions.antt =====
-- The actions that the Go functions become.
use it_portal_agent.Prelude.{refl, ◌≡◌, ℕ, String, Bool}
use it_portal_agent.World.Errors.{Err, wrap, Result, ok, err, Reply, result, IsPlain, map_err}
use it_portal_agent.World.State.{World, Context, next}

-- A function of the program that returns a value or an error. What it wrote before an error stays.
abbrev pub Action {ℓ} : Type ℓ → Type ℓ
Action A = World → Result A × World

abbrev pub continue {ℓ κ} :
    {A : Type ℓ} {B : Type κ} → Result A → (A → World → Result B × World) → World → Result B × World
continue (ok a) f w = f a w
continue (err e) f w = (err e, w)

infixl 10 ◌>>=◌ ◌>>◌
-- `if err != nil { return err }` after the call of `m`.
abbrev pub ◌>>=◌ {ℓ κ} :
    {A : Type ℓ} {B : Type κ}
    → (World → Result A × World)
    → (A → World → Result B × World)
    → World
    → Result B × World
◌>>=◌ m f w = let (r, w') = m w in continue r f w'

abbrev pub ◌>>◌ {ℓ κ} :
    {A : Type ℓ} {B : Type κ}
    → (World → Result A × World)
    → (World → Result B × World)
    → World
    → Result B × World
m >> n = m >>= λ _. n

pub bind-IsPlain {ℓ κ} :
    {A : Type ℓ} {B : Type κ} (m : Action A) (f : A → Action B) (w : World)
    → IsPlain (m w).0
    → ((a : A) (v : World) → IsPlain (f a v).0)
    → IsPlain ((m >>= f) w).0
bind-IsPlain {A = A} {B = B} m f w p h = go (m w).0 (m w).1 p
  where
    go : (r : Result A) (v : World) → IsPlain r → IsPlain (continue r f v).0
    go (ok a) v q = h a v
    go (err e) v q = q

-- Where a chain returns, its parts do.
pub bind-eq-ok {ℓ κ} :
    {A : Type ℓ} {B : Type κ} (m : Action A) (f : A → Action B) (w : World) (b : B)
    → ((m >>= f) w).0 ≡ ok b
    → (a : A) × ((m w).0 ≡ ok a) × ((f a (m w).1).0 ≡ ok b)
bind-eq-ok {A = A} {B = B} m f w b h = go (m w).0 (m w).1 h
  where
    go :
        (r : Result A) (v : World)
        → (continue r f v).0 ≡ ok b
        → (a : A) × (r ≡ ok a) × ((f a v).0 ≡ ok b)
    go (ok a) v e = (a, refl, e)
    go (err x) v e = absurd (cc)

abbrev pub pure {ℓ} : {A : Type ℓ} → A → Action A
pure a w = (ok a, w)

abbrev pub raise {ℓ} : {A : Type ℓ} → Err → Action A
raise e w = (err e, w)

-- The error as a value, for code that looks at it or drops it.
abbrev pub catch {ℓ} : {A : Type ℓ} → Action A → Action (Result A)
catch m w = let (r, w') = m w in (ok r, w')

-- `return fmt.Errorf("p: %w", err)`
abbrev pub annotate {ℓ} : {A : Type ℓ} → String → Action A → Action A
annotate p m w = let (r, w') = m w in (map_err (wrap p) r, w')

pub annotate-IsPlain {ℓ} :
    {A : Type ℓ} (p : String) (m : Action A) (w : World)
    → IsPlain (m w).0
    → IsPlain (annotate p m w).0
annotate-IsPlain {A = A} p m w h = go (m w).0 h
  where
    go : (r : Result A) → IsPlain r → IsPlain (map_err (wrap p) r)
    go (ok a) q = tt
    go (err e) q = q

-- `_ = m`
abbrev pub ignore {ℓ} : {A : Type ℓ} → Action A → Action (Unit {0})
ignore m w = let (r, w') = m w in (ok tt, w')

-- A reading of the outside at the present moment.
abbrev pub observe {ℓ} : {A : Type ℓ} → (ℕ → A) → Action A
observe f w = (ok (f w.tick), next w)

abbrev pub observe_result {ℓ} : {A : Type ℓ} → (ℕ → Reply A) → Action A
observe_result f w = (result (f w.tick), next w)

-- `ctx.Err() != nil`
abbrev pub is_done : Context → Action Bool
is_done ctx = observe ctx
