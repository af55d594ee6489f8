-- ===== src/Action.antt =====
-- C functions that change a state and return a KCFERROR, as actions on that state.
pub mod Keeping
use kcf_old.Base.{Bool, true, false, Outcome, done, ◌≡◌, refl}
use kcf_old.Errors.{KcfError}

-- How a call ends: it returns KCF_ERROR_OK with a value, or an error; both with the state that it
-- leaves. `diverged`: a loop has not ended within its fuel.
pub data Result (St : Type 0) (A : Type 0) : Type 0 where
  ok : A → St → Result St A
  fail : KcfError → St → Result St A
  undefined : Result St A
  diverged : Result St A

abbrev pub Action : Type 0 → Type 0 → Type 0
Action St A = St → Result St A

abbrev pub bind : {St A B : Type 0} → Result St A → (A → St → Result St B) → Result St B
bind (ok a s) f = f a s
bind (fail e s) f = fail e s
bind Result.undefined f = Result.undefined
bind diverged f = diverged

pub bind_assoc :
    {St A B C : Type 0} (m : Result St A) (f : A → St → Result St B) (g : B → St → Result St C)
    → bind (bind m f) g ≡ bind m (λ a s. bind (f a s) g)
bind_assoc (ok a s) f g = refl
bind_assoc (fail e s) f g = refl
bind_assoc Result.undefined f g = refl
bind_assoc diverged f g = refl

infixl 5 ◌>>=◌ ◌>>◌
abbrev pub ◌>>=◌ : {St A B : Type 0} → Action St A → (A → Action St B) → Action St B
◌>>=◌ m f s = bind (m s) f

abbrev pub ◌>>◌ : {St B : Type 0} → Action St (Unit {0}) → Action St B → Action St B
m >> k = m >>= λ _. k

abbrev pub pure : {St A : Type 0} → A → Action St A
pure a s = ok a s

abbrev pub gets : {St A : Type 0} → (St → A) → Action St A
gets f s = ok (f s) s

abbrev pub modify : {St : Type 0} → (St → St) → Action St (Unit {0})
modify f s = ok tt (f s)

-- `return e;`
abbrev pub throw : {St A : Type 0} → KcfError → Action St A
throw e s = fail e s

-- `if (test) return e;`
abbrev pub fail_if : {St : Type 0} → Bool → KcfError → Action St (Unit {0})
fail_if true e s = fail e s
fail_if false e s = ok tt s

abbrev pub when : {St : Type 0} → Bool → Action St (Unit {0}) → Action St (Unit {0})
when true m s = m s
when false m s = ok tt s

abbrev pub from_outcome : {St A : Type 0} → Outcome A → Action St A
from_outcome (done a) s = ok a s
from_outcome Outcome.undefined s = Result.undefined

abbrev ignored : {St A : Type 0} → Result St A → Result St (Unit {0})
ignored (ok a s) = ok tt s
ignored (fail e s) = ok tt s
ignored Result.undefined = Result.undefined
ignored diverged = diverged

-- A call whose error is not looked at.
abbrev pub ignoring_error : {St A : Type 0} → Action St A → Action St (Unit {0})
ignoring_error m s = ignored (m s)

abbrev widen : {St R A : Type 0} → R → Result St A → Result (St × R) A
widen r (ok a s) = ok a (s, r)
widen r (fail e s) = fail e (s, r)
widen r Result.undefined = Result.undefined
widen r diverged = diverged

-- A call that does not change the record beside the state.
abbrev pub beside : {St R A : Type 0} → Action St A → Action (St × R) A
beside m (s, r) = widen r (m s)

abbrev narrow : {St R A : Type 0} → Result (St × R) A → Result St (A × R)
narrow (ok a s) = ok (a, s.1) s.0
narrow (fail e s) = fail e s.0
narrow Result.undefined = Result.undefined
narrow diverged = diverged

-- A call with a local record, which begins as `r`.
abbrev pub with_local : {St R A : Type 0} → R → Action (St × R) A → Action St (A × R)
with_local r m s = narrow (m (s, r))

-- What a `goto cleanup` does on every way out.
abbrev cleaned : {St A : Type 0} → (St → St) → Result St A → Result St A
cleaned f (ok a s) = ok a (f s)
cleaned f (fail e s) = fail e (f s)
cleaned f Result.undefined = Result.undefined
cleaned f diverged = diverged

abbrev pub finally : {St A : Type 0} → Action St A → (St → St) → Action St A
finally m f s = cleaned f (m s)

-- Whether a call returns KCF_ERROR_OK.
abbrev pub is_ok : {St A : Type 0} → Result St A → Bool
is_ok (ok a s) = true
is_ok (fail e s) = false
is_ok Result.undefined = false
is_ok diverged = false

pub is_ok-bind :
    {St A B : Type 0} (m : Result St A) (f : A → St → Result St B)
    → ((a : A) (s : St) → is_ok (f a s) ≡ false)
    → is_ok (bind m f) ≡ false
is_ok-bind (ok a s) f never = never a s
is_ok-bind (fail e s) f never = refl
is_ok-bind Result.undefined f never = refl
is_ok-bind diverged f never = refl

pub is_ok-after :
    {St A B : Type 0} (m : Result St A) (f : A → St → Result St B)
    → is_ok m ≡ false
    → is_ok (bind m f) ≡ false
is_ok-after (ok a s) f never = cc
is_ok-after (fail e s) f never = refl
is_ok-after Result.undefined f never = refl
is_ok-after diverged f never = refl
