-- ===== src/Action/Keeping.antt =====
-- Predicates that hold of the state that an action leaves, whether it succeeds or not.
use kcf_old.Base.{◌≡◌, sym, Bool, true, false, Outcome, if◌then◌else◌}
use mathlib.Core.Path.{subst}
use kcf_old.Errors.{KcfError}
use kcf_old.Action.{Result, ok, fail, bind, fail_if}
use kcf_old.Action.{from_outcome}

-- The state that a call leaves, whether it succeeds or not.
abbrev pub Leaves : {St A : Type 0} → Result St A → St → Type 0
Leaves (ok a s) t = s ≡ t
Leaves (fail e s) t = s ≡ t
Leaves Result.undefined t = ⊥
Leaves Result.diverged t = ⊥

pub record Keeps {St A : Type 0} (P : St → Type 0) (r : Result St A) : Type 0 where
  pub kept : (t : St) → Leaves r t → P t

module _ {St A : Type 0} (P : St → Type 0) where
  pub Keeps-ok : {a : A} {s : St} → P s → Keeps P (ok a s)
  Keeps-ok p = record { kept = λ t e. subst P e p }

  pub Keeps-fail : {e : KcfError} {s : St} → P s → Keeps {A = A} P (fail e s)
  Keeps-fail p = record { kept = λ t e. subst P e p }

  pub Keeps-undefined : Keeps {A = A} P Result.undefined
  Keeps-undefined = record { kept = λ t e. absurd e }

  pub Keeps-diverged : Keeps {A = A} P Result.diverged
  Keeps-diverged = record { kept = λ t e. absurd e }

  -- A call that is known to be refused.
  pub Keeps-refused : {r : Result St A} {e : KcfError} {s : St} → r ≡ fail e s → P s → Keeps P r
  Keeps-refused q p = subst (Keeps P) (sym q) (Keeps-fail p)

  pub Keeps-if :
      (b : Bool) {r q : Result St A} → Keeps P r → Keeps P q → Keeps P (if b then r else q)
  Keeps-if true p q = p
  Keeps-if false p q = q

module _ {St A B : Type 0} (P : St → Type 0) where
  pub Keeps-bind :
      (r : Result St A) (f : A → St → Result St B)
      → Keeps P r
      → ((a : A) (t : St) → P t → Keeps P (f a t))
      → Keeps P (bind r f)
  Keeps-bind (ok a t) f k q = q a t (k.kept t (λ i. t))
  Keeps-bind (fail e t) f k q = Keeps-fail P (k.kept t (λ i. t))
  Keeps-bind Result.undefined f k q = Keeps-undefined P
  Keeps-bind Result.diverged f k q = Keeps-diverged P

pub Keeps-fail_if :
    {St : Type 0} (P : St → Type 0) (b : Bool) (e : KcfError) {s : St}
    → P s
    → Keeps P (fail_if b e s)
Keeps-fail_if P true e p = Keeps-fail P p
Keeps-fail_if P false e p = Keeps-ok P p

pub Keeps-from_outcome :
    {St A : Type 0} (P : St → Type 0) (o : Outcome A) {s : St} → P s → Keeps P (from_outcome o s)
Keeps-from_outcome P (Outcome.done a) p = Keeps-ok P p
Keeps-from_outcome P Outcome.undefined p = Keeps-undefined P
