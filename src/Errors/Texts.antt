-- ===== src/Errors/Texts.antt =====
-- Which text `kcf_error_string` gives.
use kcf_old.Base.{ℕ, ◌≡◌, ◌≢◌, refl, Option, none, some, arith, ℤ, pos, negsuc}
use kcf_old.Base.{List, [], ◌∷◌, if◌then◌else◌, suc, sym, ap, ◌∙◌}
use Prim.Native.String.{String}
use text.Mathlib.Text.{◌==◌ as str_eq}
use kcf_old.Errors.{KcfError, ok, max, code, kcf_error_string}

-- `kcf_error_string` never returns a null pointer, whatever int it is given.
pub kcf_error_string-ne-none : (n : ℤ) → kcf_error_string n ≢ none
unfolding kcf_error_string
kcf_error_string-ne-none (negsuc n) e = cc
kcf_error_string-ne-none (pos n) e = ground arith

-- The place of a text in a table.
abbrev index_in : List String → String → ℕ
index_in [] s = 0
index_in (t ∷ ts) s = if str_eq t s then 0 else suc (index_in ts s)

abbrev texts : List String
texts =
    "Success" ∷ "Unknown error" ∷ "Function not implemented" ∷ "Invalid parameter"
    ∷ "Invalid archive format" ∷ "Invalid data" ∷ "Invalid state" ∷ "File not found"
    ∷ "Access denied" ∷ "Out of memory" ∷ "Write error" ∷ "Read error" ∷ "End of file"
    ∷ "Premature end of file" ∷ []

abbrev index : Option String → ℕ
index none = 14
index (some s) = index_in texts s

index-text : (e : KcfError) → e ≢ max → index (kcf_error_string (pos (code e))) ≡ code e
unfolding kcf_error_string
index-text max h = absurd (h refl)
index-text ok h = refl
index-text _ h = refl

code-injective : (e f : KcfError) → code e ≡ code f → e ≡ f
unfolding code
code-injective ok ok h = refl
code-injective _ _ h = ground arith

-- Two of the library's errors, other than the enumerator that counts them, for which
-- `kcf_error_string` gives the same text are the same error.
pub kcf_error_string-injective :
    (e f : KcfError)
    → e ≢ max
    → f ≢ max
    → kcf_error_string (pos (code e)) ≡ kcf_error_string (pos (code f))
    → e ≡ f
kcf_error_string-injective e f a b h =
    code-injective e f (sym (index-text e a) ∙ ap index h ∙ index-text f b)
