-- ===== src/Errors.antt =====
-- kcf/errors.c and include/kcf/errors.h: the error codes, their texts, and the errors of stdio.
pub mod Texts
use kcf_old.Base.{
  ℕ, zero, suc, ◌+◌, ◌≡◌, refl, Bool, true, false, ◌||◌, Option, none, some, arith, ltb, leb,
}
use kcf_old.Base.{◌==◌, if◌then◌else◌, ℤ, pos, negsuc}
use Prim.Native.String.{String}

-- enum KcfError. `max` is KCF_ERROR_MAX, the number of the errors.
pub data KcfError : Type 0 where
  ok unknown not_implemented invalid_parameter invalid_format invalid_data invalid_state : KcfError
  file_not_found access_denied out_of_memory write read eof premature_eof max : KcfError

-- The value of an enumerator.
unfoldable pub code : KcfError → ℕ
code ok = 0
code unknown = 1
code not_implemented = 2
code invalid_parameter = 3
code invalid_format = 4
code invalid_data = 5
code invalid_state = 6
code file_not_found = 7
code access_denied = 8
code out_of_memory = 9
code write = 10
code read = 11
code eof = 12
code premature_eof = 13
code max = 14

-- `_KcfErrorStrings`: the table's entry at an index; `none` is the null pointer of an entry that is
-- not initialised, or no entry.
error_strings : ℕ → Option String
error_strings i =
    if i == 0
    then some "Success"
    else if i == 1
    then some "Unknown error"
    else if i == 2
    then some "Function not implemented"
    else if i == 3
    then some "Invalid parameter"
    else if i == 4
    then some "Invalid archive format"
    else if i == 5
    then some "Invalid data"
    else if i == 6
    then some "Invalid state"
    else if i == 7
    then some "File not found"
    else if i == 8
    then some "Access denied"
    else if i == 9
    then some "Out of memory"
    else if i == 10
    then some "Write error"
    else if i == 11
    then some "Read error"
    else if i == 12
    then some "End of file"
    else if i == 13
    then some "Premature end of file"
    else none

-- `kcf_error_string`, on any int that a KCFERROR may hold.
pub kcf_error_string : ℤ → Option String
unfolding error_strings code
kcf_error_string (negsuc n) = error_strings (code unknown)
kcf_error_string (pos n) =
    if ltb n (code ok) || leb (code max) n then error_strings (code unknown) else error_strings n

-- The values of errno that `kcf_errno` tells apart; they are the C library's.
pub record Errno : Type 0 where
  pub enoent : ℕ
  pub eacces : ℕ
  pub einval : ℕ
  pub enomem : ℕ

-- `kcf_errno`, as a function of the value of errno.
pub kcf_errno : Errno → ℕ → KcfError
kcf_errno e error =
    if error == e.enoent
    then file_not_found
    else if error == e.eacces
    then access_denied
    else if error == e.einval
    then invalid_parameter
    else if error == e.enomem
    then out_of_memory
    else unknown

-- enum KcfFileSituation
pub data Situation : Type 0 where
  reading_in_beginning reading_in_middle writing : Situation

-- A FILE, as far as `kcf_file_error` asks: its error and end-of-file indicators.
pub record FileStatus : Type 0 where
  pub ferror : Bool
  pub feof : Bool

situation_error : FileStatus → Situation → KcfError
situation_error f writing = if f.ferror then write else ok
situation_error f reading_in_beginning = if f.ferror then read else if f.feof then eof else ok
situation_error f reading_in_middle =
    if f.ferror then read else if f.feof then premature_eof else ok

-- `kcf_file_error`; `none` is a null FILE pointer.
pub kcf_file_error : Option FileStatus → Situation → KcfError
unfolding situation_error
kcf_file_error none s = ok
kcf_file_error (some f) s = situation_error f s
