-- ===== src/Report.antt =====
-- What the program of cmd/kcf/main.c prints and how it exits.
use kcf_old.Base.{ℕ, Option, List, ◌++◌}
use Prim.Native.String.{String}

-- A C string, without its terminating zero.
abbrev pub CString : Type 0
CString = List ℕ

-- What puts and printf are given: the parts of a format, the strings put in, and the string of
-- `kcf_error_string`, where `none` is a null pointer.
pub data Piece : Type 0 where
  text : String → Piece
  name : CString → Piece
  error_text : Option String → Piece

-- How the program ends: it exits with a code and has printed some lines, in this order.
pub data Report : Type 0 where
  exited : ℕ → List (List Piece) → Report
  undefined : Report
  diverged : Report

abbrev pub printing : List (List Piece) → Report → Report
printing lines (exited n more) = exited n (lines ++ more)
printing lines Report.undefined = Report.undefined
printing lines Report.diverged = Report.diverged
