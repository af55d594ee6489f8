-- ===== src/Unpacking/Ends.antt =====
-- How `unpack` of cmd/kcf/main.c ends.
use kcf_old.Base.{
  ℕ, zero, suc, ◌<◌, ◌≡◌, refl, arith, Bool, true, false, some, List, [], ◌∷◌, ℤ, pos, Bool-cases,
  Option-cases, inl, inr, ◌==◌,
}
use kcf_old.Report.{CString, Report, exited}
use kcf_old.Unpacking.{Unpacker, is_error, unpacking, failed_to_unpack, unpack_files, unpack}

-- `UnpackCurrentFile` succeeds `n` times from `w` on and then returns the error `e` in `w'`.
pub data FailsAfter {W : Type 0} (u : Unpacker W) : ℕ → W → ℤ → W → Type 0 where
  stops :
      {w w' : W} {e : ℤ}
      → u.unpack_current_file w ≡ (e, w')
      → is_error e ≡ true
      → FailsAfter u zero w e w'
  goes_on :
      {n : ℕ} {w v w' : W} {e : ℤ}
      → u.unpack_current_file w ≡ (pos 0, v)
      → FailsAfter u n v e w'
      → FailsAfter u (suc n) w e w'

module _ {W : Type 0} (u : Unpacker W) where
  unpack_files-fails :
      (rounds : ℕ) {n : ℕ} {w w' : W} {e : ℤ}
      → FailsAfter u n w e w'
      → n < rounds
      → unpack_files u rounds w ≡ some (e, w')
  unfolding unpack_files
  unpack_files-fails zero f enough = absurd (omega arith)
  unpack_files-fails (suc rounds) (stops now error) enough = rw (now, error) refl
  unpack_files-fails (suc rounds) (goes_on now f) enough =
      rw now (unpack_files-fails rounds f (omega arith))

  FailsAfter-error : {n : ℕ} {w w' : W} {e : ℤ} → FailsAfter u n w e w' → is_error e ≡ true
  FailsAfter-error (stops now error) = error
  FailsAfter-error (goes_on now f) = FailsAfter-error f

  pub unpack-fails :
      (rounds : ℕ) (program archive : CString) (arguments : List CString) (w v x w' : W) (n : ℕ)
      (e : ℤ)
      → u.create_archive w archive ≡ (pos 0, v)
      → u.record_to_archive_header (u.read_record (u.scan_archive_for_marker v)) ≡ (pos 0, x)
      → FailsAfter u n x e w'
      → n < rounds
      → unpack u rounds w program (archive ∷ arguments) ≡ (
        exited 1 (unpacking ∷ failed_to_unpack program archive (u.get_kcf_error_string e) ∷ []),
        u.close_archive w',
      )
  unfolding unpack
  unpack-fails rounds program archive arguments w v x w' n e created header fails enough =
      rw (created, header, unpack_files-fails rounds fails enough, FailsAfter-error fails) refl

  -- The loop ends only with an error.
  unpack_files-is_error :
      (rounds : ℕ) (w w' : W) (e : ℤ) → unpack_files u rounds w ≡ some (e, w') → is_error e ≡ true
  unfolding unpack_files
  unpack_files-is_error zero w w' e h = cc
  unpack_files-is_error (suc rounds) w w' e h =
      let (error, v) = u.unpack_current_file w in
      elim (Bool-cases (is_error error)) [
        | inl failed ↦ (let h' = rw failed at h in ground arith)
        | inr fine ↦ unpack_files-is_error rounds v w' e (rw fine at h)
      ]

-- Whether the program exits with 0.
abbrev pub succeeds : Report → Bool
succeeds (exited n lines) = n == 0
succeeds Report.undefined = false
succeeds Report.diverged = false

module _ {W : Type 0} (u : Unpacker W) where
  pub unpack-succeeds :
      (rounds : ℕ) (w : W) (program : CString) (arguments : List CString)
      → succeeds (unpack u rounds w program arguments).0 ≡ false
  unfolding unpack
  unpack-succeeds rounds w program [] = refl
  unpack-succeeds rounds w program (archive ∷ arguments) =
      let (error, v) = u.create_archive w archive in
      let (error', x) = u.record_to_archive_header (u.read_record (u.scan_archive_for_marker v)) in
      elim (Bool-cases (is_error error)) [
        | inl failed ↦ rw failed refl
        | inr fine ↦ elim (Bool-cases (is_error error')) [
          | inl failed ↦ rw (fine, failed) refl
          | inr fine' ↦
              rw (fine, fine')
                (elim (Option-cases (unpack_files u rounds x)) [
                  | inl running ↦ rw running refl
                  | inr ((e, w'), ended) ↦
                      rw (ended, unpack_files-is_error u rounds x w' e ended) refl
                ])
        ]
      ]
