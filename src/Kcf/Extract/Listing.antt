-- ===== src/Kcf/Extract/Listing.antt =====
-- `KCF_get_current_file_info`, whose callees return true for success.
use kcf_old.Base.{
  List, length, ◌+◌, ℕ, ◌≡◌, refl, Bool, true, false, not, Option, some, none, ◌==◌, ◌||◌,
  Bool-cases, inl, inr,
}
use kcf_old.Env.{Env, AlwaysAllocates}
use kcf_old.Errors.{invalid_parameter}
use kcf_old.Action.{beside, with_local, fail_if, is_ok, is_ok-bind}
use kcf_old.FileInfo.{KcfFileInfo, file_info_copy, copy_with_name}
use kcf_old.Kcf.{Kcf, blank_record, upstate_file_header, upstate_file_data, upstate_after_file_data}
use kcf_old.Kcf.Read.{kcf_read_record}
use kcf_old.Kcf.Extract.{
  convert, copy_current, file_info_at, read_file_info, kcf_get_current_file_info,
}

copy_with_name-true :
    (env : Env) (t : ℕ) (dest src : KcfFileInfo) (name : Option (List ℕ))
    → AlwaysAllocates env
    → (copy_with_name env t dest src name).0 ≡ true
copy_with_name-true env t dest src none alloc = refl
copy_with_name-true env t dest src (some name) alloc =
    let (block, got, size) = alloc t (length name + 1) in rw got refl

file_info_copy-true :
    (env : Env) (t : ℕ) (dest src : KcfFileInfo)
    → AlwaysAllocates env
    → (file_info_copy env t dest src).0 ≡ true
unfolding file_info_copy
file_info_copy-true env t dest src alloc = copy_with_name-true env t _ src src.file_name alloc

module _ {S : Type 0} (env : Env) (alloc : AlwaysAllocates env) where
  read_file_info-is_ok : (s : Kcf S × KcfFileInfo) → is_ok (read_file_info env s) ≡ false
  unfolding read_file_info
  read_file_info-is_ok s =
      is_ok-bind (beside (with_local blank_record (kcf_read_record env true)) s) _ λ p s'.
        is_ok-bind (convert env p.1 s'.1 s') _
          λ u t. rw (file_info_copy-true env t.0.mallocs t.0.current_file t.1 alloc) refl

  copy_current-is_ok : (s : Kcf S × KcfFileInfo) → is_ok (copy_current env s) ≡ false
  copy_current-is_ok s = rw (file_info_copy-true env s.0.mallocs s.1 s.0.current_file alloc) refl

  at_stage : (s : Kcf S × KcfFileInfo) → is_ok (file_info_at env s.0.stage s) ≡ false
  at_stage s = elim (Bool-cases (s.0.stage == upstate_file_header)) [
    | inl header ↦ rw header (read_file_info-is_ok s)
    | inr other ↦
        elim (Bool-cases (s.0.stage == upstate_file_data || s.0.stage == upstate_after_file_data)) [
          | inl kept ↦ rw (other, kept) (copy_current-is_ok s)
          | inr neither ↦ rw (other, neither) refl
        ]
  ]

  -- If malloc never fails, `kcf_get_current_file_info` never returns KCF_ERROR_OK, from any state
  -- of the archive and of its stream: on the paths that succeed it returns the true of
  -- `file_info_copy` as an error code.
  pub kcf_get_current_file_info-is_ok :
      (nonnull : Bool) (s : Kcf S × KcfFileInfo)
      → is_ok (kcf_get_current_file_info env nonnull s) ≡ false
  unfolding kcf_get_current_file_info
  kcf_get_current_file_info-is_ok nonnull s =
      is_ok-bind (fail_if (not nonnull) invalid_parameter s) _ λ u t. at_stage t
