-- ===== src/Record/Copying.antt =====
-- `rec_copy`, where malloc gives a block.
use kcf_old.Base.{ℕ, ◌≡◌, refl, ap, List, [], Option, some, none, length, done, ◌>>=◌}
use kcf_old.Env.{Env}
use kcf_old.Errors.{KcfError}
use kcf_old.Record.{KcfRecord, copy_data, rec_copy}
use kcf_old.Record.Layout.{payload}
use kcf_old.Record.Buffers.{memcpy_rest}

copy_data_lem :
    (env : Env) (t : ℕ) (bytes : Option (List ℕ)) (n : ℕ) (block : List ℕ)
    → length (payload bytes) ≡ n
    → env.malloc t n ≡ some block
    → length block ≡ n
    → copy_data env t bytes n ≡ done (KcfError.ok, bytes)
copy_data_lem env t none n block full got room = refl
copy_data_lem env t (some bs) n block full got room =
    rw (got, memcpy_rest [] block (some bs) n full room) refl

-- If Data has DataSize bytes and malloc gives a block of this size, `rec_copy` returns
-- KCF_ERROR_OK and makes an equal record.
pub rec_copy_lem :
    (env : Env) (t : ℕ) (r : KcfRecord) (block : List ℕ)
    → length (payload r.bytes) ≡ r.data_size
    → env.malloc t r.data_size ≡ some block
    → length block ≡ r.data_size
    → rec_copy env t r ≡ done (KcfError.ok, r)
unfolding rec_copy
rec_copy_lem env t r block full got room =
    ap (λ m. m >>= λ p. done (p.0, record r { bytes = p.1 }))
      (copy_data_lem env t r.bytes r.data_size block full got room)
