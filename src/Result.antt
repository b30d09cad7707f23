-- ===== src/Result.antt =====
-- src/common/exceptions.h: a `DbException` as a value, by what it reports, and chains of steps that
-- may throw. `undefined` stands for what C++ leaves undefined, such as a read of an unset variable.
pub mod Laws

pub data DbException : Type 0 where
  xid_not_found size_unspecified unknown_type index_out_of_range record_too_large : DbException
  type_mismatch type_unsupported unknown_text lock_failed xid_exists log_read_failed : DbException
  entry_not_found object_unsupported page_read_failed : DbException

pub data Result {ℓ} (A : Type ℓ) : Type ℓ where
  ok : A → Result A
  throw : DbException → Result A
  undefined : Result A

infixl 5 ◌>>=◌
abbrev pub ◌>>=◌ {ℓ κ} : {A : Type ℓ} {B : Type κ} → Result A → (A → Result B) → Result B
ok a >>= f = f a
throw e >>= f = throw e
undefined >>= f = undefined
