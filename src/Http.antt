-- ===== src/Http.antt =====
-- The exceptions that the services throw, and the two shapes of fallible code: a `Result` for code
-- that keeps no state, and `M S` for `async` methods over a store `S`. What a method wrote before it
-- threw stays written.
pub mod Moves
pub mod Success
pub mod Reports
pub mod PlainErrors
use msa_tuto_server.Base.{String}

pub data Exception : Type 0 where
  bad_request unauthorized forbidden not_found conflict request_timeout internal :
      String → Exception
  -- any other `Error`: a driver's failure, a `TypeError`
  failure : String → Exception

pub data Result {ℓ} (A : Type ℓ) : Type ℓ where
  ok : A → Result A
  err : Exception → Result A

abbrev pub M {ℓ} : Type ℓ → Type ℓ → Type ℓ
M S A = S → Result A × S

module _ {ℓ} {S A : Type ℓ} where
  abbrev pub pure : A → M S A
  pure a s = (ok a, s)

  abbrev pub throw : Exception → M S A
  throw e s = (err e, s)

  abbrev pub lift : Result A → M S A
  lift r s = (r, s)

  -- The catch clause turns an exception into another one, or throws it again.
  abbrev pub rethrow : (Exception → Exception) → Result A × S → Result A × S
  rethrow f (ok a, s) = (ok a, s)
  rethrow f (err e, s) = (err (f e), s)

module _ {ℓ} {S A B : Type ℓ} where
  abbrev pub continue : Result A × S → (A → M S B) → Result B × S
  continue (ok a, s) f = f a s
  continue (err e, s) f = (err e, s)

  infixl 10 ◌>>=◌ ◌>>◌
  abbrev pub ◌>>=◌ : M S A → (A → M S B) → M S B
  ◌>>=◌ m f s = continue (m s) f

  abbrev pub ◌>>◌ : M S A → M S B → M S B
  m >> n = m >>= λ _. n
