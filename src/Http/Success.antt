-- ===== src/Http/Success.antt =====
-- What must have gone well for an action to return.
use msa_tuto_server.Base.{◌≡◌, refl}
use msa_tuto_server.Http.{Exception, Result, ok, err, M, rethrow, continue}

module _ {S A : Type 0} where
  pub rethrow-ok :
      (g : Exception → Exception) (r : Result A × S) (a : A) (s : S)
      → rethrow g r ≡ (ok a, s)
      → r ≡ (ok a, s)
  rethrow-ok g (ok b, t) a s h = h
  rethrow-ok g (err e, t) a s h = absurd (cc h)

-- The first action of two returned a value, with which the second returned.
pub record Passed {S A B : Type 0} (r : Result A × S) (f : A → M S B) (b : B) (s : S) : Type 0 where
  pub value : A
  pub between : S
  pub first : r ≡ (ok value, between)
  pub second : f value between ≡ (ok b, s)

module _ {S A B : Type 0} where
  pub continue-Passed :
      (r : Result A × S) (f : A → M S B) (b : B) (s : S) → continue r f ≡ (ok b, s) → Passed r f b s
  continue-Passed (ok a, t) f b s h = record { value = a; between = t; first = refl; second = h }
  continue-Passed (err e, t) f b s h = absurd (cc h)
