-- ===== src/Http/Moves.antt =====
-- What an action does to its store, whatever it returns or throws.
use msa_tuto_server.Base.{◌≡◌, refl, ◌∙◌}
use msa_tuto_server.Http.{Exception, Result, ok, err, M, pure, rethrow, continue, ◌>>=◌}

-- Every run of the action leads from a store to one that `R` relates to it.
pub record Moves {S A : Type 0} (R : S → S → Type 0) (m : M S A) : Type 0 where
  pub run : (s : S) → R s (m s).1

-- A relation that holds of staying and of one move after another.
pub record IsPath {S : Type 0} (R : S → S → Type 0) : Type 0 where
  pub stay : (s : S) → R s s
  pub follow : (s t u : S) → R s t → R t u → R s u

module _ {S : Type 0} {R : S → S → Type 0} (path : IsPath R) where
  module _ {A B : Type 0} where
    continue-Moves :
        (s : S) (r : Result A × S) (f : A → M S B)
        → R s r.1
        → ((a : A) → Moves R (f a))
        → R s (continue r f).1
    continue-Moves s (ok a, t) f h k = path.follow s t _ h ((k a).run t)
    continue-Moves s (err e, t) f h k = h

    pub Moves-bind :
        (m : M S A) (f : A → M S B) → Moves R m → ((a : A) → Moves R (f a)) → Moves R (m >>= f)
    Moves-bind m f h k = record { run = λ s. continue-Moves s (m s) f (h.run s) k }

module _ {S A : Type 0} where
  pub rethrow_state : (g : Exception → Exception) (r : Result A × S) → (rethrow g r).1 ≡ r.1
  rethrow_state g (ok a, s) = refl
  rethrow_state g (err e, s) = refl

  module _ (R : S → S → Type 0) where
    pub Moves-rethrow :
        (g : Exception → Exception) (m : M S A) → Moves R m → Moves R (λ s. rethrow g (m s))
    Moves-rethrow g m h = record { run = λ s. rw (rethrow_state g (m s)) (h.run s) }

    -- An action that is picked by what the store holds.
    pub Moves-picked :
        (g : Exception → Exception) (f : S → M S A)
        → ((s : S) → Moves R (f s))
        → Moves R (λ s. rethrow g (f s s))
    Moves-picked g f h = record { run = λ s. rw (rethrow_state g (f s s)) ((h s).run s) }

pub pure_state :
    {S A B : Type 0} (r : Result A × S) (f : A → B) → (continue r (λ a. pure (f a))).1 ≡ r.1
pure_state (ok a, s) f = refl
pure_state (err e, s) f = refl

-- Nothing is written.
abbrev pub Stays : {S : Type 0} → S → S → Type 0
Stays s t = t ≡ s

pub Stays-IsPath : {S : Type 0} → IsPath (Stays {S = S})
Stays-IsPath = record { stay = λ s. refl; follow = λ s t u h k. k ∙ h }
