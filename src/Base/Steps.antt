-- ===== src/Base/Steps.antt =====
-- What a method may do to its object: a relation between the states before and after it, whether it
-- returns or throws, with one rule for each way to build a method. An invariant `P` is the relation
-- `λ s t. P s → P t`.
use mathlib.Core.Bool.{Bool, false, true}
use mathlib.Core.Path.{refl, ◌≡◌}
use rif_relay.Base.Exec.{
  Error, Exec, Result, catch, continue, err, gets, lift, ok, pure, raise, require, ◌>>=◌,
}
use rif_relay.Base.Tests.{if◌then◌else◌}

pub record Steps {S A : Type 0} (R : S → S → Type 0) (m : Exec S A) : Type 0 where
  pub at : (s : S) → R s (m s).1

pub record IsPreorder {S : Type 0} (R : S → S → Type 0) : Type 0 where
  pub same : (s : S) → R s s
  pub then_ : (s t u : S) → R s t → R t u → R s u

-- An invariant as a relation.
abbrev pub Keeps : {S : Type 0} → (S → Type 0) → S → S → Type 0
Keeps P s t = P s → P t

pub Keeps-IsPreorder : {S : Type 0} (P : S → Type 0) → IsPreorder (Keeps P)
Keeps-IsPreorder P = record { same = λ s h. h; then_ = λ s t u f g h. g (f h) }

module _ {S A : Type 0} (R : S → S → Type 0) (p : IsPreorder R) where
  pub Steps-pure : (a : A) → Steps R (pure a)
  Steps-pure a = record { at = p.same }

  pub Steps-raise : (e : Error) → Steps R (raise {A = A} e)
  Steps-raise e = record { at = p.same }

  pub Steps-lift : (r : Result A) → Steps R (lift r)
  Steps-lift r = record { at = p.same }

  pub Steps-gets : (f : S → A) → Steps R (gets f)
  Steps-gets f = record { at = p.same }

  pub Steps-if :
      (b : Bool) (m n : Exec S A)
      → (b ≡ true → Steps R m)
      → (b ≡ false → Steps R n)
      → Steps R (if b then m else n)
  Steps-if true m n km kn = km refl
  Steps-if false m n km kn = kn refl

module _ {S : Type 0} (R : S → S → Type 0) (p : IsPreorder R) where
  pub Steps-require : (b : Bool) (e : Error) → Steps R (require b e)
  Steps-require true e = record { at = p.same }
  Steps-require false e = record { at = p.same }

module _ {S A B : Type 0} (R : S → S → Type 0) (p : IsPreorder R) where
  Steps-continue :
      (r : Result A) (f : A → Exec S B) (s t : S)
      → R s t
      → ((a : A) → r ≡ ok a → Steps R (f a))
      → R s (continue r f t).1
  Steps-continue (ok a) f s t h k = p.then_ s t (f a t).1 h ((k a refl).at t)
  Steps-continue (err e) f s t h k = h

  pub Steps-bind :
      (m : Exec S A) (f : A → Exec S B) → Steps R m → ((a : A) → Steps R (f a)) → Steps R (m >>= f)
  unfolding ◌>>=◌
  Steps-bind m f km kf = record {
    at = λ s. Steps-continue (m s).0 f s (m s).1 (km.at s) (λ a _. kf a);
  }

  -- The rest may use that `r` was no error.
  pub Steps-bind_lift :
      (r : Result A) (f : A → Exec S B)
      → ((a : A) → r ≡ ok a → Steps R (f a))
      → Steps R (lift r >>= f)
  unfolding ◌>>=◌
  Steps-bind_lift r f kf = record { at = λ s. Steps-continue r f s s (p.same s) kf }

-- What a handler does counts too.
module _ {S A : Type 0} (R : S → S → Type 0) (p : IsPreorder R) where
  pub Steps-catch :
      (m : Exec S A) (f : Error → Exec S A)
      → Steps R m
      → ((e : Error) → Steps R (f e))
      → Steps R (catch m f)
  unfolding catch
  Steps-catch m f km kf = record { at = λ s. handled s (m s).1 (m s).0 (km.at s) }
    where
      handled :
          (s t : S) (r : Result A)
          → R s t
          → R s (let x : Result A × S = elim r [ ok a ↦ (ok a, t) | err e ↦ f e t ] in x).1
      handled s t (ok a) h = h
      handled s t (err e) h = p.then_ s t (f e t).1 h ((kf e).at t)
