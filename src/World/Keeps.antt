-- ===== src/World/Keeps.antt =====
-- Actions that keep a predicate on the state: one rule for each way to build an action. Where
-- an action ends in undefined behaviour there is no state, and nothing is claimed.
use jabber.Base.{ℕ, Bool, true, false, Option, none, some, List, [], ◌∷◌, if◌then◌else◌, arith}
use jabber.World.{World, M, ◌>>=◌, pure, fault, gets, load, when, for_each}

abbrev pub Post : {A : Type 0} → (World → Type 0) → Option (A × World) → Type 0
Post P none = Unit
Post P (some (a, w)) = P w

pub record Keeps {A : Type 0} (P : World → Type 0) (m : M A) : Type 0 where
  pub at : (w : World) → P w → Post P (m w)

module _ {P : World → Type 0} where
  pub Keeps-pure : {A : Type 0} (a : A) → Keeps P (pure a)
  unfolding pure
  Keeps-pure a = record { at = λ w h. h }

  pub Keeps-fault : (A : Type 0) → Keeps P (fault {A = A})
  unfolding fault
  Keeps-fault A = record { at = λ w h. tt }

  pub Keeps-gets : {A : Type 0} (f : World → A) → Keeps P (gets f)
  unfolding gets
  Keeps-gets f = record { at = λ w h. h }

  Post-continue :
      {A B : Type 0} (r : Option (A × World)) (f : A → M B)
      → Post P r
      → ((a : A) → Keeps P (f a))
      → Post P (elim r [ none ↦ none | some (a, w') ↦ f a w' ])
  Post-continue none f h kf = tt
  Post-continue (some (a, w)) f h kf = (kf a).at w h

  pub Keeps-bind :
      {A B : Type 0} (m : M A) (f : A → M B)
      → Keeps P m
      → ((a : A) → Keeps P (f a))
      → Keeps P (m >>= f)
  unfolding ◌>>=◌
  Keeps-bind m f km kf = record { at = λ w h. Post-continue (m w) f (km.at w h) kf }

  pub Keeps-load : (p : ℕ) → Keeps P (load p)
  unfolding load
  Keeps-load p = record { at = λ w h. ground arith }

  pub Keeps-if :
      {A : Type 0} (b : Bool) (m n : M A) → Keeps P m → Keeps P n → Keeps P (if b then m else n)
  Keeps-if true m n km kn = km
  Keeps-if false m n km kn = kn

  pub Keeps-when : (b : Bool) (m : M (Unit {0})) → Keeps P m → Keeps P (when b m)
  unfolding when
  Keeps-when true m km = km
  Keeps-when false m km = Keeps-pure tt

  pub Keeps-for_each :
      {A : Type 0} (f : A → M (Unit {0})) (as' : List A)
      → ((a : A) → Keeps P (f a))
      → Keeps P (for_each f as')
  unfolding for_each
  Keeps-for_each f [] kf = Keeps-pure tt
  Keeps-for_each f (a ∷ as') kf = Keeps-bind (f a) _ (kf a) (λ _. Keeps-for_each f as' kf)

  pub Keeps-option :
      {A B : Type 0} (o : Option A) (m : M B) (f : A → M B)
      → Keeps P m
      → ((a : A) → Keeps P (f a))
      → Keeps P (elim o [ none ↦ m | some a ↦ f a ])
  Keeps-option none m f km kf = km
  Keeps-option (some a) m f km kf = kf a

pub ruleset keeps_rules = (
  Keeps-pure, Keeps-fault, Keeps-gets, Keeps-bind, Keeps-load, Keeps-if, Keeps-when, Keeps-for_each,
)

-- The action ends, and in a state with the predicate.
abbrev pub Ends : {A : Type 0} → (World → Type 0) → Option (A × World) → Type 0
Ends P none = ⊥
Ends P (some (a, w)) = P w
