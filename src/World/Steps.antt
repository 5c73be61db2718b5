-- ===== src/World/Steps.antt =====
-- How an action runs on a session that is there: equations to go through its steps with.
use jabber.Base.{
  ℕ, ◌≡◌, ◌≢◌, refl, ◌∙◌, Bool, true, false, Option, none, some, if◌then◌else◌, arith,
}
use jabber.World.Keeps.{Ends, Post}
use jabber.World.{Session, World, M, ◌>>=◌, pure, load, modify, change, when, update}

-- *p = s
unfoldable pub put : ℕ → Session → World → World
unfolding update
put p s w = record w { heap = update w.heap p (some s) }

-- The action ends with this answer in this state.
abbrev pub Runs : {A : Type 0} → M A → World → A → World → Type 0
Runs m w a w' = m w ≡ some (a, w')

pub Runs-bind :
    {A B : Type 0} (m : M A) (f : A → M B) (w w' : World) (a : A)
    → Runs m w a w'
    → (m >>= f) w ≡ f a w'
unfolding ◌>>=◌
Runs-bind m f w w' a h = rw (h, ◌>>=◌) refl

pub Runs-load : (p : ℕ) (s : Session) (w : World) → w.heap p ≡ some s → Runs (load p) w s w
unfolding load
Runs-load p s w h = rw (h, load) refl

pub Runs-modify :
    (p : ℕ) (s : Session) (f : Session → Session) (w : World)
    → w.heap p ≡ some s
    → Runs (modify p f) w tt (put p (f s) w)
unfolding modify put
Runs-modify p s f w h = rw (h, modify) refl

pub put_self : (p : ℕ) (s : Session) (w : World) → (put p s w).heap p ≡ some s
unfolding update put
put_self p s w = ground arith

pub put_other : (p q : ℕ) (s : Session) (w : World) → q ≢ p → (put p s w).heap q ≡ w.heap q
unfolding update put
put_other p q s w h = ground arith

pub Runs-Ends :
    {A : Type 0} (P : World → Type 0) (m : M A) (w : World) (a : A) (w' : World)
    → Runs m w a w'
    → P w'
    → Ends P (m w)
Runs-Ends P m w a w' h k = rw h k

pub Runs-when :
    (b : Bool) (g : World → World) (w : World)
    → Runs (when b (change g)) w tt (if b then g w else w)
unfolding when change pure
Runs-when true g w = refl
Runs-when false g w = refl

Ends-continue :
    {A B : Type 0} (P Q : World → Type 0) (r : Option (A × World)) (f : A → M B)
    → Ends P r
    → ((a : A) (v : World) → P v → Ends Q (f a v))
    → Ends Q (elim r [ none ↦ none | some (a, v) ↦ f a v ])
Ends-continue P Q none f h k = absurd h
Ends-continue P Q (some (a, v)) f h k = k a v h

pub Ends-bind :
    {A B : Type 0} (P Q : World → Type 0) (m : M A) (f : A → M B) (w : World)
    → Ends P (m w)
    → ((a : A) (v : World) → P v → Ends Q (f a v))
    → Ends Q ((m >>= f) w)
unfolding ◌>>=◌
Ends-bind P Q m f w h k = Ends-continue P Q (m w) f h k

-- The session `p` is now `s`, and the others are as in `w`.
pub record OnlyChanged (p : ℕ) (s : Session) (w v : World) : Type 0 where
  pub at : v.heap p ≡ some s
  pub others : (q : ℕ) → q ≢ p → v.heap q ≡ w.heap q
  pub wire : v.wire ≡ w.wire
  pub files : v.files ≡ w.files
  pub dirs : v.dirs ≡ w.dirs

pub modify-OnlyChanged :
    (p : ℕ) (s t : Session) (f : Session → Session) (w v : World)
    → OnlyChanged p t w v
    → f t ≡ s
    → Ends (OnlyChanged p s w) (modify p f v)
unfolding put
modify-OnlyChanged p s t f w v h e =
    Runs-Ends (OnlyChanged p s w) (modify p f) v tt (put p (f t) v) (Runs-modify p t f v h.at)
      (record {
        at = rw e (put_self p s v);
        others = λ q ne. put_other p q (f t) v ne ∙ h.others q ne;
        wire = h.wire;
        files = h.files;
        dirs = h.dirs;
      })

pub refl-OnlyChanged : (p : ℕ) (s : Session) (w : World) → w.heap p ≡ some s → OnlyChanged p s w w
refl-OnlyChanged p s w live = record {
  at = live;
  others = λ q ne. refl;
  wire = refl;
  files = refl;
  dirs = refl;
}

pub Ends-weaken :
    {A : Type 0} (P Q : World → Type 0) (r : Option (A × World))
    → Ends P r
    → ((v : World) → P v → Q v)
    → Ends Q r
Ends-weaken P Q none h k = absurd h
Ends-weaken P Q (some (a, v)) h k = k v h

-- Where the action ends, its answer and its state are related.
abbrev pub Yields : {A : Type 0} → (A → World → Type 0) → Option (A × World) → Type 0
Yields Q none = Unit
Yields Q (some (a, w)) = Q a w

pub Post-Yields :
    {A : Type 0} (P : World → Type 0) (r : Option (A × World)) → Post P r → Yields (λ a. P) r
Post-Yields P none h = tt
Post-Yields P (some (a, w)) h = h

pub Yields-Post :
    {A : Type 0} (P : World → Type 0) (r : Option (A × World)) → Yields (λ a. P) r → Post P r
Yields-Post P none h = tt
Yields-Post P (some (a, w)) h = h

Yields-continue :
    {A B : Type 0} (Q : A → World → Type 0) (R : B → World → Type 0) (r : Option (A × World))
    (f : A → M B)
    → Yields Q r
    → ((a : A) (v : World) → Q a v → Yields R (f a v))
    → Yields R (elim r [ none ↦ none | some (a, v) ↦ f a v ])
Yields-continue Q R none f h k = tt
Yields-continue Q R (some (a, v)) f h k = k a v h

pub Yields-bind :
    {A B : Type 0} (Q : A → World → Type 0) (R : B → World → Type 0) (m : M A) (f : A → M B)
    (w : World)
    → Yields Q (m w)
    → ((a : A) (v : World) → Q a v → Yields R (f a v))
    → Yields R ((m >>= f) w)
unfolding ◌>>=◌
Yields-bind Q R m f w h k = Yields-continue Q R (m w) f h k

pub load-stuck :
    {A : Type 0} (p : ℕ) (f : Session → M A) (w : World) → w.heap p ≡ none → (load p >>= f) w ≡ none
unfolding load ◌>>=◌
load-stuck p f w h = ground arith

pub bind-none : {A B : Type 0} (m : M A) (f : A → M B) (w : World) → m w ≡ none → (m >>= f) w ≡ none
unfolding ◌>>=◌
bind-none m f w h = rw (h, ◌>>=◌) refl

pub Ends-Yields :
    {A : Type 0} (P : World → Type 0) (r : Option (A × World)) → Ends P r → Yields (λ a. P) r
Ends-Yields P none h = tt
Ends-Yields P (some (a, w)) h = h

pub Ends-both :
    {A : Type 0} (P Q : World → Type 0) (r : Option (A × World))
    → Ends P r
    → Ends Q r
    → Ends (λ v. P v × Q v) r
Ends-both P Q none h k = absurd h
Ends-both P Q (some (a, v)) h k = (h, k)
