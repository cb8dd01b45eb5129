-- ===== src/Options/Leads.antt =====
-- What is so of the settings that a part of `main` of src/cachefs.c goes on with.
use cachefs.Prelude.{
  ℕ, ◌≡◌, ◌≢◌, refl, inl, inr, Bool, true, false, ◌==◌, ==_iff, Bool-cases, Option, none, some,
  if◌then◌else◌, Str,
}
use cachefs.Mount.{Settings}
use cachefs.Options.Start.{Exit, exits_with, aborts, goes_on, ◌>>=◌, given, as_root, with_id}

-- What is so of the settings that are gone on with.
unfoldable pub Leads : (Settings → Type 0) → Exit → Type 0
Leads P (exits_with n) = Unit
Leads P aborts = Unit
Leads P (goes_on s) = P s

pub Leads-bind :
    (P : Settings → Type 0) (m : Exit) (f : Settings → Exit)
    → Leads P m
    → ((s : Settings) → P s → Leads P (f s))
    → Leads P (m >>= f)
unfolding Leads ◌>>=◌
Leads-bind P (exits_with n) f h k = tt
Leads-bind P aborts f h k = tt
Leads-bind P (goes_on s) f h k = k s h

pub Leads-given :
    (P : Settings → Type 0) (o : Option Str) (f : Str → Settings → Exit) (s : Settings)
    → P s
    → ((text : Str) → Leads P (f text s))
    → Leads P (given o f s)
unfolding Leads given
Leads-given P none f s h k = h
Leads-given P (some text) f s h k = k text

-- With the text that is given.
pub Leads-given_eq :
    (P : Settings → Type 0) (o : Option Str) (f : Str → Settings → Exit) (s : Settings)
    → P s
    → ((text : Str) → o ≡ some text → Leads P (f text s))
    → Leads P (given o f s)
unfolding Leads given
Leads-given_eq P none f s h k = h
Leads-given_eq P (some text) f s h k = k text refl

pub Leads-as_root :
    (P : Settings → Type 0) (uid : ℕ) (f : Settings → Exit) (s : Settings)
    → uid ≢ 0
    → Leads P (as_root uid f s)
unfolding Leads as_root
Leads-as_root P uid f s other = elim (Bool-cases (uid == 0)) [
  | inl e ↦ absurd (other ((==_iff uid 0).0 e))
  | inr e ↦ rw (e, as_root) tt
]

pub Leads-with_id :
    (P : Settings → Type 0) (o : Option ℕ) (f : ℕ → Settings)
    → ((id : ℕ) → P (f id))
    → Leads P (with_id o f)
unfolding Leads with_id
Leads-with_id P none f h = tt
Leads-with_id P (some id) f h = h id

pub Leads-exit : (P : Settings → Type 0) (n : ℕ) → Leads P (exits_with n)
unfolding Leads
Leads-exit P n = tt

pub Leads-go : (P : Settings → Type 0) (s : Settings) → P s → Leads P (goes_on s)
unfolding Leads
Leads-go P s h = h

pub Leads-if :
    (P : Settings → Type 0) (b : Bool) (m n : Exit)
    → Leads P m
    → Leads P n
    → Leads P (if b then m else n)
Leads-if P true m n h k = h
Leads-if P false m n h k = k

pub Leads-if_root :
    (P : Settings → Type 0) (uid : ℕ) (f : Settings → Exit) (s : Settings)
    → Leads P (f s)
    → Leads P (as_root uid f s)
unfolding as_root
Leads-if_root P uid f s h = Leads-if P (uid == 0) (f s) (exits_with 1) h (Leads-exit P 1)

pub Leads-option :
    {A : Type 0} (P : Settings → Type 0) (o : Option A) (f : A → Exit)
    → ((a : A) → Leads P (f a))
    → Leads P (elim o [ none ↦ exits_with 1 | some a ↦ f a ])
Leads-option P none f h = Leads-exit P 1
Leads-option P (some a) f h = h a
