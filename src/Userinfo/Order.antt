-- ===== src/Userinfo/Order.antt =====
-- What src/userinfo.c relies on of `qsort` and `bsearch`, and that its comparisons are orders.
use cachefs.Prelude.{
  ℕ, ◌^◌, ◌<◌, ◌≤◌, ◌≡◌, ◌≢◌, ◌↔◌, ◌⊎◌, refl, none, some, List, [], ◌∷◌, All, arith, Str,
}
use cachefs.Posix.{Sign, negative, zero as same, positive}
use cachefs.Userinfo.{Stdlib, id_cmp, strcmp}

-- Being an element of a list.
abbrev pub In : {A : Type 0} → A → List A → Type 0
In a [] = ⊥
In a (x ∷ xs) = (a ≡ x) ⊎ In a xs

-- A comparison orders what is in a list.
pub record IsOrder {A : Type 0} (cmp : A → A → Sign) (P : A → Type 0) : Type 0 where
  pub flips : (a b : A) → P a → P b → cmp a b ≡ positive → cmp b a ≡ negative
  pub chains :
      (a b c : A) → P a → P b → P c → cmp a b ≢ positive → cmp b c ≢ positive → cmp a c ≢ positive

-- Each element compares as not greater than those after it.
abbrev pub IsSorted : {A : Type 0} → (A → A → Sign) → List A → Type 0
IsSorted cmp [] = Unit
IsSorted cmp (x ∷ xs) = All (λ y. cmp x y ≢ positive) xs × IsSorted cmp xs

-- First the elements below the key, then those that are equal to it, then those above it: an element
-- that is not below is followed by none that is, and one that is above by such elements only.
abbrev pub IsSplit : {A : Type 0} → (A → Sign) → List A → Type 0
IsSplit probe [] = Unit
IsSplit probe (x ∷ xs) =
    All (λ y. (probe x ≢ positive → probe y ≢ positive) × (probe x ≡ negative → probe y ≡ negative))
      xs
    × IsSplit probe xs

-- The C standard on the two functions. The key compares as positive with the elements below it.
pub record StdlibLaws (std : Stdlib) : Type 1 where
  pub In-qsort :
      {A : Type 0} (cmp : A → A → Sign) (xs : List A) (a : A) → In a (std.qsort cmp xs) ↔ In a xs
  pub qsort-IsSorted :
      {A : Type 0} (cmp : A → A → Sign) (xs : List A)
      → IsOrder cmp (λ a. In a xs)
      → IsSorted cmp (std.qsort cmp xs)
  pub bsearch-some :
      {A : Type 0} (probe : A → Sign) (xs : List A) (a : A)
      → std.bsearch probe xs ≡ some a
      → In a xs × (probe a ≡ same)
  pub bsearch-none :
      {A : Type 0} (probe : A → Sign) (xs : List A) (a : A)
      → IsSplit probe xs
      → std.bsearch probe xs ≡ none
      → In a xs
      → probe a ≢ same

-- The ids of which the difference is an `int`.
abbrev pub IsSmall : ℕ → Type 0
IsSmall a = a < 2 ^ 31

pub id_cmp-le : (a b : ℕ) → IsSmall a → IsSmall b → (id_cmp a b ≢ positive) ↔ (a ≤ b)
unfolding id_cmp
id_cmp-le a b ha hb = ground arith

pub id_cmp-lt : (a b : ℕ) → IsSmall a → IsSmall b → (id_cmp a b ≡ negative) ↔ (a < b)
unfolding id_cmp
id_cmp-lt a b ha hb = ground arith

pub id_cmp-eq : (a b : ℕ) → IsSmall a → IsSmall b → (id_cmp a b ≡ same) ↔ (a ≡ b)
unfolding id_cmp
id_cmp-eq a b ha hb = ground arith

pub strcmp-eq : (a b : Str) → (strcmp a b ≡ same) ↔ (a ≡ b)
unfolding strcmp
strcmp-eq [] [] = (λ e. refl, λ e. refl)
strcmp-eq [] (y ∷ ys) = ground arith
strcmp-eq (x ∷ xs) [] = ground arith
strcmp-eq (x ∷ xs) (y ∷ ys) = ground (arith, strcmp-eq xs ys)

pub strcmp-flip : (a b : Str) → (strcmp a b ≡ positive) ↔ (strcmp b a ≡ negative)
unfolding strcmp
strcmp-flip [] [] = ground arith
strcmp-flip [] (y ∷ ys) = ground arith
strcmp-flip (x ∷ xs) [] = ground arith
strcmp-flip (x ∷ xs) (y ∷ ys) = ground (arith, strcmp-flip xs ys)

pub strcmp-chain :
    (a b c : Str) → strcmp a b ≢ positive → strcmp b c ≢ positive → strcmp a c ≢ positive
unfolding strcmp
strcmp-chain [] b [] h k = ground arith
strcmp-chain [] b (z ∷ zs) h k = ground arith
strcmp-chain (x ∷ xs) [] c h k = absurd (h refl)
strcmp-chain (x ∷ xs) (y ∷ ys) [] h k = absurd (k refl)
strcmp-chain (x ∷ xs) (y ∷ ys) (z ∷ zs) h k = ground (arith, strcmp-chain xs ys zs)
