-- ===== src/Userinfo/Cache.antt =====
-- The sorted arrays of src/userinfo.c and the search in them.
use cachefs.Prelude.{
  ℕ, ◌≡◌, ◌≢◌, inl, inr, refl, sym, some, List, [], ◌∷◌, All, arith, Str, Option-cases,
}
use cachefs.Posix.{Sign, negative, positive}
use cachefs.Userinfo.{Stdlib, id_cmp, strcmp}
use cachefs.Userinfo.Order.{
  In, IsOrder, IsSorted, IsSplit, StdlibLaws, IsSmall, id_cmp-le, id_cmp-lt, id_cmp-eq, strcmp-eq,
  strcmp-flip, strcmp-chain,
}

pub All-In : {A : Type 0} {P : A → Type 0} (xs : List A) → ((a : A) → In a xs → P a) → All P xs
All-In [] h = tt
All-In (x ∷ xs) h = (h x (inl refl), All-In xs (λ a m. h a (inr m)))

pub All-and-In :
    {A : Type 0} {P Q : A → Type 0} (xs : List A)
    → ((a : A) → In a xs → P a → Q a)
    → All P xs
    → All Q xs
All-and-In [] h all = tt
All-and-In (x ∷ xs) h (p, all) = (h x (inl refl) p, All-and-In xs (λ a m. h a (inr m)) all)

-- A key that follows the order of the sorted elements splits them.
sorted-IsSplit :
    {A : Type 0} (cmp : A → A → Sign) (probe : A → Sign) (xs : List A)
    → ((x y : A)
        → In x xs
        → In y xs
        → cmp x y ≢ positive
        → (probe x ≢ positive → probe y ≢ positive) × (probe x ≡ negative → probe y ≡ negative))
    → IsSorted cmp xs
    → IsSplit probe xs
sorted-IsSplit cmp probe [] h sorted = tt
sorted-IsSplit cmp probe (x ∷ xs) h (first, sorted) = (
  All-and-In xs (λ y m le. h x y (inl refl) (inr m) le) first,
  sorted-IsSplit cmp probe xs (λ a b m k. h a b (inr m) (inr k)) sorted,
)

-- A sorted array whose keys are small numbers, or texts.
by_id-IsOrder :
    {A : Type 0} (key : A → ℕ) (xs : List A)
    → ((a : A) → In a xs → IsSmall (key a))
    → IsOrder (λ a b. id_cmp (key a) (key b)) (λ a. In a xs)
by_id-IsOrder key xs small = record {
  flips = λ a b ma mb h.
      let x = small a ma in
      let y = small b mb in
      ground (arith, id_cmp-le (key a) (key b) x y, id_cmp-lt (key b) (key a) y x);
  chains = λ a b c ma mb mc h k.
      let x = small a ma in
      let y = small b mb in
      let z = small c mc in
      ground (
        arith,
        id_cmp-le (key a) (key b) x y,
        id_cmp-le (key b) (key c) y z,
        id_cmp-le (key a) (key c) x z,
      );
}

by_id-IsSplit :
    {A : Type 0} (key : A → ℕ) (k : ℕ) (xs : List A)
    → IsSmall k
    → ((a : A) → In a xs → IsSmall (key a))
    → IsSorted (λ a b. id_cmp (key a) (key b)) xs
    → IsSplit (λ a. id_cmp k (key a)) xs
by_id-IsSplit key k xs sk small =
    sorted-IsSplit (λ a b. id_cmp (key a) (key b)) (λ a. id_cmp k (key a)) xs
      (λ x y mx my le.
        let sx = small x mx in
        let sy = small y my in
        let xy = (id_cmp-le (key x) (key y) sx sy).0 le in
        (
          λ h. ground (arith, id_cmp-le k (key x) sk sx, id_cmp-le k (key y) sk sy),
          λ h. ground (arith, id_cmp-lt k (key x) sk sx, id_cmp-lt k (key y) sk sy),
        ))

by_text-IsOrder :
    {A : Type 0} (key : A → Str) (xs : List A)
    → IsOrder (λ a b. strcmp (key a) (key b)) (λ a. In a xs)
by_text-IsOrder key xs = record {
  flips = λ a b ma mb h. (strcmp-flip (key a) (key b)).0 h;
  chains = λ a b c ma mb mc h k. strcmp-chain (key a) (key b) (key c) h k;
}

by_text-IsSplit :
    {A : Type 0} (key : A → Str) (k : Str) (xs : List A)
    → IsSorted (λ a b. strcmp (key a) (key b)) xs
    → IsSplit (λ a. strcmp k (key a)) xs
by_text-IsSplit key k xs =
    sorted-IsSplit (λ a b. strcmp (key a) (key b)) (λ a. strcmp k (key a)) xs
      (λ x y mx my le. (
        λ h. strcmp-chain k (key x) (key y) h le,
        λ h. ground (
          arith,
          strcmp-flip (key y) k,
          strcmp-flip k (key y),
          strcmp-flip k (key x),
          strcmp-flip (key x) k,
          strcmp-eq k (key y),
          strcmp-chain (key y) k (key x),
          strcmp-chain (key x) (key y) k,
          strcmp-flip (key x) (key y),
        ),
      ))

module _ (std : Stdlib) (laws : StdlibLaws std) where
  -- What a search by number in a sorted array finds: an element with it, if there is one.
  pub search_by_id :
      {A : Type 0} (key : A → ℕ) (k : ℕ) (xs : List A)
      → IsSmall k
      → ((a : A) → In a xs → IsSmall (key a))
      → (a : A) → In a xs
      → key a ≡ k
      → (b : A) × (std.bsearch
            (λ c. id_cmp k (key c))
            (std.qsort (λ x y. id_cmp (key x) (key y)) xs)
          ≡ some b)
  search_by_id key k xs sk small a m e =
      let sorted = std.qsort (λ x y. id_cmp (key x) (key y)) xs in
      let there = λ (b : _). laws.In-qsort (λ x y. id_cmp (key x) (key y)) xs b in
      elim (Option-cases (std.bsearch (λ c. id_cmp k (key c)) sorted)) [
        | inr hit ↦ hit
        | inl miss ↦ absurd (
            laws.bsearch-none (λ c. id_cmp k (key c)) sorted a
              (by_id-IsSplit key k sorted sk (λ b mb. small b ((there b).0 mb))
                (laws.qsort-IsSorted (λ x y. id_cmp (key x) (key y)) xs
                  (by_id-IsOrder key xs small)))
              miss ((there a).1 m) ((id_cmp-eq k (key a) sk (small a m)).1 (sym e)))
      ]

  pub found_by_id :
      {A : Type 0} (key : A → ℕ) (k : ℕ) (xs : List A)
      → IsSmall k
      → ((a : A) → In a xs → IsSmall (key a))
      → (b : A)
      → std.bsearch (λ c. id_cmp k (key c)) (std.qsort (λ x y. id_cmp (key x) (key y)) xs) ≡ some b
      → In b xs × (key b ≡ k)
  found_by_id key k xs sk small b hit =
      let sorted = std.qsort (λ x y. id_cmp (key x) (key y)) xs in
      let (m, e) = laws.bsearch-some (λ c. id_cmp k (key c)) sorted b hit in
      let mb = (laws.In-qsort (λ x y. id_cmp (key x) (key y)) xs b).0 m in
      (mb, sym ((id_cmp-eq k (key b) sk (small b mb)).0 e))

  -- The same for a search by name.
  pub search_by_text :
      {A : Type 0} (key : A → Str) (k : Str) (xs : List A) (a : A)
      → In a xs
      → key a ≡ k
      → (b : A) × (std.bsearch
            (λ c. strcmp k (key c))
            (std.qsort (λ x y. strcmp (key x) (key y)) xs)
          ≡ some b)
  search_by_text key k xs a m e =
      let sorted = std.qsort (λ x y. strcmp (key x) (key y)) xs in
      elim (Option-cases (std.bsearch (λ c. strcmp k (key c)) sorted)) [
        | inr hit ↦ hit
        | inl miss ↦ absurd (
            laws.bsearch-none (λ c. strcmp k (key c)) sorted a
              (by_text-IsSplit key k sorted
                (laws.qsort-IsSorted (λ x y. strcmp (key x) (key y)) xs (by_text-IsOrder key xs)))
              miss ((laws.In-qsort (λ x y. strcmp (key x) (key y)) xs a).1 m)
              ((strcmp-eq k (key a)).1 (sym e)))
      ]

  pub found_by_text :
      {A : Type 0} (key : A → Str) (k : Str) (xs : List A) (b : A)
      → std.bsearch (λ c. strcmp k (key c)) (std.qsort (λ x y. strcmp (key x) (key y)) xs) ≡ some b
      → In b xs × (key b ≡ k)
  found_by_text key k xs b hit =
      let sorted = std.qsort (λ x y. strcmp (key x) (key y)) xs in
      let (m, e) = laws.bsearch-some (λ c. strcmp k (key c)) sorted b hit in
      ((laws.In-qsort (λ x y. strcmp (key x) (key y)) xs b).0 m, sym ((strcmp-eq k (key b)).0 e))
