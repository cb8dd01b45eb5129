-- ===== src/Userinfo/Sample.antt =====
-- An insertion sort and a search from the front, as the `qsort` and `bsearch` of src/userinfo.c.
use mathlib.Core.Path.{subst}
use cachefs.Prelude.{
  ◌≡◌, ◌≢◌, ◌↔◌, ◌⊎◌, inl, inr, refl, sym, ◌∙◌, Option, none, some, List, [], ◌∷◌, All, arith,
}
use cachefs.Posix.{Sign, negative, zero as same, positive}
use cachefs.Userinfo.{Stdlib}
use cachefs.Userinfo.Order.{In, IsOrder, IsSorted, StdlibLaws}
use cachefs.Userinfo.Cache.{All-In}

module _ {A : Type 0} where
  unfoldable pub insert_by : (A → A → Sign) → A → List A → List A
  insert_by cmp a [] = a ∷ []
  insert_by cmp a (b ∷ bs) =
      let rest = insert_by cmp a bs in elim (cmp a b) [ positive ↦ b ∷ rest | _ ↦ a ∷ b ∷ bs ]

  unfoldable pub sort_by : (A → A → Sign) → List A → List A
  sort_by cmp [] = []
  sort_by cmp (a ∷ as') = insert_by cmp a (sort_by cmp as')

  unfoldable pub first_same : (A → Sign) → List A → Option A
  first_same probe [] = none
  first_same probe (a ∷ as') = elim (probe a) [ same ↦ some a | _ ↦ first_same probe as' ]

abbrev pub plain_stdlib : Stdlib
plain_stdlib = record { qsort = sort_by; bsearch = first_same }

Sign-cases : (s : Sign) → (s ≡ positive) ⊎ (s ≢ positive)
Sign-cases negative = inr (ground arith)
Sign-cases same = inr (ground arith)
Sign-cases positive = inl refl

module _ {A : Type 0} (cmp : A → A → Sign) where
  insert_by-late :
      (a b : A) (bs : List A)
      → cmp a b ≡ positive
      → insert_by cmp a (b ∷ bs) ≡ b ∷ insert_by cmp a bs
  unfolding insert_by
  insert_by-late a b bs e = rw (e, insert_by) refl

  insert_by-soon :
      (a b : A) (bs : List A) (s : Sign)
      → cmp a b ≡ s
      → s ≢ positive
      → insert_by cmp a (b ∷ bs) ≡ a ∷ b ∷ bs
  unfolding insert_by
  insert_by-soon a b bs negative e ne = rw (e, insert_by) refl
  insert_by-soon a b bs same e ne = rw (e, insert_by) refl
  insert_by-soon a b bs positive e ne = absurd (ne refl)

  In-insert_by : (a x : A) (bs : List A) → In x (insert_by cmp a bs) ↔ In x (a ∷ bs)
  unfolding insert_by
  In-insert_by a x [] = (λ m. m, λ m. m)
  In-insert_by a x (b ∷ bs) = elim (Sign-cases (cmp a b)) [
    | inr early ↦ rw (insert_by-soon a b bs (cmp a b) refl early) (λ m. m, λ m. m)
    | inl late ↦
        let (to, from) = In-insert_by a x bs in
        rw (insert_by-late a b bs late) (λ m. ground (arith, m, to), λ m. ground (arith, m, from))
  ]

  In-sort_by : (xs : List A) (x : A) → In x (sort_by cmp xs) ↔ In x xs
  unfolding sort_by
  In-sort_by [] x = (λ m. m, λ m. m)
  In-sort_by (a ∷ as') x =
      let (to, from) = In-insert_by a x (sort_by cmp as') in
      let (deeper, back) = In-sort_by as' x in
      (
        λ m. elim (to m) [ inl e ↦ inl e | inr k ↦ inr (deeper k) ],
        λ m. from (elim m [ inl e ↦ inl e | inr k ↦ inr (back k) ]),
      )

  All-of : (P : A → Type 0) (xs : List A) (a : A) → All P xs → In a xs → P a
  All-of P [] a all m = elim m [ ]
  All-of P (x ∷ xs) a (p, all) (inl e) = subst P (sym e) p
  All-of P (x ∷ xs) a (p, all) (inr m) = All-of P xs a all m

  insert_by-IsSorted :
      (P : A → Type 0) (a : A) (bs : List A)
      → IsOrder cmp P
      → P a
      → All P bs
      → IsSorted cmp bs
      → IsSorted cmp (insert_by cmp a bs)
  unfolding insert_by
  insert_by-IsSorted P a [] order pa ps sorted = (tt, tt)
  insert_by-IsSorted P a (b ∷ bs) order pa (pb, ps) (first, sorted) = elim (Sign-cases (cmp a b)) [
    | inr early ↦ rw (insert_by-soon a b bs (cmp a b) refl early) (
      (
        early,
        All-In bs (λ y m.
            order.chains a b y pa pb (All-of P bs y ps m) early
              (All-of (λ z. cmp b z ≢ positive) bs y first m)),
      ),
      (first, sorted),
    )
    | inl late ↦ rw (insert_by-late a b bs late) (
      All-In (insert_by cmp a bs) (λ y m. elim ((In-insert_by a y bs).0 m) [
        | inl e ↦
            subst (λ z. cmp b z ≢ positive) (sym e)
              (λ bad. ground (arith, order.flips a b pa pb late))
        | inr k ↦ All-of (λ z. cmp b z ≢ positive) bs y first k
      ]),
      insert_by-IsSorted P a bs order pa ps sorted,
    )
  ]

  sort_by-IsSorted :
      (P : A → Type 0) (xs : List A) → IsOrder cmp P → All P xs → IsSorted cmp (sort_by cmp xs)
  unfolding sort_by
  sort_by-IsSorted P [] order ps = tt
  sort_by-IsSorted P (x ∷ xs) order (px, ps) =
      insert_by-IsSorted P x (sort_by cmp xs) order px
        (All-In (sort_by cmp xs) (λ a m. All-of P xs a ps ((In-sort_by xs a).0 m)))
        (sort_by-IsSorted P xs order ps)

Sign-same : (s : Sign) → (s ≡ same) ⊎ (s ≢ same)
Sign-same negative = inr (ground arith)
Sign-same same = inl refl
Sign-same positive = inr (ground arith)

module _ {A : Type 0} (probe : A → Sign) where
  first_same-next :
      (x : A) (xs : List A) (s : Sign)
      → probe x ≡ s
      → s ≢ same
      → first_same probe (x ∷ xs) ≡ first_same probe xs
  unfolding first_same
  first_same-next x xs negative e ne = rw (e, first_same) refl
  first_same-next x xs same e ne = absurd (ne refl)
  first_same-next x xs positive e ne = rw (e, first_same) refl

  first_same-some :
      (xs : List A) (a : A) → first_same probe xs ≡ some a → In a xs × (probe a ≡ same)
  unfolding first_same
  first_same-some [] a e = absurd (ground arith)
  first_same-some (x ∷ xs) a e = elim (Sign-same (probe x)) [
    | inl eq ↦
        let here : x ≡ a = ground arith in (inl (sym here), subst (λ y. probe y ≡ same) here eq)
    | inr ne ↦
        let (m, eq) = first_same-some xs a (sym (first_same-next x xs (probe x) refl ne) ∙ e) in
        (inr m, eq)
  ]

  first_same-none : (xs : List A) (a : A) → first_same probe xs ≡ none → In a xs → probe a ≢ same
  unfolding first_same
  first_same-none [] a e m = elim m [ ]
  first_same-none (x ∷ xs) a e m = elim (Sign-same (probe x)) [
    | inl eq ↦ absurd (ground arith)
    | inr ne ↦ elim m [
      | inl here ↦ subst (λ y. probe y ≢ same) (sym here) ne
      | inr k ↦ first_same-none xs a (sym (first_same-next x xs (probe x) refl ne) ∙ e) k
    ]
  ]

pub plain_stdlib-laws : StdlibLaws plain_stdlib
plain_stdlib-laws = record {
  In-qsort = λ cmp xs a. In-sort_by cmp xs a;
  qsort-IsSorted =
      λ cmp xs order. sort_by-IsSorted cmp (λ a. In a xs) xs order (All-In xs (λ a m. m));
  bsearch-some = λ probe xs a e. first_same-some probe xs a e;
  bsearch-none = λ probe xs a split e m. first_same-none probe xs a e m;
}
