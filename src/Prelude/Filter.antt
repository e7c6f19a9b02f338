-- ===== src/Prelude/Filter.antt =====
-- What a filter keeps, and the members of a list.
use mathlib.Core.Path.{◌≡◌, refl, sym, ap, ◌∙◌, subst}
use mathlib.Core.Logic.{inl, inr}
use mathlib.Core.List.{List, [], ◌∷◌, Memᴰ, map}
use mathlib.Core.List.Memᴰ
use mathlib.Core.Bool.{Bool, true, false, ◌&&◌}
use native.Mathlib.Omega.{arith}
use kafkrs.Prelude.Tests.{Bool-cases}
use kafkrs.Prelude.Lists.{All, filter}

module _ {ℓ} {A : Type ℓ} where
  pub Mem-filter : {x : A} (p : A → Bool) (xs : List A) → Memᴰ x (filter p xs) → Memᴰ x xs
  unfolding filter
  Mem-filter p [] m = m
  Mem-filter p (y ∷ ys) m = elim (Bool-cases (p y)) [
    | inl h ↦
        let keeps : filter p (y ∷ ys) ≡ y ∷ filter p ys = ground (arith, h) in
        elim (Memᴰ.cases_cons (subst (Memᴰ _) keeps m)) [
          | inl e ↦ Memᴰ.head e
          | inr r ↦ Memᴰ.tail (Mem-filter p ys r)
        ]
    | inr h ↦
        let drops : filter p (y ∷ ys) ≡ filter p ys = ground (arith, h) in
        Memᴰ.tail (Mem-filter p ys (subst (Memᴰ _) drops m))
  ]

  pub filter-passes : {x : A} (p : A → Bool) (xs : List A) → Memᴰ x (filter p xs) → p x ≡ true
  unfolding filter
  filter-passes p [] m = absurd (Memᴰ.not-nil m)
  filter-passes {x} p (y ∷ ys) m = elim (Bool-cases (p y)) [
    | inl h ↦
        let keeps : filter p (y ∷ ys) ≡ y ∷ filter p ys = ground (arith, h) in
        elim (Memᴰ.cases_cons (subst (Memᴰ _) keeps m)) [
          | inl e ↦ ap p e ∙ h
          | inr r ↦ filter-passes p ys r
        ]
    | inr h ↦
        let drops : filter p (y ∷ ys) ≡ filter p ys = ground (arith, h) in
        filter-passes p ys (subst (Memᴰ _) drops m)
  ]

  pub Mem-filter_intro :
      {x : A} (p : A → Bool) (xs : List A) → Memᴰ x xs → p x ≡ true → Memᴰ x (filter p xs)
  unfolding filter
  Mem-filter_intro p [] m h = m
  Mem-filter_intro {x} p (y ∷ ys) (Memᴰ.head e) h =
      let passes : p y ≡ true = sym (ap p e) ∙ h in
      let keeps : filter p (y ∷ ys) ≡ y ∷ filter p ys = ground (arith, passes) in
      subst (Memᴰ x) (sym keeps) (Memᴰ.head e)
  Mem-filter_intro {x} p (y ∷ ys) (Memᴰ.tail m) h =
      let rest = Mem-filter_intro p ys m h in
      elim (Bool-cases (p y)) [
        | inl k ↦
            let keeps : filter p (y ∷ ys) ≡ y ∷ filter p ys = ground (arith, k) in
            subst (Memᴰ x) (sym keeps) (Memᴰ.tail rest)
        | inr k ↦
            let drops : filter p (y ∷ ys) ≡ filter p ys = ground (arith, k) in
            subst (Memᴰ x) (sym drops) rest
      ]

  pub filter_none :
      (p : A → Bool) (xs : List A) → ((x : A) → Memᴰ x xs → p x ≡ false) → filter p xs ≡ []
  unfolding filter
  filter_none p [] h = refl
  filter_none p (x ∷ xs) h =
      let none_left = filter_none p xs (λ y m. h y (Memᴰ.tail m)) in
      let fails = h x (Memᴰ.head refl) in ground (arith, none_left, fails)

  pub All-passes : (p : A → Bool) (xs : List A) → All (λ x. p x ≡ true) (filter p xs)
  unfolding filter
  All-passes p [] = tt
  All-passes p (x ∷ xs) = elim (Bool-cases (p x)) [
    | inl h ↦
        let keeps : filter p (x ∷ xs) ≡ x ∷ filter p xs = ground (arith, h) in
        subst (All (λ y. p y ≡ true)) (sym keeps) (h, All-passes p xs)
    | inr h ↦
        let drops : filter p (x ∷ xs) ≡ filter p xs = ground (arith, h) in
        subst (All (λ y. p y ≡ true)) (sym drops) (All-passes p xs)
  ]

module _ {ℓ} {A : Type ℓ} where
  pub filter-filter :
      (p q : A → Bool) (xs : List A) → filter p (filter q xs) ≡ filter (λ x. q x && p x) xs
  unfolding filter
  filter-filter p q [] = refl
  filter-filter p q (x ∷ xs) =
      let rest = filter-filter p q xs in
      elim (Bool-cases (q x)) [ inl h ↦ simp (h, rest) refl | inr h ↦ simp (h, rest) refl ]

  pub filter-cong :
      (p q : A → Bool) (xs : List A) → ((x : A) → p x ≡ q x) → filter p xs ≡ filter q xs
  unfolding filter
  filter-cong p q [] h = refl
  filter-cong p q (x ∷ xs) h = simp (h x, filter-cong p q xs h) refl

module _ {ℓ ν} {A : Type ℓ} {B : Type ν} where
  pub All-map {κ μ} :
      (P : A → Type κ) (Q : B → Type μ) (f : A → B) (xs : List A)
      → ((x : A) → P x → Q (f x))
      → All P xs
      → All Q (map f xs)
  All-map P Q f [] g h = tt
  All-map P Q f (x ∷ xs) g h = (g x h.0, All-map P Q f xs g h.1)
