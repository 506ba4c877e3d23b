-- ===== src/ParMap/Order.antt =====
-- A ParMap up to what its keys hold, as an abstract map: the order in which goroutines insert their
-- items, each under the lock of one shard, does not show in it.
use mathlib.Core.Quot
use mathlib.Core.Quot.{Quot, Quot-set}
use mathlib.Core.List.{Perm, Permᴰ}
use mathlib.Core.Logic.{∥∥₁_elim, inr, inl}
use passive_bitcoin.Prelude.{
  String, ◌≡◌, refl, sym, ap, ◌∙◌, Option, some, List, [], ◌∷◌, arith, str_eq, eq_iff,
  if◌then◌else◌, ◌>>=◌, In,
}
use passive_bitcoin.ParMap.{Stringer, ParMap, insert}
use passive_bitcoin.ParMap.Valid.{IsValid}
use passive_bitcoin.ParMap.Lookup.{view, insert-view}

-- A map on which no access panics
abbrev pub ValidMap : Type 0 → Type 0
ValidMap V = (pm : ParMap V) × IsValid pm

module _ {V : Type 0} where
  -- Two maps hold the same item at every key.
  abbrev pub SameView : ValidMap V → ValidMap V → Type 0
  SameView a b = (k : String) → view a.0 k ≡ view b.0 k

-- A map, whatever its shards and the order in them
abbrev pub AbstractMap : Type 0 → Type 0
AbstractMap V = Quot (SameView {V = V})

-- No two items of a list that differ have the same text, that is, the same key.
abbrev pub HasOwnTexts : {V : Type 0} → ⦃s : Stringer V⦄ → List V → Type 0
HasOwnTexts {V = V} ⦃s⦄ xs = (x y : V) → In x xs → In y xs → s.string x ≡ s.string y → x ≡ y

In-Permᴰ : {V : Type 0} (z : V) (xs ys : List V) → Permᴰ xs ys → In z ys → In z xs
In-Permᴰ z _ _ Permᴰ.nil m = m
In-Permᴰ z (x ∷ xs) (y ∷ ys) (Permᴰ.cons e d) (inl h) = inl (h ∙ sym e)
In-Permᴰ z (x ∷ xs) (y ∷ ys) (Permᴰ.cons e d) (inr m) = inr (In-Permᴰ z xs ys d m)
In-Permᴰ z (x ∷ y ∷ l) (x' ∷ y' ∷ _) (Permᴰ.swap e e') (inl h) = inr (inl (h ∙ sym e'))
In-Permᴰ z (x ∷ y ∷ l) (x' ∷ y' ∷ _) (Permᴰ.swap e e') (inr (inl h)) = inl (h ∙ sym e)
In-Permᴰ z (x ∷ y ∷ l) (x' ∷ y' ∷ _) (Permᴰ.swap e e') (inr (inr m)) = inr (inr m)
In-Permᴰ z xs zs (Permᴰ.trans {l₂ = ys} d d') m = In-Permᴰ z xs ys d (In-Permᴰ z ys zs d' m)

module _ {V : Type 0} ⦃s : Stringer V⦄ where
  -- The map after Insert
  abbrev inserted : V → ValidMap V → ValidMap V
  inserted x a = let (q, _, valid, _) = insert-view a.0 x a.1 in (q, valid)

  view-inserted :
      (x : V) (a : ValidMap V) (k : String)
      → view (inserted x a).0 k ≡ (if str_eq (s.string x) k then some x else view a.0 k)
  view-inserted x a k = let (_, _, _, at) = insert-view a.0 x a.1 in at k

  inserted-SameView :
      (x : V) (a b : ValidMap V) → SameView a b → SameView (inserted x a) (inserted x b)
  inserted-SameView x a b h k = rw (view-inserted x a k, view-inserted x b k, h k) refl

  -- Insert on abstract maps
  put : V → AbstractMap V → AbstractMap V
  put x =
      Quot.lift Quot-set (λ a. Quot.mk (inserted x a))
        (λ a b h. Quot.sound (inserted-SameView x a b h))

  -- The items inserted one after the other
  abbrev pub insert_all : List V → ParMap V → Option (ParMap V)
  insert_all [] pm = some pm
  insert_all (x ∷ xs) pm = do q ← insert pm x; insert_all xs q

  abbrev put_all : List V → AbstractMap V → AbstractMap V
  put_all [] m = m
  put_all (x ∷ xs) m = put_all xs (put x m)

  swapped :
      (x y : V) (a : ValidMap V)
      → (s.string x ≡ s.string y → x ≡ y)
      → SameView (inserted x (inserted y a)) (inserted y (inserted x a))
  swapped x y a own k =
      rw
        (
          view-inserted x (inserted y a) k,
          view-inserted y (inserted x a) k,
          view-inserted y a k,
          view-inserted x a k,
        )
        (ground (arith, eq_iff (s.string x) k, eq_iff (s.string y) k, own))

  put_comm :
      (x y : V) (m : AbstractMap V)
      → (s.string x ≡ s.string y → x ≡ y)
      → put x (put y m) ≡ put y (put x m)
  unfolding put
  put_comm x y m own =
      Quot.ind (λ m. Quot-set (put x (put y m)) (put y (put x m)))
        (λ a. Quot.sound (swapped x y a own)) m

  put_all-Permᴰ :
      (xs ys : List V) (m : AbstractMap V)
      → HasOwnTexts xs
      → Permᴰ xs ys
      → put_all xs m ≡ put_all ys m
  put_all-Permᴰ _ _ m own Permᴰ.nil = refl
  put_all-Permᴰ (x ∷ xs) (y ∷ ys) m own (Permᴰ.cons e d) =
      put_all-Permᴰ xs ys (put x m) (λ v w i j. own v w (inr i) (inr j)) d
      ∙ ap (λ v. put_all ys (put v m)) e
  put_all-Permᴰ (x ∷ y ∷ l) (x' ∷ y' ∷ _) m own (Permᴰ.swap e e') =
      ap (put_all l) (put_comm y x m (own y x (inr (inl refl)) (inl refl)))
      ∙ ap (λ v. put_all l (put x (put v m))) e'
      ∙ ap (λ v. put_all l (put v (put x' m))) e
  put_all-Permᴰ xs zs m own (Permᴰ.trans {l₂ = ys} d d') =
      put_all-Permᴰ xs ys m own d
      ∙ put_all-Permᴰ ys zs m (λ v w i j. own v w (In-Permᴰ v xs ys d i) (In-Permᴰ w xs ys d j)) d'

  put_all-Perm :
      (xs ys : List V) (m : AbstractMap V)
      → HasOwnTexts xs
      → Perm xs ys
      → put_all xs m ≡ put_all ys m
  put_all-Perm xs ys m own perm = ∥∥₁_elim perm (Quot-set _ _) (λ d. put_all-Permᴰ xs ys m own d)

  -- Insertions into a valid map do not panic, and give the abstract insertions.
  insert_all-put_all :
      (xs : List V) (a : ValidMap V)
      → (b : ValidMap V) × (insert_all xs a.0 ≡ some b.0) × (put_all xs (Quot.mk a) ≡ Quot.mk b)
  unfolding put
  insert_all-put_all [] a = (a, refl, refl)
  insert_all-put_all (x ∷ xs) a =
      let (q, made, valid, _) = insert-view a.0 x a.1 in
      let (b, all, same) = insert_all-put_all xs (q, valid) in (b, rw made all, same)

  -- Goroutines that insert the same items into a valid map in two different orders get, without a
  -- panic, two maps that are equal as abstract maps, which hold the same item at every key, provided
  -- that no two items that differ among those inserted have the same text.
  pub insert_all-Perm :
      (a : ValidMap V) (xs ys : List V)
      → HasOwnTexts xs
      → Perm xs ys
      → (b c : ValidMap V) × (insert_all xs a.0 ≡ some b.0)
        × (insert_all ys a.0 ≡ some c.0)
        × (Path (AbstractMap V) (Quot.mk b) (Quot.mk c))
  insert_all-Perm a xs ys own perm =
      let (b, made, same) = insert_all-put_all xs a in
      let (c, made', same') = insert_all-put_all ys a in
      (b, c, made, made', sym same ∙ put_all-Perm xs ys (Quot.mk a) own perm ∙ same')
