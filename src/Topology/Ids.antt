-- ===== src/Topology/Ids.antt =====
-- The ordered lists of the topology (topology.c): the searches `check_exist_from_head` and
-- `check_pos_from_head` with the insertion that follows them, on a list of numbered objects.
use idlestat.Base.{
  ℕ, suc, ◌≡◌, refl, Bool, true, false, Option, none, some, List, [], ◌∷◌, if◌then◌else◌, ◌||◌, ltb,
  ◌==◌, ◌≤◌, arith, length, All, inl, inr, Bool-cases, map?,
}

module _ {A : Type 0} (id : A → ℕ) where
  unfoldable pub check_exist_from_head : List A → ℕ → Bool
  check_exist_from_head [] i = false
  check_exist_from_head (x ∷ xs) i = i == id x || check_exist_from_head xs i

  -- `list_add_tail` before the first object of a greater number, or at the end.
  unfoldable pub insert_before_greater : A → List A → List A
  insert_before_greater a [] = a ∷ []
  insert_before_greater a (x ∷ xs) =
      if ltb (id a) (id x) then a ∷ x ∷ xs else x ∷ insert_before_greater a xs

  -- The object of the number, which is added where it is missing.
  unfoldable pub ensure : A → List A → List A
  ensure a xs = if check_exist_from_head xs (id a) then xs else insert_before_greater a xs

  -- A change to the object that `check_exist_from_head` finds.
  unfoldable pub update_found : ℕ → (A → A) → List A → List A
  update_found i f [] = []
  update_found i f (x ∷ xs) = if i == id x then f x ∷ xs else x ∷ update_found i f xs

  unfoldable pub find_id : ℕ → List A → Option A
  find_id i [] = none
  find_id i (x ∷ xs) = if i == id x then some x else find_id i xs

  -- The numbers increase strictly, from `lo`.
  abbrev pub Ascends : ℕ → List A → Type 0
  Ascends lo [] = Unit
  Ascends lo (x ∷ xs) = (lo ≤ id x) × Ascends (suc (id x)) xs

  pub find_id-number : (i : ℕ) (xs : List A) (x : A) → find_id i xs ≡ some x → id x ≡ i
  unfolding find_id
  find_id-number i [] x e = absurd (ground arith)
  find_id-number i (y ∷ ys) x e = ground (arith, find_id-number i ys x)

  pub find_id-insert_before_greater :
      (i : ℕ) (a : A) (xs : List A)
      → check_exist_from_head xs (id a) ≡ false
      → find_id i (insert_before_greater a xs) ≡ (if i == id a then some a else find_id i xs)
  unfolding find_id insert_before_greater check_exist_from_head
  find_id-insert_before_greater i a [] h = refl
  find_id-insert_before_greater i a (x ∷ xs) h =
      ground (arith, find_id-insert_before_greater i a xs)

  pub find_id-update_found :
      (i j : ℕ) (f : A → A) (xs : List A)
      → ((x : A) → id (f x) ≡ id x)
      → find_id i (update_found j f xs) ≡ (if i == j then map? f (find_id j xs) else find_id i xs)
  unfolding find_id update_found
  find_id-update_found i j f [] h = ground arith
  find_id-update_found i j f (x ∷ xs) h = ground (arith, h x, find_id-update_found i j f xs h)

  pub check_exist-find_id :
      (i : ℕ) (xs : List A)
      → check_exist_from_head xs i ≡ (elim (find_id i xs) [ none ↦ false | some _ ↦ true ])
  unfolding find_id check_exist_from_head
  check_exist-find_id i [] = refl
  check_exist-find_id i (x ∷ xs) = ground (arith, check_exist-find_id i xs)

  pub insert_before_greater-Ascends :
      (a : A) (lo : ℕ) (xs : List A)
      → lo ≤ id a
      → check_exist_from_head xs (id a) ≡ false
      → Ascends lo xs
      → Ascends lo (insert_before_greater a xs)
  unfolding insert_before_greater check_exist_from_head
  insert_before_greater-Ascends a lo [] l h s = (l, tt)
  insert_before_greater-Ascends a lo (x ∷ xs) l h s =
      ground (arith, insert_before_greater-Ascends a (suc (id x)) xs)

  pub ensure-Ascends : (a : A) (xs : List A) → Ascends 0 xs → Ascends 0 (ensure a xs)
  unfolding ensure
  ensure-Ascends a xs s = elim (Bool-cases (check_exist_from_head xs (id a))) [
    | inl e ↦ rw e s
    | inr e ↦ rw e (insert_before_greater-Ascends a 0 xs (omega arith) e s)
  ]

  pub update_found-Ascends :
      (i : ℕ) (f : A → A) (lo : ℕ) (xs : List A)
      → ((x : A) → id (f x) ≡ id x)
      → Ascends lo xs
      → Ascends lo (update_found i f xs)
  unfolding update_found
  update_found-Ascends i f lo [] h s = tt
  update_found-Ascends i f lo (x ∷ xs) h s =
      ground (arith, h x, update_found-Ascends i f (suc (id x)) xs h)

  pub length-insert_before_greater :
      (a : A) (xs : List A) → length (insert_before_greater a xs) ≡ suc (length xs)
  unfolding insert_before_greater
  length-insert_before_greater a [] = refl
  length-insert_before_greater a (x ∷ xs) = ground (arith, length-insert_before_greater a xs)

  pub length-update_found :
      (i : ℕ) (f : A → A) (xs : List A) → length (update_found i f xs) ≡ length xs
  unfolding update_found
  length-update_found i f [] = refl
  length-update_found i f (x ∷ xs) = ground (arith, length-update_found i f xs)

  -- The object of a number once it has been added where missing and then changed.
  pub find_id-update_ensure :
      (i j : ℕ) (f : A → A) (a : A) (xs : List A)
      → id a ≡ j
      → ((x : A) → id (f x) ≡ id x)
      → find_id i (update_found j f (ensure a xs)) ≡ (
          if i == j then some (f (elim (find_id j xs) [ none ↦ a | some x ↦ x ])) else find_id i xs)
  unfolding ensure
  find_id-update_ensure i j f a xs e h = elim (Bool-cases (check_exist_from_head xs (id a))) [
    | inl k ↦ rw k (ground (arith, find_id-update_found i j f xs h, check_exist-find_id j xs))
    | inr k ↦ rw k (
        ground (
          arith,
          find_id-update_found i j f (insert_before_greater a xs) h,
          find_id-insert_before_greater i a xs,
          find_id-insert_before_greater j a xs,
          check_exist-find_id j xs,
        ))
  ]

  -- What holds of every object.
  pub insert_before_greater-All :
      (P : A → Type 0) (a : A) (xs : List A) → P a → All P xs → All P (insert_before_greater a xs)
  unfolding insert_before_greater
  insert_before_greater-All P a [] p h = (p, tt)
  insert_before_greater-All P a (x ∷ xs) p h = ground (arith, insert_before_greater-All P a xs p)

  pub update_found-All :
      (P : A → Type 0) (i : ℕ) (f : A → A) (xs : List A)
      → ((x : A) → P x → P (f x))
      → All P xs
      → All P (update_found i f xs)
  unfolding update_found
  update_found-All P i f [] k h = tt
  update_found-All P i f (x ∷ xs) k h = elim (Bool-cases (i == id x)) [
    | inl e ↦ rw e (k x h.0, h.1)
    | inr e ↦ rw e (h.0, update_found-All P i f xs k h.1)
  ]

  pub ensure-All : (P : A → Type 0) (a : A) (xs : List A) → P a → All P xs → All P (ensure a xs)
  unfolding ensure
  ensure-All P a xs p h = ground (arith, insert_before_greater-All P a xs p)
