-- ===== src/Store/Reference.antt =====
-- A client that computes on the lists, to run the model and to show that the client's laws can hold.
use vkit_orbit.Base.{
  ℕ, zero, suc, ◌≤◌, ◌<◌, Bool, true, false, ◌≡◌, refl, sym, subst, Option, none, some, List, [],
  ◌∷◌, ◌++◌, Memᴰ, any, length, take, filter, find, length-take-le, All, if◌then◌else◌, leb, leb→le,
  arith, Bool-cases, inl, inr, ◌⊎◌,
}
use vkit_orbit.Store.Client.{
  Error, Result, ok, err, unique_violation, record_missing, Order, unordered, asc, desc, Precedes,
  IsOrdered, Client,
}
use vkit_orbit.Store.Rows.{update_if, count_if, delete_if}

module _ {R : Type 0} where
  goes_first : Order R → R → R → Bool
  goes_first unordered a b = true
  goes_first (asc key) a b = leb (key a) (key b)
  goes_first (desc key) a b = leb (key b) (key a)

  insert : Order R → R → List R → List R
  insert o r [] = r ∷ []
  insert o r (x ∷ xs) =
      let rest = insert o r xs in if goes_first o r x then r ∷ x ∷ xs else x ∷ rest

  sort : Order R → List R → List R
  sort o [] = []
  sort o (r ∷ rows) = insert o r (sort o rows)

  unfoldable pub find_many : (R → Bool) → Order R → ℕ → List R → List R
  unfolding goes_first insert sort
  find_many p o limit rows = take limit (sort o (filter p rows))

  pub find-some :
      (p : R → Bool) (rows : List R) (r : R) → find p rows ≡ some r → Memᴰ r rows × (p r ≡ true)
  find-some p [] r e = cc
  find-some p (x ∷ rows) r e = elim (Bool-cases (p x)) [
    | inl t ↦ (Memᴰ.head (ground arith), ground arith)
    | inr f ↦ let (m, h) = find-some p rows r (ground arith) in (Memᴰ.tail m, h)
  ]

  pub find-none : (p : R → Bool) (rows : List R) → find p rows ≡ none → All (λ r. p r ≡ false) rows
  find-none p [] e = tt
  find-none p (x ∷ rows) e = (ground arith, find-none p rows (ground arith))

  -- Where a member of a conditional list stands.
  if_cases :
      (b : Bool) (xs ys : List R) (r : R)
      → Memᴰ r (if b then xs else ys)
      → (b ≡ true) × Memᴰ r xs ⊎ (b ≡ false) × Memᴰ r ys
  if_cases true xs ys r m = inl (refl, m)
  if_cases false xs ys r m = inr (refl, m)

  cons_cases : (x r : R) (xs : List R) → Memᴰ r (x ∷ xs) → (r ≡ x) ⊎ Memᴰ r xs
  cons_cases x r xs (Memᴰ.head e) = inl e
  cons_cases x r xs (Memᴰ.tail m) = inr m

  pub filter_sound :
      (p : R → Bool) (rows : List R) (r : R) → Memᴰ r (filter p rows) → Memᴰ r rows × (p r ≡ true)
  filter_sound p [] r m = elim m [ ]
  filter_sound p (x ∷ rows) r m =
      let ih = filter_sound p rows r in
      elim (if_cases (p x) (x ∷ filter p rows) (filter p rows) r m) [
        | inl (e, kept) ↦ elim (cons_cases x r (filter p rows) kept) [
          | inl q ↦ (Memᴰ.head q, subst (λ y. p y ≡ true) (sym q) e)
          | inr d ↦ (Memᴰ.tail (ih d).0, (ih d).1)
        ]
        | inr (e, d) ↦ (Memᴰ.tail (ih d).0, (ih d).1)
      ]

  pub filter_complete :
      (p : R → Bool) (rows : List R) (r : R) → Memᴰ r rows → p r ≡ true → Memᴰ r (filter p rows)
  filter_complete p [] r m h = elim m [ ]
  filter_complete p (x ∷ rows) r (Memᴰ.head e) h = rw (subst (λ y. p y ≡ true) e h) (Memᴰ.head e)
  filter_complete p (x ∷ rows) r (Memᴰ.tail m) h =
      let ih = filter_complete p rows r m h in
      elim (Bool-cases (p x)) [ inl e ↦ rw e (Memᴰ.tail ih) | inr e ↦ rw e ih ]

  insert_sound :
      (o : Order R) (x r : R) (xs : List R) → Memᴰ r (insert o x xs) → (r ≡ x) ⊎ Memᴰ r xs
  unfolding insert
  insert_sound o x r [] m = cons_cases x r [] m
  insert_sound o x r (y ∷ xs) m =
      let ih = insert_sound o x r xs in
      elim (if_cases (goes_first o x y) (x ∷ y ∷ xs) (y ∷ insert o x xs) r m) [
        | inl (e, d) ↦ cons_cases x r (y ∷ xs) d
        | inr (e, d) ↦ elim (cons_cases y r (insert o x xs) d) [
          | inl q ↦ inr (Memᴰ.head q)
          | inr d' ↦ elim (ih d') [ inl q ↦ inl q | inr d'' ↦ inr (Memᴰ.tail d'') ]
        ]
      ]

  insert_here : (o : Order R) (x r : R) (xs : List R) → r ≡ x → Memᴰ r (insert o x xs)
  unfolding insert
  insert_here o x r [] q = Memᴰ.head q
  insert_here o x r (y ∷ xs) q =
      let ih = insert_here o x r xs q in
      elim (Bool-cases (goes_first o x y)) [
        | inl e ↦ rw e (Memᴰ.head q)
        | inr e ↦ rw e (Memᴰ.tail ih)
      ]

  insert_there : (o : Order R) (x r : R) (xs : List R) → Memᴰ r xs → Memᴰ r (insert o x xs)
  unfolding insert
  insert_there o x r [] m = elim m [ ]
  insert_there o x r (y ∷ xs) (Memᴰ.head q) = elim (Bool-cases (goes_first o x y)) [
    | inl e ↦ rw e (Memᴰ.tail (Memᴰ.head q))
    | inr e ↦ rw e (Memᴰ.head q)
  ]
  insert_there o x r (y ∷ xs) (Memᴰ.tail m) =
      let ih = insert_there o x r xs m in
      elim (Bool-cases (goes_first o x y)) [
        | inl e ↦ rw e (Memᴰ.tail (Memᴰ.tail m))
        | inr e ↦ rw e (Memᴰ.tail ih)
      ]

  sort_sound : (o : Order R) (r : R) (rows : List R) → Memᴰ r (sort o rows) → Memᴰ r rows
  unfolding sort
  sort_sound o r [] m = elim m [ ]
  sort_sound o r (x ∷ rows) m =
      let ih = sort_sound o r rows in
      elim (insert_sound o x r (sort o rows) m) [ inl q ↦ Memᴰ.head q | inr d ↦ Memᴰ.tail (ih d) ]

  sort_complete : (o : Order R) (r : R) (rows : List R) → Memᴰ r rows → Memᴰ r (sort o rows)
  unfolding sort
  sort_complete o r [] m = elim m [ ]
  sort_complete o r (x ∷ rows) (Memᴰ.head q) = insert_here o x r (sort o rows) q
  sort_complete o r (x ∷ rows) (Memᴰ.tail m) =
      insert_there o x r (sort o rows) (sort_complete o r rows m)

  take_sound : (n : ℕ) (r : R) (xs : List R) → Memᴰ r (take n xs) → Memᴰ r xs
  take_sound zero r xs m = elim m [ ]
  take_sound (suc n) r [] m = elim m [ ]
  take_sound (suc n) r (x ∷ xs) (Memᴰ.head q) = Memᴰ.head q
  take_sound (suc n) r (x ∷ xs) (Memᴰ.tail m) = Memᴰ.tail (take_sound n r xs m)

  take_complete :
      (n : ℕ) (r : R) (xs : List R) → length (take n xs) < n → Memᴰ r xs → Memᴰ r (take n xs)
  take_complete zero r xs h m = absurd (omega arith)
  take_complete (suc n) r [] h m = elim m [ ]
  take_complete (suc n) r (x ∷ xs) h (Memᴰ.head q) = Memᴰ.head q
  take_complete (suc n) r (x ∷ xs) h (Memᴰ.tail m) =
      Memᴰ.tail (take_complete n r xs (omega arith) m)

  pub All-of_mem : (P : R → Type 0) (xs : List R) → ((r : R) → Memᴰ r xs → P r) → All P xs
  All-of_mem P [] h = tt
  All-of_mem P (x ∷ xs) h = (h x (Memᴰ.head refl), All-of_mem P xs (λ r m. h r (Memᴰ.tail m)))

  -- Ties and the other way round: what does not go first comes after.
  goes_first-Precedes : (o : Order R) (a b : R) → goes_first o a b ≡ true → Precedes o a b
  unfolding goes_first
  goes_first-Precedes unordered a b h = tt
  goes_first-Precedes (asc key) a b h = leb→le _ _ h
  goes_first-Precedes (desc key) a b h = leb→le _ _ h

  Precedes-other : (o : Order R) (a b : R) → goes_first o a b ≡ false → Precedes o b a
  unfolding goes_first
  Precedes-other unordered a b h = tt
  Precedes-other (asc key) a b h = ground arith
  Precedes-other (desc key) a b h = ground arith

  Precedes-trans : (o : Order R) (a b c : R) → Precedes o a b → Precedes o b c → Precedes o a c
  Precedes-trans unordered a b c h k = tt
  Precedes-trans (asc key) a b c h k = omega arith
  Precedes-trans (desc key) a b c h k = omega arith

  All-Precedes :
      (o : Order R) (a b : R) (xs : List R)
      → Precedes o a b
      → All (Precedes o b) xs
      → All (Precedes o a) xs
  All-Precedes o a b [] h k = tt
  All-Precedes o a b (x ∷ xs) h (p, k) = (Precedes-trans o a b x h p, All-Precedes o a b xs h k)

  All-insert :
      (P : R → Type 0) (o : Order R) (x : R) (xs : List R) → P x → All P xs → All P (insert o x xs)
  unfolding insert
  All-insert P o x [] p h = (p, tt)
  All-insert P o x (y ∷ xs) p (q, h) =
      let ih = All-insert P o x xs p h in
      elim (Bool-cases (goes_first o x y)) [ inl e ↦ rw e (p, (q, h)) | inr e ↦ rw e (q, ih) ]

  insert-IsOrdered :
      (o : Order R) (x : R) (xs : List R) → IsOrdered o xs → IsOrdered o (insert o x xs)
  unfolding insert
  insert-IsOrdered o x [] h = (tt, tt)
  insert-IsOrdered o x (y ∷ xs) (k, h) =
      let ih = insert-IsOrdered o x xs h in
      elim (Bool-cases (goes_first o x y)) [
        | inl e ↦ rw e (
          (goes_first-Precedes o x y e, All-Precedes o x y xs (goes_first-Precedes o x y e) k),
          (k, h),
        )
        | inr e ↦ rw e (All-insert (Precedes o y) o x xs (Precedes-other o x y e) k, ih)
      ]

  sort-IsOrdered : (o : Order R) (rows : List R) → IsOrdered o (sort o rows)
  unfolding sort
  sort-IsOrdered o [] = tt
  sort-IsOrdered o (r ∷ rows) = insert-IsOrdered o r (sort o rows) (sort-IsOrdered o rows)

  All-take : (P : R → Type 0) (n : ℕ) (xs : List R) → All P xs → All P (take n xs)
  All-take P zero xs h = tt
  All-take P (suc n) [] h = tt
  All-take P (suc n) (x ∷ xs) (p, h) = (p, All-take P n xs h)

  take-IsOrdered : (o : Order R) (n : ℕ) (xs : List R) → IsOrdered o xs → IsOrdered o (take n xs)
  take-IsOrdered o zero xs h = tt
  take-IsOrdered o (suc n) [] h = tt
  take-IsOrdered o (suc n) (x ∷ xs) (k, h) =
      (All-take (Precedes o x) n xs k, take-IsOrdered o n xs h)

  pub find_many_sound :
      (p : R → Bool) (o : Order R) (limit : ℕ) (rows : List R)
      → All (λ r. Memᴰ r rows × (p r ≡ true)) (find_many p o limit rows)
  unfolding find_many
  find_many_sound p o limit rows =
      All-of_mem _ _
        (λ r m. filter_sound p rows r (sort_sound o r (filter p rows) (take_sound limit r _ m)))

  pub find_many-complete :
      (p : R → Bool) (o : Order R) (limit : ℕ) (rows : List R)
      → length (find_many p o limit rows) < limit
      → (r : R) → Memᴰ r rows
      → p r ≡ true
      → Memᴰ r (find_many p o limit rows)
  unfolding find_many
  find_many-complete p o limit rows h r m e =
      take_complete limit r _ h (sort_complete o r _ (filter_complete p rows r m e))

  pub find_many-limit :
      (p : R → Bool) (o : Order R) (limit : ℕ) (rows : List R)
      → length (find_many p o limit rows) ≤ limit
  unfolding find_many
  find_many-limit p o limit rows = length-take-le limit _

  pub find_many-IsOrdered :
      (p : R → Bool) (o : Order R) (limit : ℕ) (rows : List R)
      → IsOrdered o (find_many p o limit rows)
  unfolding find_many
  find_many-IsOrdered p o limit rows = take-IsOrdered o limit _ (sort-IsOrdered o (filter p rows))

  -- The first row that fits is updated, where there is one.
  update_found : (p : R → Bool) (f : R → R) (rows : List R) → Option R → Result (List R × R)
  update_found p f rows none = err record_missing
  update_found p f rows (some r) = ok (update_if p f rows, f r)

  pub update_with : (p : R → Bool) (f : R → R) (rows : List R) → Result (List R × R)
  unfolding update_found
  update_with p f rows = update_found p f rows (find p rows)

  pub update_with-none :
      (p : R → Bool) (f : R → R) (rows : List R)
      → find p rows ≡ none
      → update_with p f rows ≡ err record_missing
  unfolding update_with
  update_with-none p f rows e = rw (e, update_found)

  pub update_with-some :
      (p : R → Bool) (f : R → R) (rows : List R) (r : R)
      → find p rows ≡ some r
      → update_with p f rows ≡ ok (update_if p f rows, f r)
  unfolding update_with
  update_with-some p f rows r e = rw (e, update_found)

module _ {S A : Type 0} where
  -- What a transaction makes of the end of its body.
  finish : S → Result A × S → Result A × S
  finish s (ok a, t) = (ok a, t)
  finish s (err e, t) = (err e, s)

  pub rollback : (S → Result A × S) → S → Result A × S
  unfolding finish
  rollback body s = finish s (body s)

  pub rollback_commit :
      (body : S → Result A × S) (s t : S) (a : A) → body s ≡ (ok a, t) → rollback body s ≡ (ok a, t)
  unfolding rollback
  rollback_commit body s t a e = rw (e, finish)

  pub rollback_throw :
      (body : S → Result A × S) (s t : S) (x : Error)
      → body s ≡ (err x, t)
      → rollback body s ≡ (err x, s)
  unfolding rollback
  rollback_throw body s t x e = rw (e, finish)

-- The client itself.
unfoldable pub client : Client
unfolding find_many update_with rollback
client = record {
  find_first = λ p rows. find p rows;
  find_many = λ p o limit rows. find_many p o limit rows;
  find_all = λ p rows. filter p rows;
  count = λ p rows. count_if p rows;
  update_many = λ p f rows. (update_if p f rows, count_if p rows);
  create = λ clash r rows. if any clash rows then err unique_violation else ok (rows ++ r ∷ []);
  update = λ p f rows. update_with p f rows;
  delete = λ p rows. if any p rows then ok (delete_if p rows) else err record_missing;
  transaction = λ body s. rollback body s;
  find_first_some = λ p rows r e. find-some p rows r e;
  find_first_none = λ p rows e. find-none p rows e;
  find_many_sound = λ p o limit rows. find_many_sound p o limit rows;
  find_many_limit = λ p o limit rows. find_many-limit p o limit rows;
  find_many_complete = λ p o limit rows h r m e. find_many-complete p o limit rows h r m e;
  find_many_ordered = λ p o limit rows. find_many-IsOrdered p o limit rows;
  find_all_sound = λ p rows. All-of_mem _ _ (λ r m. filter_sound p rows r m);
  find_all_complete = λ p rows r m e. filter_complete p rows r m e;
  count_lem = λ p rows. refl;
  update_many_lem = λ p f rows. refl;
  create_lem = λ clash r rows. refl;
  update_none = λ p f rows e. update_with-none p f rows e;
  update_some = λ p f rows r e. update_with-some p f rows r e;
  delete_lem = λ p rows. refl;
  transaction_commit = λ body s t a e. rollback_commit body s t a e;
  transaction_rollback = λ body s t x e. rollback_throw body s t x e;
}
