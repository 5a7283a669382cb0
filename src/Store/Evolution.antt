-- ===== src/Store/Evolution.antt =====
-- How a table may evolve: every row that was there is still there, at its place, and has gone
-- through steps of a relation; the rows behind them are new and satisfy a predicate.
use vkit_orbit.Base.{
  String, Bool, true, false, ◌≡◌, ◌⊎◌, refl, sym, ap, ◌∙◌, subst, List, [], ◌∷◌, ◌++◌, Memᴰ, All,
  any, if◌then◌else◌, arith, inl, inr,
}
use mathlib.Core.List.Memᴰ as Mem
use vkit_orbit.Store.Rows.{update_if}

module _ {R : Type 0} (step : R → R → Type 0) (fresh : R → Type 0) where
  abbrev pub Evolves : List R → List R → Type 0
  Evolves [] new = All fresh new
  Evolves (r ∷ rows) [] = ⊥
  Evolves (r ∷ rows) (n ∷ new) = step r n × Evolves rows new

  module _ (step_refl : (r : R) → step r r) where
    pub Evolves-refl : (rows : List R) → Evolves rows rows
    Evolves-refl [] = tt
    Evolves-refl (r ∷ rows) = (step_refl r, Evolves-refl rows)

    pub Evolves-append : (rows : List R) (n : R) → fresh n → Evolves rows (rows ++ n ∷ [])
    Evolves-append [] n h = (h, tt)
    Evolves-append (r ∷ rows) n h = (step_refl r, Evolves-append rows n h)

    step_if : (b : Bool) (r n : R) → (b ≡ true → step r n) → step r (if b then n else r)
    step_if true r n h = h refl
    step_if false r n h = step_refl r

    pub Evolves-update_if :
        (p : R → Bool) (f : R → R) (rows : List R)
        → ((r : R) → Memᴰ r rows → p r ≡ true → step r (f r))
        → Evolves rows (update_if p f rows)
    Evolves-update_if p f [] h = tt
    Evolves-update_if p f (r ∷ rows) h = (
      step_if (p r) r (f r) (h r (Memᴰ.head refl)),
      Evolves-update_if p f rows (λ n m. h n (Memᴰ.tail m)),
    )

  module _ (step_trans : (a b c : R) → step a b → step b c → step a c)
      (fresh_step : (a b : R) → fresh a → step a b → fresh b) where
    All-fresh : (rows new : List R) → All fresh rows → Evolves rows new → All fresh new
    All-fresh [] new h e = e
    All-fresh (r ∷ rows) [] h e = elim e [ ]
    All-fresh (r ∷ rows) (n ∷ new) (p, h) (q, e) = (fresh_step r n p q, All-fresh rows new h e)

    pub Evolves-trans : (xs ys zs : List R) → Evolves xs ys → Evolves ys zs → Evolves xs zs
    Evolves-trans [] ys zs h k = All-fresh ys zs h k
    Evolves-trans (x ∷ xs) [] zs h k = elim h [ ]
    Evolves-trans (x ∷ xs) (y ∷ ys) [] h k = elim k [ ]
    Evolves-trans (x ∷ xs) (y ∷ ys) (z ∷ zs) (p, h) (q, k) =
        (step_trans x y z p q, Evolves-trans xs ys zs h k)

  -- What has become of a row.
  pub Evolves-mem :
      (rows new : List R) (r : R) → Evolves rows new → Memᴰ r rows → (n : R) × Memᴰ n new × step r n
  Evolves-mem [] new r e m = elim m [ ]
  Evolves-mem (x ∷ rows) [] r e m = elim e [ ]
  Evolves-mem (x ∷ rows) (n ∷ new) r (q, e) (Memᴰ.head i) =
      (n, Memᴰ.head refl, subst (λ y. step y n) (sym i) q)
  Evolves-mem (x ∷ rows) (n ∷ new) r (q, e) (Memᴰ.tail m) =
      let (later, there, went) = Evolves-mem rows new r e m in (later, Memᴰ.tail there, went)

-- No two rows have one id: what has the id of a row is that row.
abbrev pub HasUniqueIds : {R : Type 0} → (R → String) → List R → Type 0
HasUniqueIds {R} id rows = (a b : R) → Memᴰ a rows → Memᴰ b rows → id a ≡ id b → a ≡ b

module _ {R : Type 0} (id : R → String) where
  abbrev pub Origin : (R → Bool) → (R → R) → List R → R → Type 0
  Origin p f rows n = (r : R) × Memᴰ r rows × (n ≡ (if p r then f r else r))

  pub origin :
      (p : R → Bool) (f : R → R) (rows : List R) (n : R)
      → Memᴰ n (update_if p f rows)
      → Origin p f rows n
  origin p f [] n m = elim m [ ]
  origin p f (r ∷ rows) n (Memᴰ.head e) = (r, Memᴰ.head refl, e)
  origin p f (r ∷ rows) n (Memᴰ.tail m) =
      let (o, old, e) = origin p f rows n m in (o, Memᴰ.tail old, e)

  pub id_if :
      (f : R → R)
      → ((r : R) → id (f r) ≡ id r)
      → (b : Bool) (r : R) → id (if b then f r else r) ≡ id r
  id_if f h true r = h r
  id_if f h false r = refl

  pub HasUniqueIds-update_if :
      (p : R → Bool) (f : R → R) (rows : List R)
      → ((r : R) → id (f r) ≡ id r)
      → HasUniqueIds id rows
      → HasUniqueIds id (update_if p f rows)
  HasUniqueIds-update_if p f rows same unique a b ma mb e =
      let (r, mr, er) = origin p f rows a ma in
      let (t, mt, et) = origin p f rows b mb in
      let ids : id r ≡ id t =
        sym (id_if f same (p r) r) ∙ sym (ap id er) ∙ e ∙ ap id et ∙ id_if f same (p t) t in
      er ∙ ap (λ x. if p x then f x else x) (unique r t mr mt ids) ∙ sym et

  absent :
      (clash : R → Bool) (n : R) (rows : List R)
      → ((r : R) → id r ≡ id n → clash r ≡ true)
      → any clash rows ≡ false
      → (r : R) → Memᴰ r rows
      → id r ≡ id n
      → ⊥
  absent clash n [] h e r m i = elim m [ ]
  absent clash n (x ∷ rows) h e r (Memᴰ.head q) i = ground (arith, h x (ap id (sym q) ∙ i))
  absent clash n (x ∷ rows) h e r (Memᴰ.tail m) i = absent clash n rows h (ground arith) r m i

  pub HasUniqueIds-append :
      (clash : R → Bool) (n : R) (rows : List R)
      → ((r : R) → id r ≡ id n → clash r ≡ true)
      → any clash rows ≡ false
      → HasUniqueIds id rows
      → HasUniqueIds id (rows ++ n ∷ [])
  HasUniqueIds-append clash n rows h e unique a b ma mb i =
      go (Mem.append_cases rows ma) (Mem.append_cases rows mb)
    where
      only : (x : R) → Memᴰ x (n ∷ []) → x ≡ n
      only x (Memᴰ.head q) = q
      only x (Memᴰ.tail m) = elim m [ ]

      go : Memᴰ a rows ⊎ Memᴰ a (n ∷ []) → Memᴰ b rows ⊎ Memᴰ b (n ∷ []) → a ≡ b
      go (inl p) (inl q) = unique a b p q i
      go (inl p) (inr q) = absurd (absent clash n rows h e a p (i ∙ ap id (only b q)))
      go (inr p) (inl q) = absurd (absent clash n rows h e b q (sym i ∙ ap id (only a p)))
      go (inr p) (inr q) = only a p ∙ sym (only b q)
