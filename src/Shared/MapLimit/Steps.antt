-- ===== src/Shared/MapLimit/Steps.antt =====
-- src/shared/map-limit.ts: one run of a worker.
use excubitor.Prelude.{
  ℕ, ◌+◌, ◌≤◌, ◌<◌, ◌≡◌, ◌≢◌, refl, sym, ap, subst, ◌∙◌, ◌⊎◌, inl, inr, List, [], ◌∷◌, ◌++◌, Option,
  none, some, Bool, true, false, ltb, ◌==◌, if◌then◌else◌, length, length-append, length-set,
  get_or, set, get_or-set_self, get_or-set_ne, All, All-append, All-mono, Bool-cases, arith,
}
use excubitor.Prelude.Comparing.{Member}
use excubitor.Shared.MapLimit.{Pool, indices, call, work}
use excubitor.Shared.MapLimit.Indices.{
  indices_next, Member-left, Member-snoc, Member-middle, All-middle,
}

module _ {ℓ κ} {A : Type ℓ} {R : Type κ} (fn : A → ℕ → Option R) (items : List A) where
  -- An item before the next one is awaited, has thrown, or has its result in its place.
  abbrev pub IsRead : Pool R → ℕ → Type κ
  IsRead p i =
      (get_or p.results i none ≡ call fn items i) ⊎ (Member i p.active ⊎ (call fn items i ≡ none))

  pub record IsSound (p : Pool R) : Type κ where
    pub bounded : p.next ≤ length items
    pub sized : length p.results ≡ length items
    pub below : All (λ i. i < p.next) p.active
    pub read : (i : ℕ) → i < p.next → IsRead p i
    pub started : p.called ≡ indices 0 p.next
    pub counted : p.settled + length p.active ≡ p.next

  taken :
      (p : Pool R)
      → IsSound p
      → p.next < length items
      → IsSound (record p {
        next = p.next + 1;
        active = p.active ++ p.next ∷ [];
        called = p.called ++ p.next ∷ [];
      })
  taken p h room = record {
    bounded = omega arith;
    sized = h.sized;
    below =
        All-append (λ i. i < p.next + 1) p.active (p.next ∷ [])
          (All-mono (λ i l. omega arith) p.active h.below) (omega arith, tt);
    read = λ i l. elim (Bool-cases (ltb i p.next)) [
      | inl earlier ↦ keep i (h.read i (ground (arith, earlier)))
      | inr last ↦
          let same : p.next ≡ i = ground (arith, last) in
          inr (
            inl
              (subst (λ n. Member n (p.active ++ p.next ∷ [])) same (Member-snoc p.next p.active)))
    ];
    started = ap (λ t. t ++ p.next ∷ []) h.started ∙ sym (indices_next p.next);
    counted = omega (arith, h.counted, length-append p.active (p.next ∷ []));
  }
    where
      keep :
          (i : ℕ)
          → IsRead p i
          → (get_or p.results i none ≡ call fn items i)
            ⊎ (Member i (p.active ++ p.next ∷ []) ⊎ (call fn items i ≡ none))
      keep i (inl stored) = inl stored
      keep i (inr (inl m)) = inr (inl (Member-left i p.active (p.next ∷ []) m))
      keep i (inr (inr threw)) = inr (inr threw)

  if_elim {μ} :
      (P : Pool R → Type μ) (b : Bool) (x y : Pool R)
      → (b ≡ true → P x)
      → (b ≡ false → P y)
      → P (if b then x else y)
  if_elim P true x y f g = f refl
  if_elim P false x y f g = g refl

  -- All items are taken, or some call is awaited.
  abbrev pub IsAlive : Pool R → Type 0
  IsAlive p = (p.next ≡ length items) ⊎ (1 ≤ length p.active)

  abbrev pub Works : Pool R → Pool R → Type κ
  Works p q = IsSound q × (length q.active ≤ length p.active + 1) × IsAlive q

  pub work-Works : (p : Pool R) → IsSound p → Works p (work fn items p)
  unfolding work
  work-Works p h =
      let one = length-append p.active (p.next ∷ []) in
      if_elim (Works p) (ltb p.next (length items)) _ _
        (λ room. (taken p h (ground (arith, room)), omega (arith, one), inr (omega (arith, one))))
        (λ over. (h, omega arith, inl (ground (arith, over, h.bounded))))

  pub settled_none :
      (front : List ℕ) (index : ℕ) (back : List ℕ) (p : Pool R)
      → IsSound p
      → p.active ≡ front ++ index ∷ back
      → call fn items index ≡ none
      → IsSound (record p { active = front ++ back; failed = true; settled = p.settled + 1 })
  settled_none front index back p h e threw =
      let (one, rest) =
        All-middle (λ i. i < p.next) front index back (subst (All (λ i. i < p.next)) e h.below) in
      let size = ap length e in
      record {
        bounded = h.bounded;
        sized = h.sized;
        below = rest;
        read = λ i l. keep i (h.read i l);
        started = h.started;
        counted =
            omega (
              arith,
              h.counted,
              size,
              length-append front (index ∷ back),
              length-append front back,
            );
      }
    where
      still :
          (i : ℕ)
          → (index ≡ i) ⊎ Member i (front ++ back)
          → Member i (front ++ back) ⊎ (call fn items i ≡ none)
      still i (inl same) = inr (subst (λ n. call fn items n ≡ none) same threw)
      still i (inr m) = inl m

      keep :
          (i : ℕ)
          → IsRead p i
          → (get_or p.results i none ≡ call fn items i)
            ⊎ (Member i (front ++ back) ⊎ (call fn items i ≡ none))
      keep i (inl stored) = inl stored
      keep i (inr (inl m)) = inr (still i (Member-middle front i index back (subst (Member i) e m)))
      keep i (inr (inr failure)) = inr (inr failure)

  -- What is read once the call has stored its result.
  abbrev Now : List ℕ → ℕ → List ℕ → R → Pool R → ℕ → Type κ
  Now front index back r p i =
      (get_or (set p.results index (some r)) i none ≡ call fn items i)
      ⊎ (Member i (front ++ back) ⊎ (call fn items i ≡ none))

  pub settled_some :
      (front : List ℕ) (index : ℕ) (back : List ℕ) (r : R) (p : Pool R)
      → IsSound p
      → p.active ≡ front ++ index ∷ back
      → call fn items index ≡ some r
      → IsSound (record p {
        active = front ++ back;
        results = set p.results index (some r);
        settled = p.settled + 1;
      })
  settled_some front index back r p h e given =
      let (one, rest) =
        All-middle (λ i. i < p.next) front index back (subst (All (λ i. i < p.next)) e h.below) in
      let size = ap length e in
      record {
        bounded = h.bounded;
        sized = length-set p.results index (some r) ∙ h.sized;
        below = rest;
        read = λ i l. keep i (omega (arith, one, h.bounded, h.sized)) (h.read i l);
        started = h.started;
        counted =
            omega (
              arith,
              h.counted,
              size,
              length-append front (index ∷ back),
              length-append front back,
            );
      }
    where
      stored_here : (i : ℕ) → index < length p.results → index ≡ i → Now front index back r p i
      stored_here i l same = inl (
          subst (λ n. get_or (set p.results index (some r)) n none ≡ call fn items n) same
            (get_or-set_self p.results index (some r) none l ∙ sym given))

      elsewhere : (i : ℕ) → index ≢ i → IsRead p i → Now front index back r p i
      elsewhere i other (inl stored) =
          inl (get_or-set_ne p.results index i (some r) none other ∙ stored)
      elsewhere i other (inr (inl m)) =
          elim (Member-middle front i index back (subst (Member i) e m)) [
            | inl same ↦ absurd (other same)
            | inr k ↦ inr (inl k)
          ]
      elsewhere i other (inr (inr failure)) = inr (inr failure)

      keep : (i : ℕ) → index < length p.results → IsRead p i → Now front index back r p i
      keep i l was = elim (Bool-cases (index == i)) [
        | inl same ↦ stored_here i l (ground (arith, same))
        | inr other ↦ elsewhere i (λ e. ground (arith, other)) was
      ]
