-- ===== src/Shared/MapLimit/Results.antt =====
-- src/shared/map-limit.ts: however the calls settle, how many are awaited and what is stored.
use excubitor.Prelude.{
  ℕ, zero, suc, ◌+◌, ◌≤◌, ◌<◌, ◌≡◌, refl, sym, ap, subst, ◌∙◌, ◌⊎◌, inl, inr, List, [], ◌∷◌, ◌++◌,
  Option, none, some, true, false, ltb, length, length-append, length-replicate, get_or, min,
  Bool-cases, some_injective, arith,
}
use excubitor.Shared.MapLimit.{
  Pool, indices, call, work, start_workers, start, map_with_limit, store, settle, Reachable, begins,
  settles,
}
use excubitor.Shared.MapLimit.Indices.{Member-nil}
use excubitor.Shared.MapLimit.Steps.{
  IsRead, IsSound, IsAlive, work-Works, settled_none, settled_some,
}

module _ {ℓ κ} {A : Type ℓ} {R : Type κ} (fn : A → ℕ → Option R) (items : List A) where
  -- And at most `limit` calls are awaited.
  abbrev IsRunning : ℕ → Pool R → Type κ
  IsRunning limit p =
      IsSound fn items p × (length p.active ≤ limit) × ((p.failed ≡ true) ⊎ IsAlive fn items p)

  start_workers-IsRunning :
      (workers limit : ℕ) (p : Pool R)
      → IsSound fn items p
      → length p.active + workers ≤ limit
      → (1 ≤ workers) ⊎ IsAlive fn items p
      → IsRunning limit (start_workers fn items workers p)
  unfolding start_workers
  start_workers-IsRunning zero limit p h few alive = (h, omega arith, inr (idle alive))
    where
      idle : (1 ≤ 0) ⊎ IsAlive fn items p → IsAlive fn items p
      idle (inl no_worker) = absurd (omega arith)
      idle (inr a) = a
  start_workers-IsRunning (suc workers) limit p h few alive =
      let (sound, more, now_alive) = work-Works fn items p h in
      start_workers-IsRunning workers limit (work fn items p) sound (omega arith) (inr now_alive)

  start-IsRunning : (limit : ℕ) → 1 ≤ limit → IsRunning limit (start fn items limit)
  unfolding start indices
  start-IsRunning limit l =
      start_workers-IsRunning (min limit (length items)) limit _
        (record {
          bounded = omega arith;
          sized = length-replicate (length items) none;
          below = tt;
          read = λ i k. absurd (omega arith);
          started = refl;
          counted = refl;
        })
        (omega arith) (some_worker (Bool-cases (ltb 0 (length items))))
    where
      some_worker :
          (ltb 0 (length items) ≡ true) ⊎ (ltb 0 (length items) ≡ false)
          → (1 ≤ min limit (length items)) ⊎ ((0 ≡ length items) ⊎ (1 ≤ 0))
      some_worker (inl items_there) =
          let one : 0 < length items = ground (arith, items_there) in inl (omega arith)
      some_worker (inr no_item) = inr (inl (ground (arith, no_item)))

  one_less :
      (front : List ℕ) (index : ℕ) (back : List ℕ) (limit : ℕ) (p : Pool R)
      → length p.active ≤ limit
      → p.active ≡ front ++ index ∷ back
      → length (front ++ back) + 1 ≤ limit
  one_less front index back limit p few e =
      let size = ap length e in
      omega (arith, size, length-append front (index ∷ back), length-append front back)

  store-IsRunning :
      (front : List ℕ) (index : ℕ) (back : List ℕ) (limit : ℕ) (p : Pool R) (o : Option R)
      → IsRunning limit p
      → p.active ≡ front ++ index ∷ back
      → call fn items index ≡ o
      → IsRunning limit (store fn items index o (record p { active = front ++ back }))
  unfolding store
  store-IsRunning front index back limit p none (h, few, alive) e given =
      let shorter = one_less front index back limit p few e in
      (settled_none fn items front index back p h e given, omega arith, inl refl)
  store-IsRunning front index back limit p (some r) (h, few, alive) e given =
      let shorter = one_less front index back limit p few e in
      let (sound, more, now_alive) =
        work-Works fn items _ (settled_some fn items front index back r p h e given) in
      (sound, omega arith, inr now_alive)

  Reachable-IsRunning : (limit : ℕ) (p : Pool R) → Reachable fn items limit p → IsRunning limit p
  unfolding map_with_limit settle
  Reachable-IsRunning limit p (begins q e) = elim (Bool-cases (ltb 0 limit)) [
    | inl positive ↦
        let made : start fn items limit ≡ q = some_injective (sym (rw positive refl) ∙ e) in
        subst (IsRunning limit) made (start-IsRunning limit (ground (arith, positive)))
    | inr bad ↦ absurd (never (sym (rw bad refl) ∙ e))
  ]
    where
      never : none ≡ some q → ⊥
      never f = cc
  Reachable-IsRunning limit p (settles front index back q r e) =
      store-IsRunning front index back limit q (call fn items index) (Reachable-IsRunning limit q r)
        e refl

module _ {ℓ κ} {A : Type ℓ} {R : Type κ} (fn : A → ℕ → Option R) (items : List A) where
  all_taken :
      (p : Pool R)
      → p.failed ≡ false
      → p.active ≡ []
      → (p.failed ≡ true) ⊎ IsAlive fn items p
      → p.next ≡ length items
  all_taken p fine idle (inl failed) = absurd (differ (sym fine ∙ failed))
    where
      differ : false ≡ true → ⊥
      differ e = cc
  all_taken p fine idle (inr (inl whole)) = whole
  all_taken p fine idle (inr (inr some_call)) = absurd (omega (arith, some_call, ap length idle))

  stored :
      (p : Pool R) (i : ℕ) (r : R)
      → p.active ≡ []
      → call fn items i ≡ some r
      → IsRead fn items p i
      → get_or p.results i none ≡ some r
  stored p i r idle given (inl e) = e ∙ given
  stored p i r idle given (inr (inl m)) = absurd (Member-nil i p.active m idle)
  stored p i r idle given (inr (inr threw)) = absurd (clash (sym threw ∙ given))
    where
      clash : none ≡ some r → ⊥
      clash e = cc

-- However the calls settle, at most `limit` of them are awaited, the function has been called for the
-- first items, once for each and in their order, and each call has settled or is awaited.
pub Reachable-called {ℓ κ} :
    {A : Type ℓ} {R : Type κ} (fn : A → ℕ → Option R) (items : List A) (limit : ℕ) (p : Pool R)
    → Reachable fn items limit p
    → (length p.active ≤ limit)
      × (p.called ≡ indices 0 p.next)
      × (p.next ≤ length items)
      × (p.settled + length p.active ≡ p.next)
Reachable-called fn items limit p r =
    let (h, few, alive) = Reachable-IsRunning fn items limit p r in
    (few, h.started, h.bounded, h.counted)

-- Once no call is awaited, and none has thrown, each item's result stands in its place, whatever the
-- order in which the calls have settled.
pub Reachable-results {ℓ κ} :
    {A : Type ℓ} {R : Type κ} (fn : A → ℕ → Option R) (items : List A) (limit : ℕ) (p : Pool R)
    (i : ℕ) (r : R)
    → Reachable fn items limit p
    → p.active ≡ []
    → p.failed ≡ false
    → i < length items
    → call fn items i ≡ some r
    → get_or p.results i none ≡ some r
Reachable-results fn items limit p i r reached idle fine inside given =
    let (h, few, alive) = Reachable-IsRunning fn items limit p reached in
    let whole = all_taken fn items p fine idle alive in
    stored fn items p i r idle given (h.read i (omega arith))
