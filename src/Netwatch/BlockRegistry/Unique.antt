-- ===== src/Netwatch/BlockRegistry/Unique.antt =====
-- src/netwatch/block-registry.ts: entries of which no two block the same target.
use excubitor.Prelude.{
  ℕ, suc, ◌≤◌, ◌≡◌, refl, sym, ◌∙◌, String, str_eq, eq_iff, List, [], ◌∷◌, ◌++◌, Option, none, some,
  Bool, false, not, leb, filter, length, length-append, arith, All, All-append, inl, inr,
  Bool-cases,
}
use excubitor.Prelude.Sorting.{sort_by, insert_by, All-insert_by, All-filter, All-sort_by}
use excubitor.Netwatch.BlockRegistry.{
  BlockKind, BlockTarget, BlockEntry, BlockRegistry, is_active, list, same_kind, same, find_id,
  find_same, add_entry, add, remove_found, remove, expire,
}

abbrev expiry : BlockEntry → ℕ
expiry e = e.expires_at_ms

same_kind_comm : (a b : BlockKind) → same_kind a b ≡ same_kind b a
same_kind_comm BlockKind.address BlockKind.address = refl
same_kind_comm BlockKind.address BlockKind.program = refl
same_kind_comm BlockKind.program BlockKind.address = refl
same_kind_comm BlockKind.program BlockKind.program = refl

pub length-filter-le :
    (p : BlockEntry → Bool) (es : List BlockEntry) → length (filter p es) ≤ length es
length-filter-le p [] = omega arith
length-filter-le p (e ∷ es) = ground (arith, length-filter-le p es)

room_left : (m n : ℕ) → leb m n ≡ false → suc n ≤ m
room_left m n h = ground arith

module _ (lower : String → String) where
  abbrev pub clash : BlockEntry → BlockEntry → Bool
  clash a b = same lower a.kind a.value b

  -- No two entries block the same target.
  abbrev pub IsUnique : List BlockEntry → Type 0
  IsUnique [] = Unit {0}
  IsUnique (e ∷ es) = All (λ x. clash e x ≡ false) es × IsUnique es

  clash_comm : (a b : BlockEntry) → clash a b ≡ clash b a
  unfolding same
  clash_comm a b = ground (
    arith,
    same_kind_comm a.kind b.kind,
    eq_iff (lower a.value) (lower b.value),
    eq_iff (lower b.value) (lower a.value),
  )

  filter-IsUnique :
      (p : BlockEntry → Bool) (es : List BlockEntry) → IsUnique es → IsUnique (filter p es)
  filter-IsUnique p [] u = tt
  filter-IsUnique p (e ∷ es) u =
      ground (arith, All-filter expiry (λ x. clash e x ≡ false) p es u.0, filter-IsUnique p es u.1)

  insert_by-IsUnique :
      (e : BlockEntry) (es : List BlockEntry)
      → All (λ x. clash e x ≡ false) es
      → IsUnique es
      → IsUnique (insert_by expiry e es)
  unfolding insert_by
  insert_by-IsUnique e [] a u = (tt, tt)
  insert_by-IsUnique e (x ∷ es) a u = ground (
    arith,
    insert_by-IsUnique e es a.1 u.1,
    All-insert_by expiry (λ y. clash x y ≡ false) e es,
    clash_comm x e,
  )

  sort_by-IsUnique : (es : List BlockEntry) → IsUnique es → IsUnique (sort_by expiry es)
  unfolding sort_by
  sort_by-IsUnique [] u = tt
  sort_by-IsUnique (e ∷ es) u =
      insert_by-IsUnique e (sort_by expiry es) (All-sort_by expiry (λ x. clash e x ≡ false) es u.0)
        (sort_by-IsUnique es u.1)

  list-IsUnique : (now_ms : ℕ) (r : BlockRegistry) → IsUnique r.entries → IsUnique (list now_ms r)
  unfolding list
  list-IsUnique now_ms r u =
      sort_by-IsUnique (filter (is_active now_ms) r.entries)
        (filter-IsUnique (is_active now_ms) r.entries u)

  snoc-IsUnique :
      (e : BlockEntry) (es : List BlockEntry)
      → find_same lower (record { kind = e.kind; value = e.value }) es ≡ none
      → IsUnique es
      → IsUnique (es ++ e ∷ [])
  unfolding find_same
  snoc-IsUnique e [] h u = (tt, tt)
  snoc-IsUnique e (x ∷ es) h u =
      let apart : clash x e ≡ false = clash_comm x e ∙ ground arith in
      let rest : find_same lower (record { kind = e.kind; value = e.value }) es ≡ none =
        ground arith in
      (All-append (λ y. clash x y ≡ false) es (e ∷ []) u.0 (apart, tt), snoc-IsUnique e es rest u.1)

  -- Unique, and at most `m` of them.
  abbrev pub IsSound : ℕ → List BlockEntry → Type 0
  IsSound m es = IsUnique es × (length es ≤ m)

  filter-IsSound :
      (m : ℕ) (p : BlockEntry → Bool) (es : List BlockEntry)
      → IsSound m es
      → IsSound m (filter p es)
  filter-IsSound m p es (u, l) = (filter-IsUnique p es u, omega (arith, length-filter-le p es))

  remove_found-IsSound :
      (found : Option BlockEntry) (m : ℕ) (id : String) (r : BlockRegistry)
      → IsSound m r.entries
      → IsSound m (remove_found found id r).0.entries
  unfolding remove_found
  remove_found-IsSound none m id r s = s
  remove_found-IsSound (some e) m id r s = filter-IsSound m (λ x. not (str_eq x.id id)) r.entries s

  pub remove-IsSound :
      (m : ℕ) (id : String) (r : BlockRegistry)
      → IsSound m r.entries
      → IsSound m (remove id r).0.entries
  unfolding remove
  remove-IsSound m id r s = remove_found-IsSound (find_id id r.entries) m id r s

  pub expire-IsSound :
      (m now_ms : ℕ) (r : BlockRegistry)
      → IsSound m r.entries
      → IsSound m (expire now_ms r).0.entries
  unfolding expire
  expire-IsSound m now_ms r s = filter-IsSound m (is_active now_ms) r.entries s

  add_entry-IsSound :
      (found : Option BlockEntry) (m max_entries : ℕ) (active : List BlockEntry) (e : BlockEntry)
      (r : BlockRegistry)
      → found ≡ find_same lower (record { kind = e.kind; value = e.value }) active
      → max_entries ≤ m
      → IsUnique active
      → IsSound m r.entries
      → IsSound m (add_entry found max_entries active e r).0.entries
  unfolding add_entry
  add_entry-IsSound (some old) m max_entries active e r f le u s = s
  add_entry-IsSound none m max_entries active e r f le u s =
      elim (Bool-cases (leb max_entries (length active))) [
        | inl over ↦ rw over s
        | inr room ↦ rw room (
          snoc-IsUnique e active (sym f) u,
          omega (arith, length-append active (e ∷ []), room_left max_entries (length active) room),
        )
      ]

  pub add-IsSound :
      (m : ℕ) (fresh_id : String) (target : BlockTarget) (reason created_by : String)
      (now_ms ttl_ms max_entries : ℕ) (r : BlockRegistry)
      → max_entries ≤ m
      → IsSound m r.entries
      → IsSound m
          (add lower fresh_id target reason created_by now_ms ttl_ms max_entries r).0.entries
  unfolding add
  add-IsSound m fresh_id target reason created_by now_ms ttl_ms max_entries r le s =
      add_entry-IsSound (find_same lower target (list now_ms r)) m max_entries (list now_ms r) _ r
        refl le (list-IsUnique now_ms r s.0) s
