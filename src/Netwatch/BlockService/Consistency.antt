-- ===== src/Netwatch/BlockService/Consistency.antt =====
-- src/netwatch/block-service.ts: runs of requests, some of whose writes fail.
use excubitor.Prelude.{
  ℕ, ◌≤◌, ◌≡◌, refl, sym, String, List, [], ◌∷◌, Option, none, some, Bool, true, false, ◌||◌, ltb,
  ◌==◌, if◌then◌else◌, All, arith, length, filter, ◌∙◌, leb, ◌++◌, inl, inr, Bool-cases,
  Option-cases,
}
use excubitor.Netwatch.BlockRegistry.{
  BlockTarget, BlockEntry, BlockRegistry, AddResult, add, remove, expire, restore, is_active,
  add_entry, remove_found, find_same, find_id, list,
}
use excubitor.Netwatch.BlockRegistry.Unique.{
  IsSound, length-filter-le, add-IsSound, remove-IsSound, expire-IsSound,
}
use excubitor.Netwatch.BlockService.{
  BlockSettings, State, Request, add_block, remove_block, expire_blocks, AddBlockInput, ready,
  commit, commit_added, commit_removed, commit_expired, add_target, add_checked, handle_ready,
  handle, ttl_of,
}

-- A request, with the settings, the time and whether the write succeeds.
pub record Step : Type 0 where
  pub settings : Option BlockSettings
  pub now : ℕ
  pub writes : Bool
  pub request : Request

unfoldable pub run : (String → String) → List Step → State → State
run lower [] s = s
run lower (step ∷ steps) s =
    run lower steps (handle lower step.settings step.now step.writes step.request s)

-- The settings allow at most `m` entries.
abbrev pub IsWithin : ℕ → Option BlockSettings → Type 0
IsWithin m none = Unit {0}
IsWithin m (some settings) = settings.max_entries ≤ m

module _ (lower : String → String) (m : ℕ) where
  -- The file holds the registry's entries, of which no two block the same target and at most `m`
  -- are there.
  abbrev pub IsConsistent : State → Type 0
  IsConsistent s = (s.file ≡ s.registry.entries) × IsSound lower m s.registry.entries

  commit-IsConsistent :
      (writes : Bool) (before : BlockRegistry) (entry : BlockEntry) (s : State)
      → s.file ≡ before.entries
      → IsSound lower m before.entries
      → IsSound lower m s.registry.entries
      → IsConsistent (commit writes before.entries entry s).0
  unfolding commit restore
  commit-IsConsistent true before entry s e b a = (refl, a)
  commit-IsConsistent false before entry s e b a = (e, b)

  else_IsSound :
      (b : Bool) (r q : BlockRegistry × AddResult)
      → b ≡ false
      → IsSound lower m (if b then r else q).0.entries
      → IsSound lower m q.0.entries
  else_IsSound true r q h a = absurd (ground arith)
  else_IsSound false r q h a = a

  commit_added-IsConsistent :
      (found : Option BlockEntry) (writes : Bool) (max_entries : ℕ) (active : List BlockEntry)
      (e : BlockEntry) (s : State)
      → IsConsistent s
      → IsSound lower m (add_entry found max_entries active e s.registry).0.entries
      → IsConsistent (commit_added writes (add_entry found max_entries active e s.registry) s).0
  unfolding add_entry commit_added
  commit_added-IsConsistent (some old) writes max_entries active e s c a = c
  commit_added-IsConsistent none writes max_entries active e s c a =
      elim (Bool-cases (leb max_entries (length active))) [
        | inl over ↦ rw over c
        | inr room ↦
            let grown =
              commit-IsConsistent writes s.registry e
                (record s {
                  registry = record { entries = active ++ e ∷ []; failed = s.registry.failed };
                })
                c.0 c.1 in
            rw room (grown (else_IsSound (leb max_entries (length active)) _ _ room a))
      ]

  commit_removed-IsConsistent :
      (found : Option BlockEntry) (writes : Bool) (id : String) (s : State)
      → IsConsistent s
      → IsSound lower m (remove_found found id s.registry).0.entries
      → IsConsistent (commit_removed writes (remove_found found id s.registry) s).0
  unfolding remove_found commit_removed
  commit_removed-IsConsistent none writes id s c a = c
  commit_removed-IsConsistent (some e) writes id s c a =
      commit-IsConsistent writes s.registry e _ c.0 c.1 a

  commit_expired-IsConsistent :
      (writes dropped : Bool) (r : BlockRegistry) (s : State)
      → IsConsistent s
      → IsSound lower m r.entries
      → (dropped ≡ false → r.entries ≡ s.registry.entries)
      → IsConsistent (commit_expired writes (r, dropped) s)
  unfolding commit_expired restore
  commit_expired-IsConsistent writes false r s c a same = (c.0 ∙ sym (same refl), a)
  commit_expired-IsConsistent true true r s c a same = (refl, a)
  commit_expired-IsConsistent false true r s c a same = c

  filter_same_length :
      (p : BlockEntry → Bool) (es : List BlockEntry)
      → length (filter p es) ≡ length es
      → filter p es ≡ es
  filter_same_length p [] h = refl
  filter_same_length p (e ∷ es) h = ground (arith, length-filter-le p es, filter_same_length p es)

  expire_kept :
      (now : ℕ) (r : BlockRegistry)
      → (expire now r).1 ≡ false
      → (expire now r).0.entries ≡ r.entries
  unfolding expire
  expire_kept now r h = filter_same_length (is_active now) r.entries (ground arith)

  add_target-IsConsistent :
      (target : Option BlockTarget) (settings : BlockSettings) (fresh_id : String)
      (input : AddBlockInput) (ttl_ms now : ℕ) (writes : Bool) (s : State)
      → settings.max_entries ≤ m
      → IsConsistent s
      → IsConsistent (add_target lower target settings fresh_id input ttl_ms now writes s).0
  unfolding add_target add
  add_target-IsConsistent none settings fresh_id input ttl_ms now writes s le c = c
  add_target-IsConsistent (some target) settings fresh_id input ttl_ms now writes s le c =
      commit_added-IsConsistent (find_same lower target (list now s.registry)) writes
        settings.max_entries (list now s.registry) _ s c
        (add-IsSound lower m fresh_id target input.reason input.actor now ttl_ms
          settings.max_entries s.registry le c.1)

  add_checked-IsConsistent :
      (settings : BlockSettings) (fresh_id : String) (input : AddBlockInput) (now : ℕ)
      (writes : Bool) (s : State)
      → settings.max_entries ≤ m
      → IsConsistent s
      → IsConsistent (add_checked lower settings fresh_id input now writes s).0
  unfolding add_checked
  add_checked-IsConsistent settings fresh_id input now writes s le c =
      let ttl_ms = ttl_of input.ttl_minutes settings.default_ttl_ms in
      elim (Bool-cases (ttl_ms == 0 || ltb settings.max_ttl_ms ttl_ms)) [
        | inl bad ↦ rw bad c
        | inr good ↦
            rw good (
              add_target-IsConsistent input.target settings fresh_id input ttl_ms now writes s le c)
      ]

  handle_ready-IsConsistent :
      (settings : Option BlockSettings) (now : ℕ) (writes : Bool) (request : Request) (s : State)
      → IsWithin m settings
      → IsConsistent s
      → IsConsistent (handle_ready lower settings now writes request s)
  unfolding handle_ready remove
  handle_ready-IsConsistent none now writes request s w c = c
  handle_ready-IsConsistent (some settings) now writes (add_block fresh_id input) s w c =
      add_checked-IsConsistent settings fresh_id input now writes s w c
  handle_ready-IsConsistent (some settings) now writes (remove_block id) s w c =
      commit_removed-IsConsistent (find_id id s.registry.entries) writes id s c
        (remove-IsSound lower m id s.registry c.1)
  handle_ready-IsConsistent (some settings) now writes expire_blocks s w c =
      commit_expired-IsConsistent writes (expire now s.registry).1 (expire now s.registry).0 s c
        (expire-IsSound lower m now s.registry c.1) (expire_kept now s.registry)

  ready-IsWithin :
      (settings : Option BlockSettings) (r : BlockRegistry)
      → IsWithin m settings
      → IsWithin m (ready settings r)
  unfolding ready
  ready-IsWithin settings r w = elim (Option-cases r.failed) [
    | inl fine ↦ rw fine w
    | inr (reason, failed) ↦ rw failed tt
  ]

  -- Whatever is asked, and whether the writes succeed or fail, the file goes on holding the
  -- registry's entries, no two of them block the same target, and there are at most `m`, if the
  -- settings never allow more.
  pub run-IsConsistent :
      (steps : List Step) (s : State)
      → All (λ step. IsWithin m step.settings) steps
      → IsConsistent s
      → IsConsistent (run lower steps s)
  unfolding run handle
  run-IsConsistent [] s a c = c
  run-IsConsistent (step ∷ steps) s a c =
      run-IsConsistent steps (handle lower step.settings step.now step.writes step.request s) a.1 (
        handle_ready-IsConsistent (ready step.settings s.registry) step.now step.writes step.request
          s (ready-IsWithin step.settings s.registry a.0) c)
