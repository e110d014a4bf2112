-- ===== src/Dnsfilter/CurrentBook/Kept.antt =====
-- src/dnsfilter/runtime.ts: the book that is kept, against the one that it would be built as.
use excubitor.Prelude.{
  ℕ, ◌+◌, max, ◌≤◌, ◌<◌, ◌≡◌, refl, ap, ◌∙◌, ◌⊎◌, inl, inr, List, Option, none, some, true,
  Bool-cases, arith,
}
use excubitor.Dnsfilter.DomainRules.{RuleBook}
use excubitor.Dnsfilter.RuleRegistry.{RuleEntry, RuleRegistry}
use excubitor.Dnsfilter.RuleRegistry.Revision.{
  IsTracked, load-IsTracked, fail-IsTracked, add-IsTracked, remove-IsTracked, expire-IsTracked,
  restore-IsTracked,
}
use excubitor.Dnsfilter.CurrentBook.{
  RuleSettings, build_book, same_settings, key_holds, current_book, Operation, loads, fails, adds,
  removes, expires, restores, operate, Runtime, reconfigure, look_up, Reachable, starts, shows,
  operates, reconfigures, disables, looks_up,
}

operate-IsTracked :
    (op : Operation) (now_ms : ℕ) (r : RuleRegistry) → IsTracked r (operate op now_ms r)
unfolding operate
operate-IsTracked (loads f) now_ms r = load-IsTracked f r
operate-IsTracked (fails reason) now_ms r = fail-IsTracked reason r
operate-IsTracked (adds fresh_id domain reason created_by ttl_ms max_entries) now_ms r =
    add-IsTracked fresh_id domain reason created_by now_ms ttl_ms max_entries r
operate-IsTracked (removes id) now_ms r = remove-IsTracked id r
operate-IsTracked expires now_ms r = expire-IsTracked now_ms r
operate-IsTracked (restores entries) now_ms r = restore-IsTracked entries r

-- The settings were made before.
abbrev pub IsMade : ℕ → Option RuleSettings → Type 0
IsMade made none = Unit {0}
IsMade made (some settings) = settings.identity < made

-- What the key says of the book: when and from what it was built.
pub record IsKept (s : Runtime) (at : ℕ) (known : Option RuleSettings) : Type 0 where
  built_ms : ℕ
  built_from : RuleRegistry
  earlier : built_ms ≤ s.latest_ms
  built : s.cache.book ≡ build_book known built_ms built_from
  entries_of :
      (at < s.registry.revision)
      ⊎ ((s.registry.revision ≡ at) × (s.registry.entries ≡ built_from.entries))
  same : same_settings known s.settings ≡ true → known ≡ s.settings
  known_made : IsMade s.made known

abbrev pub Keeps : Runtime → Option (ℕ × Option RuleSettings) → Type 0
Keeps s none = Unit {0}
Keeps s (some (at, known)) = IsKept s at known

abbrev pub IsSound : Runtime → Type 0
IsSound s = Keeps s s.cache.key × IsMade s.made s.settings × (s.now_ms ≤ s.latest_ms)

Keeps-shows :
    (ms : ℕ) (s : Runtime) (key : Option (ℕ × Option RuleSettings))
    → Keeps s key
    → Keeps (record s { now_ms = ms; latest_ms = max s.latest_ms ms }) key
Keeps-shows ms s none k = tt
Keeps-shows ms s (some (at, known)) k = record {
  built_ms = k.built_ms;
  built_from = k.built_from;
  earlier = omega (arith, k.earlier);
  built = k.built;
  entries_of = k.entries_of;
  same = k.same;
  known_made = k.known_made;
}

still_tracked :
    (at : ℕ) (entries : List RuleEntry) (r next : RuleRegistry)
    → IsTracked r next
    → (at < r.revision) ⊎ ((r.revision ≡ at) × (r.entries ≡ entries))
    → (at < next.revision) ⊎ ((next.revision ≡ at) × (next.entries ≡ entries))
still_tracked at entries r next (inl later) (inl old) = inl (omega arith)
still_tracked at entries r next (inl later) (inr (now, same)) = inl (omega arith)
still_tracked at entries r next (inr (level, same)) (inl old) = inl (omega arith)
still_tracked at entries r next (inr (level, same)) (inr (now, kept)) =
    inr (level ∙ now, same ∙ kept)

Keeps-operates :
    (r : RuleRegistry) (s : Runtime) (key : Option (ℕ × Option RuleSettings))
    → IsTracked s.registry r
    → Keeps s key
    → Keeps (record s { registry = r }) key
Keeps-operates r s none t k = tt
Keeps-operates r s (some (at, known)) t k = record {
  built_ms = k.built_ms;
  built_from = k.built_from;
  earlier = k.earlier;
  built = k.built;
  entries_of = still_tracked at k.built_from.entries s.registry r t k.entries_of;
  same = k.same;
  known_made = k.known_made;
}

IsMade-suc : (made : ℕ) (o : Option RuleSettings) → IsMade made o → IsMade (made + 1) o
IsMade-suc made none m = tt
IsMade-suc made (some settings) m = omega arith

not_new :
    (made : ℕ) (known : Option RuleSettings) (fresh : RuleSettings)
    → fresh.identity ≡ made
    → IsMade made known
    → same_settings known (some fresh) ≡ true
    → ⊥
not_new made none fresh e m h = cc
not_new made (some settings) fresh e m h = ground arith

Keeps-reconfigures :
    (s : Runtime) (fresh : RuleSettings) (key : Option (ℕ × Option RuleSettings))
    → fresh.identity ≡ s.made
    → Keeps s key
    → Keeps (record s { settings = some fresh; made = s.made + 1 }) key
Keeps-reconfigures s fresh none e k = tt
Keeps-reconfigures s fresh (some (at, known)) e k = record {
  built_ms = k.built_ms;
  built_from = k.built_from;
  earlier = k.earlier;
  built = k.built;
  entries_of = k.entries_of;
  same = λ h. absurd (not_new s.made known fresh e k.known_made h);
  known_made = IsMade-suc s.made known k.known_made;
}

same_none : (known : Option RuleSettings) → same_settings known none ≡ true → known ≡ none
same_none none h = refl
same_none (some settings) h = cc

Keeps-disables :
    (s : Runtime) (key : Option (ℕ × Option RuleSettings))
    → Keeps s key
    → Keeps (record s { settings = none }) key
Keeps-disables s none k = tt
Keeps-disables s (some (at, known)) k = record {
  built_ms = k.built_ms;
  built_from = k.built_from;
  earlier = k.earlier;
  built = k.built;
  entries_of = k.entries_of;
  same = same_none known;
  known_made = k.known_made;
}

Keeps-looks_up :
    (s : Runtime)
    → Keeps s s.cache.key
    → IsMade s.made s.settings
    → s.now_ms ≤ s.latest_ms
    → Keeps (look_up s) (look_up s).cache.key
unfolding current_book
Keeps-looks_up s k m shown =
    elim (Bool-cases (key_holds s.cache.key s.registry.revision s.settings)) [
      | inl kept ↦ rw kept k
      | inr stale ↦ rw stale (record {
        built_ms = s.now_ms;
        built_from = s.registry;
        earlier = shown;
        built = refl;
        entries_of = inr (refl, refl);
        same = λ h. refl;
        known_made = m;
      })
    ]

pub Reachable-IsSound : (s : Runtime) → Reachable s → IsSound s
unfolding reconfigure
Reachable-IsSound s (starts now_ms) = (tt, tt, omega arith)
Reachable-IsSound s (shows ms t r) =
    let (k, m, shown) = Reachable-IsSound t r in (Keeps-shows ms t t.cache.key k, m, omega arith)
Reachable-IsSound s (operates op t r) =
    let (k, m, shown) = Reachable-IsSound t r in
    (
      Keeps-operates (operate op t.now_ms t.registry) t t.cache.key
          (operate-IsTracked op t.now_ms t.registry) k,
      m,
      shown,
    )
Reachable-IsSound s (reconfigures allowed blocked doh_domains t r) =
    let (k, m, shown) = Reachable-IsSound t r in
    (Keeps-reconfigures t _ t.cache.key refl k, omega arith, shown)
Reachable-IsSound s (disables t r) =
    let (k, m, shown) = Reachable-IsSound t r in (Keeps-disables t t.cache.key k, tt, shown)
Reachable-IsSound s (looks_up t r) =
    let (k, m, shown) = Reachable-IsSound t r in (Keeps-looks_up t k m shown, m, shown)

-- The book that a look-up gives is that of the present settings and entries, at a time that the clock
-- has not passed.
pub record IsBookOf (s : Runtime) (book : RuleBook) : Type 0 where
  pub at_ms : ℕ
  pub from : RuleRegistry
  pub not_later : at_ms ≤ s.latest_ms
  pub is_built : book ≡ build_book s.settings at_ms from
  pub same_entries : s.registry.entries ≡ from.entries

kept_book :
    (s : Runtime) (key : Option (ℕ × Option RuleSettings))
    → Keeps s key
    → key_holds key s.registry.revision s.settings ≡ true
    → IsBookOf s s.cache.book
kept_book s none k h = cc
kept_book s (some (at, known)) k h =
    let level : at ≡ s.registry.revision = ground arith in
    let alike : same_settings known s.settings ≡ true = ground arith in
    record {
      at_ms = k.built_ms;
      from = k.built_from;
      not_later = k.earlier;
      is_built = k.built ∙ ap (λ o. build_book o k.built_ms k.built_from) (k.same alike);
      same_entries = entries_now k.entries_of level;
    }
  where
    entries_now :
        (at < s.registry.revision)
          ⊎ ((s.registry.revision ≡ at) × (s.registry.entries ≡ k.built_from.entries))
        → at ≡ s.registry.revision
        → s.registry.entries ≡ k.built_from.entries
    entries_now (inl later) level = absurd (omega arith)
    entries_now (inr (now, same)) level = same

pub look_up-IsBookOf : (s : Runtime) → IsSound s → IsBookOf s (look_up s).cache.book
unfolding current_book
look_up-IsBookOf s (k, m, shown) =
    elim (Bool-cases (key_holds s.cache.key s.registry.revision s.settings)) [
      | inl kept ↦ rw kept (kept_book s s.cache.key k kept)
      | inr stale ↦ rw stale (record {
        at_ms = s.now_ms;
        from = s.registry;
        not_later = shown;
        is_built = refl;
        same_entries = refl;
      })
    ]
