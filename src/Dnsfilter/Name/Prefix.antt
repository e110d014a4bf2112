-- ===== src/Dnsfilter/Name/Prefix.antt =====
-- src/dnsfilter/dns-message.ts: a name without pointers, read in two buffers that agree where it stands.
use excubitor.Prelude.{
  ℕ, zero, suc, ◌+◌, ◌≤◌, ◌<◌, ◌≡◌, refl, sym, subst, ◌∙◌, List, true, false, ltb, length, get_or,
  take, drop, get_or-drop, length-drop, take-congr, Option, none, some, arith, inl, inr, Bool-cases,
}
use excubitor.Dnsfilter.Name.{
  NameRead, NameLoop, NameRound, named, refused_name, misread, again, name_label, name_round,
  name_after, name_loop, max_pointer_hops,
}
use excubitor.Dnsfilter.Name.Bytes.{name_label_bytes, name_pointer_bytes, name_round_bytes}

-- The buffers agree from one offset up to another.
abbrev pub Agree : ℕ → ℕ → List ℕ → List ℕ → Type 0
Agree from to buffer other = (i : ℕ) → from ≤ i → i < to → get_or other i 0 ≡ get_or buffer i 0

-- The round moves on within the buffer, or ends the name right after its offset.
abbrev Advances : List ℕ → NameLoop → NameRound → Type 0
Advances buffer s (named n) = (n.end_at ≡ s.offset + 1) × (s.offset < length buffer)
Advances buffer s refused_name = Unit {0}
Advances buffer s misread = Unit {0}
Advances buffer s (again next) =
    (next.end_at ≡ none) × (s.offset < next.offset) × (next.offset ≤ length buffer)

name_label-Advances :
    (buffer : List ℕ) (size : ℕ) (s : NameLoop)
    → s.end_at ≡ none
    → Advances buffer s (name_label buffer size s)
name_label-Advances buffer size s e = rw (name_label_bytes buffer size s) (ground arith)

name_round-Advances :
    (buffer : List ℕ) (s : NameLoop)
    → s.end_at ≡ none
    → Advances buffer s (name_round buffer false s)
name_round-Advances buffer s e =
    let size = get_or buffer s.offset 0 in
    rw (name_round_bytes buffer false s, name_pointer_bytes buffer false size s)
      (ground (arith, name_label-Advances buffer size s e))

abbrev pub IsRead : List ℕ → ℕ → Option NameRead → Type 0
IsRead buffer offset none = Unit {0}
IsRead buffer offset (some n) = (offset < n.end_at) × (n.end_at ≤ length buffer)

pub name_loop-IsRead :
    (fuel : ℕ) (buffer : List ℕ) (s : NameLoop)
    → s.end_at ≡ none
    → IsRead buffer s.offset (name_loop fuel buffer false s)
unfolding name_loop
name_loop-IsRead zero buffer s e = tt
name_loop-IsRead (suc fuel) buffer s e = elim (Bool-cases (ltb max_pointer_hops s.hops)) [
  | inl over ↦ rw over tt
  | inr within ↦ rw within (
      after (name_round buffer false s) (λ next e'. name_loop-IsRead fuel buffer next e')
        (name_round-Advances buffer s e))
]
  where
    after :
        (r : NameRound)
        → ((next : NameLoop)
            → next.end_at ≡ none
            → IsRead buffer next.offset (name_loop fuel buffer false next))
        → Advances buffer s r
        → IsRead buffer s.offset (name_after (name_loop fuel buffer false) r)
    after (named n) rest a = omega arith
    after refused_name rest a = tt
    after misread rest a = tt
    after (again next) rest a = earlier (name_loop fuel buffer false next) (rest next a.0) a.1
      where
        earlier :
            (o : Option NameRead)
            → IsRead buffer next.offset o
            → s.offset < next.offset
            → IsRead buffer s.offset o
        earlier none i l = tt
        earlier (some n) i l = omega arith

-- The round does not fail, and stays up to `to`.
abbrev StaysIn : ℕ → NameRound → Type 0
StaysIn to (named n) = n.end_at ≤ to
StaysIn to refused_name = ⊥
StaysIn to misread = ⊥
StaysIn to (again next) = next.offset ≤ to

module _ (buffer other : List ℕ) (to : ℕ) (long : to ≤ length buffer)
    (fits : to ≤ length other) where
  label_same :
      (from size : ℕ)
      → Agree from to buffer other
      → from + 1 + size ≤ to
      → take size (drop (from + 1) other) ≡ take size (drop (from + 1) buffer)
  label_same from size h l =
      take-congr size (drop (from + 1) other) (drop (from + 1) buffer) 0
        (omega (arith, length-drop (from + 1) other)) (omega (arith, length-drop (from + 1) buffer))
        (λ i b.
          get_or-drop (from + 1) i other 0
          ∙ h (from + 1 + i) (omega arith) (omega arith)
          ∙ sym (get_or-drop (from + 1) i buffer 0))

  name_label_same :
      (size : ℕ) (s : NameLoop)
      → Agree s.offset to buffer other
      → StaysIn to (name_label buffer size s)
      → name_label other size s ≡ name_label buffer size s
  name_label_same size s h l = elim (Bool-cases (ltb (length buffer) (s.offset + 1 + size))) [
    | inl out ↦ absurd (ground (arith, out, name_label_bytes buffer size s))
    | inr inside ↦ elim (Bool-cases (ltb 255 (s.bytes + (size + 1)))) [
      | inl out ↦ absurd (ground (arith, inside, out, name_label_bytes buffer size s))
      | inr few ↦
          let end : s.offset + 1 + size ≤ to =
            ground (arith, inside, few, name_label_bytes buffer size s) in
          rw (name_label_bytes other size s, name_label_bytes buffer size s)
            (ground (arith, inside, few, label_same s.offset size h end))
    ]
  ]

  name_round_same :
      (s : NameLoop)
      → s.end_at ≡ none
      → Agree s.offset to buffer other
      → s.offset < to
      → StaysIn to (name_round buffer false s)
      → name_round other true s ≡ name_round buffer false s
  name_round_same s e h l r =
      let size = get_or buffer s.offset 0 in
      ground (
        arith,
        h s.offset (omega arith) l,
        name_label_same size s h,
        name_round_bytes buffer false s,
        name_round_bytes other true s,
        name_pointer_bytes buffer false size s,
      )

  read_stays :
      (fuel : ℕ) (s : NameLoop) (n : NameRead) (r : NameRound)
      → Advances buffer s r
      → name_after (name_loop fuel buffer false) r ≡ some n
      → n.end_at ≡ to
      → StaysIn to r
  read_stays fuel s n (named m) a e l = ground arith
  read_stays fuel s n refused_name a e l = cc
  read_stays fuel s n misread a e l = cc
  read_stays fuel s n (again next) a e l =
      let read = name_loop-IsRead fuel buffer next a.0 in
      let bound : next.offset < n.end_at = (subst (IsRead buffer next.offset) e read).0 in
      omega arith

  pub name_loop_same :
      (fuel : ℕ) (s : NameLoop) (n : NameRead)
      → s.end_at ≡ none
      → s.offset < to
      → name_loop fuel buffer false s ≡ some n
      → n.end_at ≡ to
      → Agree s.offset to buffer other
      → name_loop fuel other true s ≡ some n
  unfolding name_loop
  name_loop_same zero s n e b h l a = cc
  name_loop_same (suc fuel) s n e b h l a = elim (Bool-cases (ltb max_pointer_hops s.hops)) [
    | inl over ↦ absurd (ground (arith, over, h))
    | inr within ↦
        let r = name_round buffer false s in
        let advances = name_round-Advances buffer s e in
        let read : name_after (name_loop fuel buffer false) r ≡ some n = sym (rw within refl) ∙ h in
        let same = name_round_same s e a b (read_stays fuel s n r advances read l) in
        rw (within, same)
          (go fuel s n r advances read l a
            (λ next e' b' h' a'. name_loop_same fuel next n e' b' h' l a'))
  ]
    where
      go :
          (fuel : ℕ) (s : NameLoop) (n : NameRead) (r : NameRound)
          → Advances buffer s r
          → name_after (name_loop fuel buffer false) r ≡ some n
          → n.end_at ≡ to
          → Agree s.offset to buffer other
          → ((next : NameLoop)
              → next.end_at ≡ none
              → next.offset < to
              → name_loop fuel buffer false next ≡ some n
              → Agree next.offset to buffer other
              → name_loop fuel other true next ≡ some n)
          → name_after (name_loop fuel other true) r ≡ some n
      go fuel s n (named m) adv read l a rest = read
      go fuel s n refused_name adv read l a rest = cc
      go fuel s n misread adv read l a rest = cc
      go fuel s n (again next) adv read l a rest =
          let bound : next.offset < n.end_at =
            (subst (IsRead buffer next.offset) read (name_loop-IsRead fuel buffer next adv.0)).0 in
          rest next adv.0 (omega arith) read (λ i p q. a i (omega arith) q)
