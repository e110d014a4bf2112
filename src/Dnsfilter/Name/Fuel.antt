-- ===== src/Dnsfilter/Name/Fuel.antt =====
-- src/dnsfilter/dns-message.ts: the rounds of `readName`.
use excubitor.Prelude.{
  ℕ, zero, suc, ◌+◌, ◌-◌, ◌≤◌, ◌<◌, ◌≡◌, refl, List, [], Bool, ltb, get_or, none, arith, inl, inr,
  Bool-cases,
}
use excubitor.Dnsfilter.Name.{
  NameLoop, NameRound, named, refused_name, misread, again, name_label, name_pointer, name_round,
  name_loop, name_fuel, read_name, max_pointer_hops, name_after,
}
use excubitor.Dnsfilter.Name.Bytes.{name_label_bytes, name_pointer_bytes, name_round_bytes}

-- Hops and bytes are within their bounds, and what is left of both is below the fuel.
abbrev pub IsFuelled : ℕ → NameLoop → Type 0
IsFuelled fuel s = (s.hops ≤ 33) × (s.bytes ≤ 255) × ((33 - s.hops) + (255 - s.bytes) < fuel)

abbrev pub Goes : NameRound → ℕ → Type 0
Goes (named n) fuel = Unit {0}
Goes refused_name fuel = Unit {0}
Goes misread fuel = Unit {0}
Goes (again next) fuel = IsFuelled fuel next

name_label-Goes :
    (buffer : List ℕ) (size fuel : ℕ) (s : NameLoop)
    → s.hops ≤ 32
    → IsFuelled (suc fuel) s
    → Goes (name_label buffer size s) fuel
name_label-Goes buffer size fuel s h f = rw (name_label_bytes buffer size s) (ground arith)

name_pointer-Goes :
    (buffer : List ℕ) (allow : Bool) (size fuel : ℕ) (s : NameLoop)
    → s.hops ≤ 32
    → IsFuelled (suc fuel) s
    → Goes (name_pointer buffer allow size s) fuel
name_pointer-Goes buffer allow size fuel s h f =
    rw (name_pointer_bytes buffer allow size s) (ground arith)

name_round-Goes :
    (buffer : List ℕ) (allow : Bool) (fuel : ℕ) (s : NameLoop)
    → s.hops ≤ 32
    → IsFuelled (suc fuel) s
    → Goes (name_round buffer allow s) fuel
name_round-Goes buffer allow fuel s h f = rw (name_round_bytes buffer allow s) (
    ground (
      arith,
      name_label-Goes buffer (get_or buffer s.offset 0) fuel s h f,
      name_pointer-Goes buffer allow (get_or buffer s.offset 0) fuel s h f,
    ))

name_loop_more :
    (buffer : List ℕ) (allow : Bool) (fuel fuel' : ℕ) (s : NameLoop)
    → fuel ≤ fuel'
    → IsFuelled fuel s
    → name_loop fuel' buffer allow s ≡ name_loop fuel buffer allow s
unfolding name_loop
name_loop_more buffer allow zero fuel' s le f = absurd (omega arith)
name_loop_more buffer allow (suc fuel) zero s le f = absurd (omega arith)
name_loop_more buffer allow (suc fuel) (suc fuel') s le f =
    elim (Bool-cases (ltb max_pointer_hops s.hops)) [
      | inl over ↦ rw over refl
      | inr within ↦
          let rest = λ (next : NameLoop) (g : IsFuelled fuel next).
            name_loop_more buffer allow fuel fuel' next (omega arith) g in
          rw within (
            name_after_same (name_round buffer allow s) rest
              (name_round-Goes buffer allow fuel s (ground (arith, within)) f))
    ]
  where
    name_after_same :
        (r : NameRound)
        → ((next : NameLoop)
            → IsFuelled fuel next
            → name_loop fuel' buffer allow next ≡ name_loop fuel buffer allow next)
        → Goes r fuel
        → name_after (name_loop fuel' buffer allow) r ≡ name_after (name_loop fuel buffer allow) r
    name_after_same (named n) rest g = refl
    name_after_same refused_name rest g = refl
    name_after_same misread rest g = refl
    name_after_same (again next) rest g = rest next g

-- `readName` has fuel enough: with any more its loop gives the same.
pub read_name-fuel :
    (buffer : List ℕ) (start : ℕ) (allow : Bool) (fuel : ℕ)
    → name_fuel ≤ fuel
    → name_loop fuel buffer allow
        (record { labels = []; offset = start; end_at = none; bytes = 0; hops = 0 })
      ≡ read_name buffer start allow
unfolding read_name
read_name-fuel buffer start allow fuel le =
    name_loop_more buffer allow name_fuel fuel _ le (omega arith)
