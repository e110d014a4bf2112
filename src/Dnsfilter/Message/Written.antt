-- ===== src/Dnsfilter/Message/Written.antt =====
-- src/dnsfilter/dns-message.ts: the words that `buildResponse` writes.
use excubitor.Prelude.{
  ℕ, ◌+◌, ◌*◌, ◌/◌, ◌%◌, ◌≤◌, ◌<◌, ◌≡◌, ◌≢◌, ap₂, ◌∙◌, ◌⊎◌, List, true, false, ltb, ◌==◌, length,
  get_or, set, length-set, get_or-set_self, get_or-set_ne, arith, inl, inr,
}
use excubitor.Dnsfilter.Message.{write_u16, response_flags}
use excubitor.Dnsfilter.Message.Reads.{word}

length-write_u16 : (b : List ℕ) (i v : ℕ) → length (write_u16 b i v) ≡ length b
unfolding write_u16
length-write_u16 b i v = length-set (set b i (v / 256)) (i + 1) (v % 256) ∙ length-set b i (v / 256)

word-write_u16 : (b : List ℕ) (i v : ℕ) → i + 2 ≤ length b → word (write_u16 b i v) i ≡ v
unfolding write_u16
word-write_u16 b i v h =
    let low =
      get_or-set_self (set b i (v / 256)) (i + 1) (v % 256) 0
        (omega (arith, length-set b i (v / 256))) in
    let high =
      get_or-set_ne (set b i (v / 256)) (i + 1) i (v % 256) 0 (omega arith)
      ∙ get_or-set_self b i (v / 256) 0 (omega arith) in
    omega (arith, low, high)

get_or-write_u16 :
    (b : List ℕ) (i v j : ℕ) → i ≢ j → i + 1 ≢ j → get_or (write_u16 b i v) j 0 ≡ get_or b j 0
unfolding write_u16
get_or-write_u16 b i v j h g =
    get_or-set_ne (set b i (v / 256)) (i + 1) j (v % 256) 0 g ∙ get_or-set_ne b i j (v / 256) 0 h

-- A word two or more away keeps its value.
word-write_u16_ne :
    (b : List ℕ) (i v j : ℕ) → (i + 2 ≤ j) ⊎ (j + 2 ≤ i) → word (write_u16 b i v) j ≡ word b j
word-write_u16_ne b i v j (inl h) =
    ap₂ (λ x y. x * 256 + y) (get_or-write_u16 b i v j (λ e. omega arith) (λ e. omega arith))
      (get_or-write_u16 b i v (j + 1) (λ e. omega arith) (λ e. omega arith))
word-write_u16_ne b i v j (inr h) =
    ap₂ (λ x y. x * 256 + y) (get_or-write_u16 b i v j (λ e. omega arith) (λ e. omega arith))
      (get_or-write_u16 b i v (j + 1) (λ e. omega arith) (λ e. omega arith))

-- The five words that `buildResponse` writes, from the third byte on.
abbrev pub with_header : List ℕ → ℕ → List ℕ
with_header b flags =
    write_u16 (write_u16 (write_u16 (write_u16 (write_u16 b 2 flags) 4 1) 6 0) 8 0) 10 0

length-with_header : (b : List ℕ) (flags : ℕ) → length (with_header b flags) ≡ length b
length-with_header b flags = simp (length-write_u16)

get_or-with_header :
    (b : List ℕ) (flags j : ℕ) → 12 ≤ j → get_or (with_header b flags) j 0 ≡ get_or b j 0
get_or-with_header b flags j h =
    let b2 = write_u16 b 2 flags in
    let b4 = write_u16 b2 4 1 in
    let b6 = write_u16 b4 6 0 in
    let b8 = write_u16 b6 8 0 in
    get_or-write_u16 b8 10 0 j (λ e. omega arith) (λ e. omega arith)
    ∙ get_or-write_u16 b6 8 0 j (λ e. omega arith) (λ e. omega arith)
    ∙ get_or-write_u16 b4 6 0 j (λ e. omega arith) (λ e. omega arith)
    ∙ get_or-write_u16 b2 4 1 j (λ e. omega arith) (λ e. omega arith)
    ∙ get_or-write_u16 b 2 flags j (λ e. omega arith) (λ e. omega arith)

-- The words of the header, and what is behind it.
pub record IsBuilt (b response : List ℕ) (flags : ℕ) : Type 0 where
  pub size : length response ≡ length b
  pub id_word : word response 0 ≡ word b 0
  pub flags_word : word response 2 ≡ flags
  pub question_word : word response 4 ≡ 1
  pub answer_word : word response 6 ≡ 0
  pub behind : (j : ℕ) → 12 ≤ j → get_or response j 0 ≡ get_or b j 0

pub with_header-IsBuilt :
    (b : List ℕ) (flags : ℕ) → 12 ≤ length b → IsBuilt b (with_header b flags) flags
with_header-IsBuilt b flags h =
    let b2 = write_u16 b 2 flags in
    let b4 = write_u16 b2 4 1 in
    let b6 = write_u16 b4 6 0 in
    let b8 = write_u16 b6 8 0 in
    let l2 = length-write_u16 b 2 flags in
    let l4 = length-write_u16 b2 4 1 in
    let after8 = λ (j : ℕ) (k : j + 2 ≤ 8).
      word-write_u16_ne b8 10 0 j (inr (omega arith)) ∙ word-write_u16_ne b6 8 0 j (inr k) in
    record {
      size = length-with_header b flags;
      id_word =
          after8 0 (omega arith)
          ∙ word-write_u16_ne b4 6 0 0 (inr (omega arith))
          ∙ word-write_u16_ne b2 4 1 0 (inr (omega arith))
          ∙ word-write_u16_ne b 2 flags 0 (inr (omega arith));
      flags_word =
          after8 2 (omega arith)
          ∙ word-write_u16_ne b4 6 0 2 (inr (omega arith))
          ∙ word-write_u16_ne b2 4 1 2 (inr (omega arith))
          ∙ word-write_u16 b 2 flags (omega arith);
      question_word =
          after8 4 (omega arith)
          ∙ word-write_u16_ne b4 6 0 4 (inr (omega arith))
          ∙ word-write_u16 b2 4 1 (omega (arith, l2));
      answer_word = after8 6 (omega arith) ∙ word-write_u16 b4 6 0 (omega (arith, l2, l4));
      behind = get_or-with_header b flags;
    }

pub flags_bits :
    (w rcode : ℕ)
    → rcode < 16
    → (response_flags w rcode / 32768 % 2 ≡ 1) × (response_flags w rcode % 16 ≡ rcode)
unfolding response_flags
flags_bits w rcode h = (omega arith, omega arith)

pub eq_self : (n : ℕ) → (n == n) ≡ true
eq_self n = ground arith

pub ltb_le : (a b : ℕ) → b ≤ a → ltb a b ≡ false
ltb_le a b h = ground arith
