-- ===== src/Dnsfilter/DomainRules.antt =====
-- src/dnsfilter/domain-rules.ts: domains, the set of them, and the decision on a name. A text is the
-- list of its code units; `toLowerCase` is an argument. A set's domains are a list of them.
pub mod Match
pub mod Decide
use excubitor.Prelude.{
  ℕ, zero, suc, ◌+◌, ◌-◌, List, [], ◌∷◌, Option, none, some, Bool, true, false, not, ◌&&◌, ◌||◌,
  ltb, leb, ◌==◌, if◌then◌else◌, length, get_or, take, reverse,
}
use excubitor.Prelude.Throws.{◌>>=◌}
use excubitor.Prelude.Texts.{Text, same_text}

abbrev pub max_domain_length : ℕ
max_domain_length = 253

-- The white space and the line ends of ECMAScript.
unfoldable pub is_space : ℕ → Bool
is_space c =
    (leb 9 c && leb c 13)
    || c == 32
    || c == 160
    || c == 5760
    || (leb 8192 c && leb c 8202)
    || c == 8232
    || c == 8233
    || c == 8239
    || c == 8287
    || c == 12288
    || c == 65279

unfoldable pub trim_start : Text → Text
unfolding is_space
trim_start [] = []
trim_start (c ∷ text) = let rest = trim_start text in if is_space c then rest else c ∷ text

unfoldable pub trim : Text → Text
unfolding trim_start
trim text = reverse (trim_start (reverse (trim_start text)))

-- [a-z0-9_]
unfoldable pub is_word : ℕ → Bool
is_word c = (leb 97 c && leb c 122) || (leb 48 c && leb c 57) || c == 95

-- [a-z0-9_-]
unfoldable pub all_inner : Text → Bool
unfolding is_word
all_inner [] = true
all_inner (c ∷ text) = (is_word c || c == 45) && all_inner text

-- `LABEL`: at most 63 characters, of which the first and the last are no hyphens.
unfoldable pub is_label : Text → Bool
unfolding is_word all_inner
is_label text =
    leb 1 (length text)
    && leb (length text) 63
    && all_inner text
    && is_word (get_or text 0 0)
    && is_word (get_or text (length text - 1) 0)

-- The label in front, and the labels after it.
unfoldable pub split_dots : Text → Text × List Text
split_dots [] = ([], [])
split_dots (c ∷ text) =
    let (label, labels) = split_dots text in
    if c == 46 then ([], label ∷ labels) else (c ∷ label, labels)

unfoldable pub every_label : List Text → Bool
unfolding is_label
every_label [] = true
every_label (label ∷ labels) = is_label label && every_label labels

pub data DomainParse : Type 0 where
  domain_of : Text → DomainParse
  empty_domain long_domain unreadable_domain : DomainParse

-- `*.` in front, taken away.
unfoldable pub without_star : Text → Text
without_star (c ∷ d ∷ text) = if c == 42 && d == 46 then text else c ∷ d ∷ text
without_star text = text

-- A dot at the end, taken away.
unfoldable pub without_dot : Text → Text
without_dot text =
    let size = length text in
    if leb 1 size && get_or text (size - 1) 0 == 46 then take (size - 1) text else text

unfoldable pub check_domain : Text → DomainParse
unfolding split_dots every_label
check_domain text =
    let (label, labels) = split_dots text in
    if length text == 0
    then empty_domain
    else if ltb max_domain_length (length text)
    then long_domain
    else if every_label (label ∷ labels)
    then domain_of text
    else unreadable_domain

unfoldable pub normalize_domain : (Text → Text) → Text → DomainParse
unfolding trim without_star without_dot check_domain
normalize_domain lower input = check_domain (without_dot (without_star (lower (trim input))))

-- `throw` for a text that is no domain.
unfoldable pub domain_or_throw : DomainParse → Option Text
domain_or_throw (domain_of domain) = some domain
domain_or_throw _ = none

unfoldable pub normalize_domain_list : (Text → Text) → List Text → Option (List Text)
unfolding normalize_domain domain_or_throw
normalize_domain_list lower [] = some []
normalize_domain_list lower (value ∷ values) = do
  domain ← domain_or_throw (normalize_domain lower value)
  domains ← normalize_domain_list lower values
  some (domain ∷ domains)

-- `DomainSet`
unfoldable pub has : List Text → Text → Bool
unfolding same_text
has [] name = false
has (domain ∷ domains) name = same_text domain name || has domains name

-- What follows the first dot.
unfoldable pub after_dot : Text → Option Text
after_dot [] = none
after_dot (c ∷ text) = let rest = after_dot text in if c == 46 then some text else rest

-- The loop of `match`, with fuel.
unfoldable pub match_loop : ℕ → List Text → Text → Option Text
unfolding has after_dot
match_loop zero domains candidate = none
match_loop (suc fuel) domains candidate =
    if has domains candidate
    then some candidate
    else after_dot candidate >>= match_loop fuel domains

unfoldable pub match : List Text → Text → Option Text
unfolding match_loop
match domains name = match_loop (suc (length name)) domains name

pub data RuleSource : Type 0 where
  api config doh : RuleSource

pub data Decision : Type 0 where
  allow : Option Text → Decision  -- the rule of the list of allowed domains
  block : Text → RuleSource → Decision

pub record RuleBook : Type 0 where
  pub allowed : List Text
  pub blocked : List (RuleSource × List Text)

-- What a set of refused domains gives, or else the rest of the sets.
unfoldable pub block_or : Decision → RuleSource → Option Text → Decision
block_or rest source none = rest
block_or rest source (some rule) = block rule source

unfoldable pub decide_blocked : Text → List (RuleSource × List Text) → Decision
unfolding match block_or
decide_blocked name [] = allow none
decide_blocked name ((source, domains) ∷ blocked) =
    block_or (decide_blocked name blocked) source (match domains name)

unfoldable pub allow_or : Decision → Option Text → Decision
allow_or rest none = rest
allow_or rest (some rule) = allow (some rule)

unfoldable pub decide : Text → RuleBook → Decision
unfolding match decide_blocked allow_or
decide name book = allow_or (decide_blocked name book.blocked) (match book.allowed name)
