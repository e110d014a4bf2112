-- ===== src/Dnsfilter/Resolver/Settles.antt =====
-- src/dnsfilter/resolver.ts: what `handle` does from `await` on.
use excubitor.Prelude.{
  ℕ, ◌+◌, ◌-◌, ◌≡◌, ap, ◌∙◌, List, [], ◌∷◌, ◌++◌, Option, none, some, true, false, ◌&&◌, ltb, ◌==◌,
  length, arith, Bool-cases, inl, inr, Option-cases, subst,
}
use excubitor.Dnsfilter.Message.{noerror, servfail, build_response}
use excubitor.Dnsfilter.Upstream.{
  UpstreamAnswer, AnswerParse, answer_of, rejected, parse_upstream_response,
}
use excubitor.Dnsfilter.QueryLog.{Detail, bad_answer, error_of_upstream, failed, allowed}
use excubitor.Dnsfilter.Resolver.{
  ResolverDeps, ResolvedAnswer, Resolver, Reply, Pending, reply_or_throw, allow_source, log_query,
  caught, answer_rejected, answer_allowed, settle_read, settle_body, settle,
}
use excubitor.Dnsfilter.Resolver.Steps.{
  total, IsBalanced, CountsOne, log_query-CountsOne, IsAnswerable, IsReply, reply_or_throw-IsReply,
}

-- The callback never throws.
abbrev pub IsQuiet : ResolverDeps → Type 0
IsQuiet deps = (a : ResolvedAnswer) → deps.answer_throws a ≡ false

-- There is a reply, and what is counted.
abbrev pub Settles : ResolverDeps → Resolver → Resolver × Reply → Type 0
Settles deps r (next, x) =
    (next.in_flight ≡ r.in_flight)
    × (IsQuiet deps → total next ≡ total r + 1)
    × (IsBalanced r → IsBalanced next)
    × IsReply x

module _ (deps : ResolverDeps) (p : Pending) (h : IsAnswerable p) (now_ms : ℕ) (r : Resolver) where
  logged_failure :
      (detail : Detail)
      → CountsOne r (
          log_query p.query p.client p.started_ms now_ms failed
            (some servfail)
            none
            none
            (some detail)
            r)
  logged_failure detail =
      log_query-CountsOne p.query p.client p.started_ms now_ms failed (some servfail) none none
        (some detail) r

  servfail_made : IsReply (reply_or_throw (build_response p.packet p.query servfail))
  servfail_made = reply_or_throw-IsReply p.packet p.query servfail h (omega arith)

  servfail_built : build_response p.packet p.query servfail ≡ none → ⊥
  unfolding reply_or_throw
  servfail_built e = subst (λ o. IsReply (reply_or_throw o)) e servfail_made

  caught-Settles : Settles deps r (caught p now_ms r)
  unfolding caught
  caught-Settles = let c = logged_failure error_of_upstream in (c.0, λ q. c.1, c.2, servfail_made)

  answer_rejected-Settles :
      Settles deps r (answer_rejected p now_ms (build_response p.packet p.query servfail) r)
  unfolding answer_rejected
  answer_rejected-Settles = elim (Option-cases (build_response p.packet p.query servfail)) [
    | inl throws ↦ absurd (servfail_built throws)
    | inr (response, built) ↦ let c = logged_failure bad_answer in rw built (c.0, λ q. c.1, c.2, tt)
  ]

module _ (deps : ResolverDeps) (p : Pending) (h : IsAnswerable p) (now_ms : ℕ) (r : Resolver) where
  -- The error of the callback is caught after the answer is counted.
  threw-Settles :
      (told : Resolver) (a : ResolvedAnswer)
      → CountsOne r told
      → deps.answer_throws a ≡ true
      → Settles deps r (caught p now_ms told)
  threw-Settles told a c throws =
      let s = caught-Settles deps p h now_ms told in
      (s.0 ∙ c.0, λ q. absurd (loud (q a)), λ b. s.2 (c.2 b), s.3)
    where
      loud : deps.answer_throws a ≡ false → ⊥
      loud e = cc

  answer_allowed-Settles :
      (response : List ℕ) (answer : UpstreamAnswer)
      → Settles deps r (answer_allowed deps p now_ms response answer r)
  unfolding answer_allowed
  answer_allowed-Settles response answer =
      let logged =
        log_query-CountsOne p.query p.client p.started_ms now_ms allowed (some answer.rcode) p.rule
          (allow_source p.rule) none r in
      let resolved : ResolvedAnswer = record {
        name = p.query.name;
        addresses = answer.addresses;
      } in
      let after =
        log_query p.query p.client p.started_ms now_ms allowed (some answer.rcode) p.rule
          (allow_source p.rule) none r in
      let told = record after { answers = after.answers ++ resolved ∷ [] } in
      elim (Bool-cases (answer.rcode == noerror && ltb 0 (length answer.addresses))) [
        | inr empty ↦ rw empty (logged.0, λ q. logged.1, logged.2, tt)
        | inl useful ↦ elim (Bool-cases (deps.answer_throws resolved)) [
          | inl throws ↦ rw (useful, throws) (threw-Settles told resolved logged throws)
          | inr quiet ↦ rw (useful, quiet) (logged.0, λ q. logged.1, logged.2, tt)
        ]
      ]

  settle_read-Settles :
      (response : List ℕ) (o : Option AnswerParse)
      → Settles deps r (settle_read deps p now_ms response o r)
  unfolding settle_read
  settle_read-Settles response none = caught-Settles deps p h now_ms r
  settle_read-Settles response (some rejected) = answer_rejected-Settles deps p h now_ms r
  settle_read-Settles response (some (answer_of answer)) = answer_allowed-Settles response answer

  settle_body-Settles :
      (result : Option (List ℕ)) → Settles deps r (settle_body deps p now_ms result r)
  unfolding settle_body
  settle_body-Settles none = caught-Settles deps p h now_ms r
  settle_body-Settles (some response) =
      settle_read-Settles response (parse_upstream_response response p.query)

  -- `settle` replies, whatever the server's result, and leaves one less in flight.
  pub settle-IsSettled :
      (result : Option (List ℕ))
      → ((settle deps p now_ms result r).0.in_flight ≡ r.in_flight - 1)
        × (IsQuiet deps → total (settle deps p now_ms result r).0 ≡ total r + 1)
        × (IsBalanced r → IsBalanced (settle deps p now_ms result r).0)
        × IsReply (settle deps p now_ms result r).1
  unfolding settle
  settle-IsSettled result =
      let s = settle_body-Settles result in (ap (λ n. n - 1) s.0, s.1, s.2, s.3)
