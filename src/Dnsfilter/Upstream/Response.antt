-- ===== src/Dnsfilter/Upstream/Response.antt =====
-- src/dnsfilter/dns-message.ts: `buildResponse` read back by `parseUpstreamResponse`.
use excubitor.Prelude.{
  ℕ, ◌+◌, ◌*◌, ◌/◌, ◌%◌, ◌≤◌, ◌<◌, ◌≡◌, refl, ap, ap₂, subst, ◌∙◌, List, [], none, some, true,
  false, length, get_or, take, length-take, get_or-take, arith,
}
use excubitor.Prelude.Texts.{same_text_refl}
use excubitor.Dnsfilter.Name.{NameRead, NameLoop, read_name, name_fuel}
use excubitor.Dnsfilter.Name.Prefix.{name_loop_same, IsRead, name_loop-IsRead}
use excubitor.Dnsfilter.Message.{DnsQuery, query_of, parse_query, response_flags, build_response}
use excubitor.Dnsfilter.Message.Reads.{word, read_u16_within}
use excubitor.Dnsfilter.Upstream.{
  answer_of, read_answers, check_question, parse_answer, parse_upstream_header,
  parse_upstream_response,
}
use excubitor.Dnsfilter.Message.Written.{
  with_header, IsBuilt, with_header-IsBuilt, flags_bits, eq_self, ltb_le,
}
use excubitor.Dnsfilter.Message.Queries.{IsQuery, parse_query-IsQuery}

-- The name of the question is read from the response as from the request.
name_same :
    (request response : List ℕ) (n : NameRead)
    → length response ≡ n.end_at + 4
    → n.end_at ≤ length request
    → ((j : ℕ) → 12 ≤ j → j < n.end_at → get_or response j 0 ≡ get_or request j 0)
    → read_name request 12 false ≡ some n
    → read_name response 12 true ≡ some n
unfolding read_name
name_same request response n l fits same h =
    let s : NameLoop = record { labels = []; offset = 12; end_at = none; bytes = 0; hops = 0 } in
    let read = name_loop-IsRead name_fuel request s refl in
    let bound : 12 < n.end_at = (subst (IsRead request 12) h read).0 in
    name_loop_same request response n.end_at fits (omega arith) name_fuel s n refl bound h refl same

word-take : (n i : ℕ) (b : List ℕ) → i + 2 ≤ n → word (take n b) i ≡ word b i
word-take n i b h =
    ap₂ (λ x y. x * 256 + y) (get_or-take n i b 0 (omega arith))
      (get_or-take n (i + 1) b 0 (omega arith))

name_beyond_header : (request : List ℕ) (q : DnsQuery) (end : ℕ) → IsQuery request q end → 12 < end
unfolding read_name
name_beyond_header request q end isq =
    let s : NameLoop = record { labels = []; offset = 12; end_at = none; bytes = 0; hops = 0 } in
    (subst (IsRead request 12) isq.name_read (name_loop-IsRead name_fuel request s refl)).0

-- A response that is built over the front of a request is read as an answer without addresses.
module _ (request response : List ℕ) (q : DnsQuery) (end : ℕ) (flags : ℕ)
    (isq : IsQuery request q end) (built : IsBuilt (take (end + 4) request) response flags) where
  built_word : (i : ℕ) → 12 ≤ i → i + 2 ≤ end + 4 → word response i ≡ word request i
  built_word i h l =
      ap₂ (λ x y. x * 256 + y) (built.behind i h) (built.behind (i + 1) (omega arith))
      ∙ word-take (end + 4) i request l

  built_size : length response ≡ end + 4
  built_size = built.size ∙ length-take (end + 4) request isq.fits

  built_name : read_name response 12 true ≡ some (record { name = q.name; end_at = end })
  built_name =
      name_same request response (record { name = q.name; end_at = end }) built_size
        (omega (arith, isq.fits))
        (λ j l k. built.behind j l ∙ get_or-take (end + 4) j request 0 (omega arith)) isq.name_read

  built_question :
      check_question response q flags (record { name = q.name; end_at = end })
      ≡ some (answer_of (record { rcode = flags % 16; addresses = [] }))
  unfolding check_question read_answers
  built_question =
      let bound = name_beyond_header request q end isq in
      let size = built_size in
      let type = read_u16_within response end (omega arith) in
      let qclass = read_u16_within response (end + 2) (omega arith) in
      let count = read_u16_within response 6 (omega arith) in
      let same_type = built_word end (omega arith) (omega arith) ∙ isq.type_read in
      let same_class = built_word (end + 2) (omega arith) (omega arith) ∙ isq.class_read in
      rw
        (
          type,
          qclass,
          count,
          same_type,
          same_class,
          built.answer_word,
          same_text_refl q.name,
          eq_self q.type,
          eq_self q.qclass,
        )
        refl

  built_read :
      flags / 32768 % 2 ≡ 1
      → parse_upstream_response response q
        ≡ some (answer_of (record { rcode = flags % 16; addresses = [] }))
  unfolding parse_upstream_response parse_upstream_header parse_answer
  built_read bit =
      let bound = name_beyond_header request q end isq in
      let size = built_size in
      let id = read_u16_within response 0 (omega arith) in
      let flag = read_u16_within response 2 (omega arith) in
      let count = read_u16_within response 4 (omega arith) in
      let same_id : word response 0 ≡ q.id =
        built.id_word ∙ word-take (end + 4) 0 request (omega arith) ∙ isq.id_read in
      let long = ltb_le (length response) 12 (omega arith) in
      let enough = ltb_le (length response) (end + 4) (omega arith) in
      rw
        (
          long,
          id,
          flag,
          count,
          same_id,
          built.flags_word,
          built.question_word,
          bit,
          eq_self q.id,
          built_name,
          enough,
        )
        built_question

-- The filter makes a response to every query that it reads, with any response code below 16, and
-- that response is accepted as the server's answer to the query, with the code and no addresses.
pub parse_upstream_response-build_response :
    (request : List ℕ) (query : DnsQuery) (rcode : ℕ)
    → parse_query request ≡ some (query_of query)
    → rcode < 16
    → (response : List ℕ) × (build_response request query rcode ≡ some response)
      × (parse_upstream_response response query
          ≡ some (answer_of (record { rcode = rcode; addresses = [] })))
unfolding build_response
parse_upstream_response-build_response request query rcode h small =
    let (end, isq) = parse_query-IsQuery request query h in
    let flags = response_flags (word request 2) rcode in
    let bits = flags_bits (word request 2) rcode small in
    let front = take (end + 4) request in
    let size = length-take (end + 4) request isq.fits in
    let bound = name_beyond_header request query end isq in
    let built : build_response request query rcode ≡ some (with_header front flags) =
      rw (read_u16_within request 2 (omega (arith, isq.long)), isq.end_read) refl in
    let parts = with_header-IsBuilt front flags (omega (arith, size, bound)) in
    let read = built_read request (with_header front flags) query end flags isq parts bits.0 in
    (
      with_header front flags,
      built,
      read ∙ ap (λ r. some (answer_of (record { rcode = r; addresses = [] }))) bits.1,
    )
