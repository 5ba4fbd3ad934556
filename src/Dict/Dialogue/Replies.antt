-- ===== src/Dict/Dialogue/Replies.antt =====
-- What the dictionary servers reply, and what their clients make of it.
use sp_hw.Base.{
  ltb-true, ◌<◌, str_eq, Bool-cases, ℕ, suc, ◌^◌, ◌≤◌, ◌≡◌, ◌≢◌, ◌⊎◌, inl, inr, refl, ap, ◌∙◌, true,
  false, List, [], ◌∷◌, none, some, length, map, All, Calls, str_eq_iff, arith,
}
use sp_hw.Dict.Record.{text_size, Dictrec, found, not_found, missing}
use sp_hw.Dict.Mapped.{
  Disk, Handle, Probe, hit, miss, fault, open_table, answer, lookup_in, first_lookup, lookup,
}
use sp_hw.Dict.Mapped.Order.{IsSorted, linear}
use sp_hw.Dict.Mapped.Search.{search-eq-linear}
use sp_hw.Dict.Dialogue.{
  success, prepend, sending, handled, dialogue, Packet, recvfrom_fails, empty, datagram, udp_loop,
  closed, Outcome, quits, gives, judge, exchange, lookup7,
}

-- A text that the array of a record can take.
abbrev pub TextFits : Dictrec → Type 0
TextFits r = length r.text < text_size

-- A disk whose table is sorted and small enough for the binary search, with texts that end in their arrays.
pub record HasTable (disk : Disk) (table : List Dictrec) : Type 0 where
  pub opens : open_table disk ≡ some table
  pub sorted : IsSorted table
  pub small : length table ≤ 2 ^ 30
  pub texts : All TextFits table

-- The static table, before or after the first call.
abbrev pub Fits : List Dictrec → Handle → Type 0
Fits table handle = (handle ≡ none) ⊎ (handle ≡ some table)

-- The reply that the table has for a request.
abbrev pub with_answer : Dictrec → Probe → Dictrec
with_answer request (hit r) = record request { text = r.text }
with_answer request miss = record request { text = missing }
with_answer request fault = request

unfoldable pub reply_from : List Dictrec → Dictrec → Dictrec
reply_from table request = with_answer request (linear table request)

-- The records that the datagrams hold, in order.
abbrev pub requests_of : List Packet → List Dictrec
requests_of [] = []
requests_of (datagram r ∷ packets) = r ∷ requests_of packets
requests_of (_ ∷ packets) = requests_of packets

-- A probe that `strcpy` can copy.
abbrev pub Copies : Probe → Type 0
Copies (hit r) = TextFits r
Copies miss = Unit
Copies fault = ⊥

pub linear-Copies :
    (table : List Dictrec) (sought : Dictrec) → All TextFits table → Copies (linear table sought)
unfolding linear
linear-Copies [] sought h = tt
linear-Copies (r ∷ table) sought h = elim (Bool-cases (str_eq r.word sought.word)) [
  | inl e ↦ rw e (h.0)
  | inr e ↦ rw e (linear-Copies table sought (h.1))
]

module _ (disk : Disk) (table : List Dictrec) (has : HasTable disk table) where
  pub lookup-linear :
      (handle : Handle) (request : Dictrec)
      → Fits table handle
      → lookup disk handle request ≡ answer request table (linear table request)
  lookup-linear handle request (inl e) = rw e (
      unfold lookup first_lookup in
      ap (λ o. first_lookup o request) has.opens
      ∙ unfold lookup_in in
        ap (answer request table) (search-eq-linear table request has.small has.sorted))
  lookup-linear handle request (inr e) = rw e (
      unfold lookup lookup_in in
      ap (answer request table) (search-eq-linear table request has.small has.sorted))

  handled-answer :
      (request : Dictrec) (p : Probe)
      → Copies p
      → handled (answer request table p) ≡ sending (with_answer request p) (some table)
  unfolding handled answer
  handled-answer request (hit r) fits = rw (ltb-true (length r.text) text_size fits) refl
  handled-answer request miss fits = refl
  handled-answer request fault fits = absurd fits

  handled-lookup :
      (handle : Handle) (request : Dictrec)
      → Fits table handle
      → handled (lookup disk handle request) ≡ sending (reply_from table request) (some table)
  unfolding reply_from
  handled-lookup handle request fits =
      ap handled (lookup-linear handle request fits)
      ∙ handled-answer request (linear table request) (linear-Copies table request has.texts)

  -- Over a connection whose sends succeed, a child of the server replies to every request, in order,
  -- with the text of the record that has the word, or with XXXX if no record has it.
  pub dialogue-replies :
      (requests : List Dictrec) (handle : Handle) (io : Calls) (k : ℕ)
      → Fits table handle
      → ((n : ℕ) → io n ≡ true)
      → dialogue disk handle io k requests
        ≡ record { replies = map (reply_from table) requests; exit = success }
  unfolding dialogue
  dialogue-replies [] handle io k fits sent = refl
  dialogue-replies (request ∷ requests) handle io k fits sent =
      rw (dialogue, handled-lookup handle request fits, sent k)
        (ap (prepend (reply_from table request))
          (dialogue-replies requests (some table) io (suc k) (inr refl) sent))

  -- The UDP server replies alike, whatever empty datagrams come between.
  pub udp_loop-replies :
      (packets : List Packet) (handle : Handle) (io : Calls) (k : ℕ)
      → Fits table handle
      → All (λ p. p ≢ recvfrom_fails) packets
      → ((n : ℕ) → io n ≡ true)
      → udp_loop disk handle io k packets
        ≡ record { replies = map (reply_from table) (requests_of packets); exit = success }
  unfolding udp_loop
  udp_loop-replies [] handle io k fits arrive sent = refl
  udp_loop-replies (recvfrom_fails ∷ packets) handle io k fits arrive sent = absurd (arrive.0 refl)
  udp_loop-replies (empty ∷ packets) handle io k fits arrive sent =
      udp_loop-replies packets handle io k fits arrive.1 sent
  udp_loop-replies (datagram request ∷ packets) handle io k fits arrive sent =
      rw (udp_loop, handled-lookup handle request fits, sent k)
        (ap (prepend (reply_from table request))
          (udp_loop-replies packets (some table) io (suc k) (inr refl) arrive.1 sent))

-- What a client is to give for a probe of the server's table.
abbrev pub expected : Dictrec → Probe → Outcome
expected sought (hit r) = gives found (record sought { text = r.text })
expected sought miss = gives not_found (record sought { text = missing })
expected sought fault = quits

-- If the server closes the connection, the client reports what stood in the text before: FOUND with
-- it, unless it was XXXX. No test tells this from an answer.
pub lookup7-closed :
    (sought : Dictrec) (io : Calls)
    → io 2 ≡ true
    → sought.text ≢ missing
    → lookup7 false io closed sought ≡ gives found sought
unfolding lookup7 exchange judge
lookup7-closed sought io sent stale = rw sent (ground (arith, str_eq_iff sought.text missing))
