-- ===== src/Fetch/Blocks.antt =====
-- What the client of SP_HW9/52_3 prints of a file.
use sp_hw.Base.{
  ℕ, suc, ◌+◌, ◌-◌, ◌≤◌, ◌<◌, ◌≡◌, ◌≢◌, refl, sym, ap, ap₂, ◌∙◌, Bool, true, false, List, [], ◌∷◌,
  ◌++◌, Option, none, some, if◌then◌else◌, ltb, ltb-true, ltb-false, length, length-append, joined,
  append-nil, append_assoc, All, Bytes, Calls, cstr-padded, Bool-cases, inl, inr, arith,
}
use sp_hw.Fetch.{
  Kind, failure, data_kind, end_kind, Response, content_size, in_array, send_end, send_blocks,
  serve_request, Fetched, complete, overruns, shown, after_message, after_print, receive_rest,
  after_first, receive,
}

abbrev pub HasNoNul : Bytes → Type 0
HasNoNul block = All (λ c. c ≢ 0) block

-- A block that leaves room for a NUL in the array.
pub record IsShort (block : Bytes) : Type 0 where
  pub no_nul : HasNoNul block
  pub fits : length block < content_size

pub shown-short : (block : Bytes) → IsShort block → shown (in_array block) ≡ some block
unfolding shown in_array
shown-short block h =
    rw
      (
        cstr-padded block (content_size - length block) h.no_nul,
        ltb-true (length block) content_size h.fits,
      )
      refl

pub shown-full :
    (block : Bytes) → HasNoNul block → content_size ≤ length block → shown (in_array block) ≡ none
unfolding shown in_array
shown-full block h l =
    rw (cstr-padded block (content_size - length block) h, ltb-false (length block) content_size l)
      refl

-- A message of data whose text is shorter than the array is printed, and the loop goes on.
pub receive_rest-short :
    (block : Bytes) (messages : List Response) (printed : Bytes) (count : ℕ)
    → IsShort block
    → receive_rest (record { kind = data_kind; content = in_array block } ∷ messages) printed count
      ≡ receive_rest messages (printed ++ block) (suc count)
unfolding receive_rest after_print after_message
receive_rest-short block messages printed count h = rw (shown-short block h) refl

pub receive_rest-full :
    (block : Bytes) (messages : List Response) (printed : Bytes) (count : ℕ)
    → HasNoNul block
    → content_size ≤ length block
    → receive_rest (record { kind = data_kind; content = in_array block } ∷ messages) printed count
      ≡ overruns printed
unfolding receive_rest after_print
receive_rest-full block messages printed count h l = rw (shown-full block h l) refl

pub receive_rest-end :
    (block : Bytes) (printed : Bytes) (count : ℕ)
    → IsShort block
    → receive_rest (record { kind = end_kind; content = in_array block } ∷ []) printed count
      ≡ complete (printed ++ block) (suc count)
unfolding receive_rest after_print after_message
receive_rest-end block printed count h = rw (shown-short block h) refl

abbrev pub is_failure : Kind → Bool
is_failure failure = true
is_failure _ = false

after_first-after_print :
    (kind : Kind) (text : Option Bytes) (next_round : Bytes → Fetched)
    → is_failure kind ≡ false
    → after_first kind text next_round ≡ after_print text kind [] 1 next_round
unfolding after_first after_print after_message
after_first-after_print kind none next_round h = refl
after_first-after_print failure (some text) next_round h = cc
after_first-after_print data_kind (some text) next_round h = refl
after_first-after_print end_kind (some text) next_round h = refl

-- But for a failure, the first message is treated as the later ones are.
pub receive-receive_rest :
    (m : Response) (messages : List Response)
    → is_failure m.kind ≡ false
    → receive (m ∷ messages) ≡ receive_rest (m ∷ messages) [] 0
unfolding receive receive_rest
receive-receive_rest m messages h = after_first-after_print m.kind (shown m.content) _ h

pub send_blocks-data :
    (sends : Calls) (k : ℕ) (block : Bytes) (blocks : List Bytes)
    → sends k ≡ true
    → send_blocks sends k (block ∷ blocks)
      ≡ record { kind = data_kind; content = in_array block } ∷ send_blocks sends (suc k) blocks
unfolding send_blocks
send_blocks-data sends k block blocks h = rw h refl

empty-IsShort : IsShort []
empty-IsShort = record { no_nul = tt; fits = omega arith }

pub complete-eq : {p q : Bytes} {m n : ℕ} → p ≡ q → m ≡ n → complete p m ≡ complete q n
complete-eq e f = ap₂ complete e f

-- The loops of both sides together, where every block is short and every send succeeds.
pub receive_rest-send_blocks :
    (sends : Calls) (k : ℕ) (blocks : List Bytes) (printed : Bytes) (count : ℕ)
    → ((j : ℕ) → sends j ≡ true)
    → All IsShort blocks
    → receive_rest (send_blocks sends k blocks) printed count
      ≡ complete (printed ++ joined blocks) (suc (count + length blocks))
unfolding send_blocks send_end
receive_rest-send_blocks sends k [] printed count s h = rw (s k) (
    receive_rest-end [] printed count empty-IsShort
    ∙ complete-eq {p = printed ++ []} refl (omega arith))
receive_rest-send_blocks sends k (block ∷ blocks) printed count s h =
    ap (λ ms. receive_rest ms printed count) (send_blocks-data sends k block blocks (s k))
    ∙ receive_rest-short block (send_blocks sends (suc k) blocks) printed count (h.0)
    ∙ receive_rest-send_blocks sends (suc k) blocks (printed ++ block) (suc count) s (h.1)
    ∙ complete-eq (append_assoc printed block (joined blocks)) (omega arith)

-- The blocks that successive reads bring of a regular file: all but the last are full.
abbrev pub RegularReads : List Bytes → Type 0
RegularReads [] = Unit
RegularReads (b ∷ []) = (0 < length b) × (length b ≤ content_size)
RegularReads (b ∷ c ∷ bs) = (length b ≡ content_size) × RegularReads (c ∷ bs)

-- A first block that fills the array.
receive-full :
    (before : Bytes) (sends : Calls) (block : Bytes) (blocks : List Bytes)
    → ((j : ℕ) → sends j ≡ true)
    → HasNoNul block
    → content_size ≤ length block
    → receive (serve_request true before sends (some (block ∷ blocks))) ≡ overruns []
unfolding serve_request
receive-full before sends block blocks s h l =
    ap receive (send_blocks-data sends 0 block blocks (s 0))
    ∙ receive-receive_rest _ (send_blocks sends 1 blocks) refl
    ∙ receive_rest-full block (send_blocks sends 1 blocks) [] 0 h l

receive-one :
    (before : Bytes) (sends : Calls) (block : Bytes)
    → ((j : ℕ) → sends j ≡ true)
    → IsShort block
    → receive (serve_request true before sends (some (block ∷ []))) ≡ complete block 2
unfolding serve_request
receive-one before sends block s h =
    ap receive (send_blocks-data sends 0 block [] (s 0))
    ∙ receive-receive_rest _ (send_blocks sends 1 []) refl
    ∙ receive_rest-short block (send_blocks sends 1 []) [] 0 h
    ∙ receive_rest-send_blocks sends 1 [] block 1 s tt
    ∙ ap (λ x. complete x 2) (append-nil block)

receive-none :
    (before : Bytes) (sends : Calls)
    → ((j : ℕ) → sends j ≡ true)
    → receive (serve_request true before sends (some [])) ≡ complete [] 1
unfolding serve_request send_blocks send_end
receive-none before sends s = rw (s 0) (
    receive-receive_rest (record { kind = end_kind; content = in_array [] }) [] refl
    ∙ receive_rest-end [] [] 0 empty-IsShort)

-- A regular file whose bytes are not zero is requested, and every message is sent. If the file is
-- shorter than the array of a message, the client prints it, and reports one message more than the
-- file has blocks. If it is not, the first `printf` reads behind the array.
pub receive-serve_request :
    (before : Bytes) (sends : Calls) (blocks : List Bytes)
    → ((j : ℕ) → sends j ≡ true)
    → RegularReads blocks
    → All HasNoNul blocks
    → receive (serve_request true before sends (some blocks)) ≡ (
        if ltb (length (joined blocks)) content_size
        then complete (joined blocks) (suc (length blocks))
        else overruns [])
receive-serve_request before sends [] s r h = receive-none before sends s
receive-serve_request before sends (b ∷ []) s r h =
    elim (Bool-cases (ltb (length b) content_size)) [
      | inl e ↦
          rw (append-nil b, e)
            (receive-one before sends b s (record { no_nul = h.0; fits = ground arith }))
      | inr e ↦ rw (append-nil b, e) (receive-full before sends b [] s (h.0) (ground arith))
    ]
receive-serve_request before sends (b ∷ c ∷ bs) s r h =
    receive-full before sends b (c ∷ bs) s (h.0) (omega (arith, r.0))
    ∙ sym (
        rw
          (ltb-false (length (b ++ joined (c ∷ bs))) content_size
            (omega (arith, r.0, length-append b (joined (c ∷ bs)))))
          refl)
