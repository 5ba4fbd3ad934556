-- ===== src/Fetch/Failures.antt =====
-- What the client of SP_HW9/52_3 gets when the server fails.
use sp_hw.Base.{
  ℕ, suc, ◌+◌, ◌<◌, ◌≡◌, refl, sym, ap, subst, ◌∙◌, true, false, List, [], ◌∷◌, ◌++◌, some, length,
  joined, append_assoc, All, Bytes, Calls, arith,
}
use sp_hw.Fetch.{
  data_kind, end_kind, Response, in_array, send_end, send_blocks, serve_request, complete,
  receive_rest, receive,
}
use sp_hw.Fetch.Blocks.{
  IsShort, is_failure, receive_rest-short, receive_rest-end, receive-receive_rest, send_blocks-data,
  complete-eq,
}

-- The send of one block fails, and those before it and the one behind it succeed.
pub record FailsAt (sends : Calls) (k : ℕ) : Type 0 where
  pub earlier : (j : ℕ) → j < k → sends j ≡ true
  pub fails : sends k ≡ false
  pub recovers : sends (suc k) ≡ true

send_blocks-fails :
    (sends : Calls) (k : ℕ) (block : Bytes) (after : List Bytes)
    → FailsAt sends k
    → send_blocks sends k (block ∷ after)
      ≡ record { kind = end_kind; content = in_array block } ∷ []
unfolding send_blocks send_end
send_blocks-fails sends k block after f = rw (f.fails, f.recovers) refl

receive_rest-cut :
    (sends : Calls) (k n : ℕ) (front : List Bytes) (block : Bytes) (after : List Bytes)
    (printed : Bytes) (count : ℕ)
    → FailsAt sends n
    → n ≡ k + length front
    → All IsShort front
    → IsShort block
    → receive_rest (send_blocks sends k (front ++ block ∷ after)) printed count
      ≡ complete (printed ++ (joined front ++ block)) (suc (count + length front))
receive_rest-cut sends k n [] block after printed count f e h b =
    ap (λ ms. receive_rest ms printed count)
      (send_blocks-fails sends k block after (subst (FailsAt sends) (omega (arith, e)) f))
    ∙ receive_rest-end block printed count b
    ∙ complete-eq {p = printed ++ block} refl (omega arith)
receive_rest-cut sends k n (x ∷ front) block after printed count f e h b =
    ap (λ ms. receive_rest ms printed count)
      (send_blocks-data sends k x (front ++ block ∷ after) (f.earlier k (omega (arith, e))))
    ∙ receive_rest-short x (send_blocks sends (suc k) (front ++ block ∷ after)) printed count (h.0)
    ∙ receive_rest-cut sends (suc k) n front block after (printed ++ x) (suc count) f
        (omega (arith, e)) (h.1) b
    ∙ complete-eq
        (append_assoc printed x (joined front ++ block)
          ∙ ap (λ y. printed ++ y) (sym (append_assoc x (joined front) block)))
        (omega arith)

not_failure :
    (sends : Calls) (k : ℕ) (front : List Bytes) (block : Bytes) (after : List Bytes)
    → FailsAt sends (k + length front)
    → (m : Response) × (ms : List Response) × (send_blocks sends k (front ++ block ∷ after)
        ≡ m ∷ ms)
      × (is_failure m.kind ≡ false)
not_failure sends k [] block after f = (
  record { kind = end_kind; content = in_array block },
  [],
  send_blocks-fails sends k block after (subst (FailsAt sends) (omega arith) f),
  refl,
)
not_failure sends k (x ∷ front) block after f = (
  record { kind = data_kind; content = in_array x },
  send_blocks sends (suc k) (front ++ block ∷ after),
  send_blocks-data sends k x (front ++ block ∷ after) (f.earlier k (omega arith)),
  refl,
)

-- If the send of a block fails, and those before it and the one behind it succeed, the client prints
-- the file up to that block, this block included, and ends as it does behind a whole file. All
-- these blocks leave room for a NUL in the array and hold none.
pub receive-cut :
    (before : Bytes) (sends : Calls) (front : List Bytes) (block : Bytes) (after : List Bytes)
    → FailsAt sends (length front)
    → All IsShort front
    → IsShort block
    → receive (serve_request true before sends (some (front ++ block ∷ after)))
      ≡ complete (joined front ++ block) (suc (length front))
unfolding serve_request
receive-cut before sends front block after f h b =
    let g : FailsAt sends (0 + length front) = subst (FailsAt sends) (omega arith) f in
    let (m, ms, e, k) = not_failure sends 0 front block after g in
    ap receive e
    ∙ receive-receive_rest m ms k
    ∙ ap (λ x. receive_rest x [] 0) (sym e)
    ∙ receive_rest-cut sends 0 (length front) front block after [] 0 f (omega arith) h b
    ∙ complete-eq {p = joined front ++ block} refl (omega arith)
