-- ===== src/Tests/Fetching.antt =====
-- Files through the message queues of SP_HW9/52_3.
use sp_hw.Base.{
  Bool, ◌&&◌, ap, cstr, Option, replicate, ◌≢◌, ℕ, zero, suc, ◌<◌, ◌≡◌, refl, true, false, List, [],
  ◌∷◌, some, none, Bytes, Calls, codes, length, ltb, arith,
}
use sp_hw.Fetch.{complete, refused, serve_request, receive, after_first, shown, not_opened}
use sp_hw.Fetch.Blocks.{HasNoNul, IsShort}
use sp_hw.Fetch.Failures.{FailsAt}
use sp_hw.Fetch.Request.{
  interrupted, arrived, answers, server_main, client_main, fetched, named_queue,
}
use sp_hw.Fetch.Names.{AreNames}
use sp_hw.Fetch.Served.{Asker, own_queue, events_of, IsServed, client_main-served}

abbrev all_sent : Calls
all_sent k = true

abbrev small_file : List Bytes
small_file = codes "hi" ∷ []

hi-HasNoNul : HasNoNul (codes "hi")
hi-HasNoNul = ((λ e. cc), ((λ e. cc), tt))

-- The process 4321 asks for the file `a`, behind an interrupt, and another process for the same.
abbrev session : Asker
session = record {
  pid_digits = codes "4321";
  file = codes "a";
  front = interrupted ∷ [];
  back = arrived (codes "/myclient9") ∷ [];
}

abbrev the_file : Bytes → Option (List Bytes)
the_file name = some small_file

abbrev blank : Bytes
blank = replicate 60 0

abbrev all_set : Bytes → Bool
all_set [] = true
all_set (c ∷ s) = ltb 0 c && all_set s

all_set-HasNoNul : (s : Bytes) → all_set s ≡ true → HasNoNul s
all_set-HasNoNul [] h = tt
all_set-HasNoNul (c ∷ s) h = ((λ e. ground arith), all_set-HasNoNul s (ground arith))

session-AreNames : AreNames (own_queue session) (codes "a") blank
session-AreNames = record {
  whole = refl;
  name_no_nul = all_set-HasNoNul (own_queue session) refl;
  file_no_nul = all_set-HasNoNul (codes "a") refl;
  name_fits = omega arith;
  file_fits = omega arith;
}

-- The other request names a queue of its own.
other_named : named_queue (codes "/myclient9") ≢ own_queue session
unfolding named_queue cstr
other_named e = omega (arith, ap length e)

session-IsServed : IsServed session blank all_sent
session-IsServed = record {
  names = session-AreNames;
  named = λ e. cc;
  front_unbroken = tt;
  back_unbroken = tt;
  front_others = tt;
  back_others = (other_named, tt);
  all_forked = λ j. refl;
}

client_main-served_example :
    client_main all_sent (some (codes "a")) (codes "4321") blank (λ mem.
      answers
        (own_queue session)
        []
        all_sent
        the_file
        (server_main all_sent 0 (events_of session mem)))
    ≡ fetched (complete (codes "hi") 2)
client_main-served_example =
    client_main-served session blank [] all_sent all_sent all_sent the_file small_file
      session-IsServed (λ j. refl) (λ j. refl) refl (omega arith) (hi-HasNoNul, tt)

-- The second message cannot be sent.
abbrev second_fails : Calls
second_fails (suc zero) = false
second_fails _ = true

hi-IsShort : IsShort (codes "hi")
hi-IsShort = record { no_nul = hi-HasNoNul; fits = omega arith }

second-FailsAt : FailsAt second_fails 1
second-FailsAt = record { earlier = first_sent; fails = refl; recovers = refl }
  where
    first_sent : (j : ℕ) → j < 1 → second_fails j ≡ true
    first_sent zero h = refl
    first_sent (suc j) h = absurd (omega arith)

no_file : receive (serve_request true [] all_sent none) ≡ refused not_opened
unfolding serve_request receive shown after_first
no_file = refl
