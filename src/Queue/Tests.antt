-- ===== src/Queue/Tests.antt =====
-- An event queue of dex/src/state.rs that has gone round the end of its buffer.
use openbook_dex.Prelude.{add64, ℕ, zero, suc, ◌≡◌, refl, List, [], ◌∷◌, arith}
use openbook_dex.Error.{ok}
use openbook_dex.Queue.{Queue, EventQueueHeader, event_header, collect}
use openbook_dex.Queue.Valid.{IsValid, Holds, Items}
use openbook_dex.Queue.Runs.{push, pop, revert, Agrees, spec_run, run, run_refines}

abbrev wrapped : Queue EventQueueHeader ℕ
wrapped = record {
  header = record { account_flags = 17; head = 2; count = 2; seq_num = 9 };
  buf = 20 ∷ 99 ∷ 10 ∷ [];
}

abbrev held : List ℕ
held = 10 ∷ 20 ∷ []

wrapped-IsValid : IsValid wrapped
wrapped-IsValid = record { head_in = omega arith; count_in = omega arith; small = omega arith }

wrapped-Items : Items wrapped.buf 2 held
wrapped-Items zero p = refl
wrapped-Items (suc zero) p = refl
wrapped-Items (suc (suc i)) p = absurd (omega arith)

wrapped-Holds : Holds wrapped held
wrapped-Holds = record { counted = refl; items = wrapped-Items }

-- The loop over the queue goes round the end.
runs : collect 3 wrapped 0 ≡ ok held
unfolding collect add64
runs = refl

run_refines_example :
    Agrees 3
      (spec_run 3 held (push 30 ∷ push 40 ∷ pop ∷ revert 1 ∷ []))
      (run wrapped (push 30 ∷ push 40 ∷ pop ∷ revert 1 ∷ []))
run_refines_example =
    run_refines (push 30 ∷ push 40 ∷ pop ∷ revert 1 ∷ []) wrapped held wrapped-IsValid wrapped-Holds
