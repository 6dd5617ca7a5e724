-- ===== src/Tests/Queues.antt =====
-- The schedulers at concrete inputs.
use proto_gpu.Prelude.{ℕ, ◌≡◌, Bool, List, [], ◌∷◌, ◌++◌, ltb, get_or, arith}
use proto_gpu.Sched.Warps.{pick_in_order, pick_round_robin}
use proto_gpu.Sched.Warps.Laws.{
  InOrderPick, pick_in_order-InOrderPick, RoundPick, pick_round_robin-RoundPick,
}
use proto_gpu.Sched.Ctas.{CtaWorkItem, CtaScheduler, create, sm_round_robin}
use proto_gpu.Contracts.{Dim3}
use proto_gpu.Sched.Ctas.{grid_items}
use proto_gpu.Sched.Ctas.Grid.{grid_items-numbers, numbers}
use proto_gpu.Sched.Ctas.Laws.{
  Event, submits, closes, acquires, after_all, all_submitted, all_taken, after_all-account,
  create-IsSized,
}

abbrev first_two_done : ℕ → Bool
first_two_done w = ltb w 2

pick_in_order-InOrderPick_example :
    InOrderPick 0 4 first_two_done (pick_in_order 0 4 first_two_done)
pick_in_order-InOrderPick_example = pick_in_order-InOrderPick 0 4 first_two_done

pick_round_robin-RoundPick_example :
    RoundPick 1 4 first_two_done (pick_round_robin 1 4 first_two_done)
pick_round_robin-RoundPick_example =
    pick_round_robin-RoundPick 1 4 first_two_done (omega arith) (omega arith)

abbrev block : ℕ → CtaWorkItem
block n = record { cx = n; cy = 0; cz = 0; cta_linear = n; cta_id = n }

abbrev two_sms : CtaScheduler
two_sms = create sm_round_robin 2

abbrev calls : List Event
calls =
    submits (block 0)
    ∷ submits (block 1)
    ∷ submits (block 2)
    ∷ closes
    ∷ acquires 0
    ∷ acquires 1
    ∷ []

after_all-account_example :
    get_or two_sms.queues 0 [] ++ all_submitted sm_round_robin two_sms 0 calls
    ≡ all_taken sm_round_robin two_sms 0 calls
      ++ get_or (after_all sm_round_robin two_sms calls).queues 0 []
after_all-account_example =
    after_all-account sm_round_robin two_sms 0 calls (create-IsSized sm_round_robin 2)

abbrev grid : Dim3
grid = record { x = 2; y = 2; z = 1 }

grid_items-numbers_example : numbers (grid_items grid 1 0) ≡ 0 ∷ 1 ∷ 2 ∷ 3 ∷ []
grid_items-numbers_example = grid_items-numbers grid (omega arith)
