-- ===== src/Sched/Ctas.antt =====
-- The queues that hand thread blocks to SMs (src/runtime/cta_scheduler.cpp). A call holds the mutex
-- from its first read of the queue to its end, so the calls of several threads are some sequence of
-- the steps below; the notifications wake a waiting `acquire`, which is then tried again.
pub mod Grid
pub mod Laws
use proto_gpu.Prelude.{
  ℕ, zero, suc, ◌+◌, ◌*◌, ◌%◌, Bool, true, false, ◌||◌, not, String, str_eq, Option, none, some,
  List, [], ◌∷◌, ◌++◌, ◌==◌, if◌then◌else◌, get_or, set, replicate,
}
use proto_gpu.Contracts.{Dim3}
use proto_gpu.Contracts.Words.{to_u64}

pub record CtaWorkItem : Type 0 where
  pub cx : ℕ
  pub cy : ℕ
  pub cz : ℕ
  pub cta_linear : ℕ
  pub cta_id : ℕ

-- The queues (one for the FIFO policy) with the two flags.
pub record CtaScheduler : Type 0 where
  pub sm_count : ℕ
  pub queues : List (List CtaWorkItem)
  pub is_closed : Bool
  pub is_stopped : Bool

pub data CtaPolicy : Type 0 where
  fifo sm_round_robin : CtaPolicy

abbrev empty_with : ℕ → CtaScheduler
empty_with n = record {
  sm_count = n;
  queues = replicate n [];
  is_closed = false;
  is_stopped = false;
}

-- The FIFO policy is the case of a single queue, which `sm_count` does not touch.
unfoldable pub create : CtaPolicy → ℕ → CtaScheduler
create fifo sm_count = empty_with 1
create sm_round_robin sm_count = empty_with (if sm_count == 0 then 1 else sm_count)

unfoldable pub create_cta_scheduler : String → ℕ → Option (CtaPolicy × CtaScheduler)
unfolding create
create_cta_scheduler name sm_count =
    if str_eq name "fifo"
    then some (fifo, create fifo sm_count)
    else if str_eq name "sm_round_robin"
    then some (sm_round_robin, create sm_round_robin sm_count)
    else none

-- The queue of an item, and the queue that an SM takes from.
abbrev pub queue_of : CtaPolicy → CtaScheduler → ℕ → ℕ
queue_of fifo s n = 0
queue_of sm_round_robin s n = n % s.sm_count

unfoldable pub submit : CtaPolicy → CtaScheduler → CtaWorkItem → CtaScheduler
submit policy s item =
    let sm = queue_of policy s item.cta_linear in
    record s { queues = set s.queues sm (get_or s.queues sm [] ++ item ∷ []) }

unfoldable pub close : CtaScheduler → CtaScheduler
close s = record s { is_closed = true }

unfoldable pub request_stop : CtaScheduler → CtaScheduler
request_stop s = record s { is_stopped = true }

unfoldable pub stop_requested : CtaScheduler → Bool
stop_requested s = s.is_stopped

-- What an `acquire` does: wait, return no item, or return one.
pub data Acquired : Type 0 where
  waits : Acquired
  nothing : Acquired
  item : CtaWorkItem → Acquired

-- The answer from the queue `sm`, given its contents.
abbrev pub serve : CtaScheduler → ℕ → List CtaWorkItem → CtaScheduler × Acquired
serve s sm [] = (s, if s.is_closed then nothing else waits)
serve s sm (first ∷ rest) = (record s { queues = set s.queues sm rest }, item first)

unfoldable pub acquire : CtaPolicy → CtaScheduler → ℕ → CtaScheduler × Acquired
acquire policy s sm_id =
    let sm = queue_of policy s sm_id in
    if s.is_stopped then (s, nothing) else serve s sm (get_or s.queues sm [])

-- The loops of src/simt/simt.cpp that number the blocks of a grid, x innermost
unfoldable pub grid_row : Dim3 → ℕ → ℕ → ℕ → ℕ → List CtaWorkItem
grid_row g cz cy zero cx = []
grid_row g cz cy (suc left) cx =
    let cta_linear = to_u64 ((cz * g.y + cy) * g.x + cx) in
    record { cx = cx; cy = cy; cz = cz; cta_linear = cta_linear; cta_id = cta_linear }
    ∷ grid_row g cz cy left (suc cx)

unfoldable pub grid_plane : Dim3 → ℕ → ℕ → ℕ → List CtaWorkItem
unfolding grid_row
grid_plane g cz zero cy = []
grid_plane g cz (suc left) cy = grid_row g cz cy g.x 0 ++ grid_plane g cz left (suc cy)

unfoldable pub grid_items : Dim3 → ℕ → ℕ → List CtaWorkItem
unfolding grid_plane
grid_items g zero cz = []
grid_items g (suc left) cz = grid_plane g cz g.y 0 ++ grid_items g left (suc cz)

unfoldable pub submit_all : CtaPolicy → CtaScheduler → List CtaWorkItem → CtaScheduler
submit_all policy s [] = s
submit_all policy s (i ∷ items) = submit_all policy (submit policy s i) items

-- Every block is submitted, then the queue is closed.
unfoldable pub submit_grid : CtaPolicy → CtaScheduler → Dim3 → CtaScheduler
unfolding submit_all grid_items
submit_grid policy s g = close (submit_all policy s (grid_items g g.z 0))
