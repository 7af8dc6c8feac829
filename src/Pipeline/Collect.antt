-- ===== src/Pipeline/Collect.antt =====
-- `collectParallel`: each collector's goroutine writes a slot of its own, and the slots are read
-- when all have ended.
pub mod Schedule
use anti_scrapling.Go.{ℕ, zero, suc, Option, none, some, List, [], ◌∷◌, ◌++◌, map, get_elem?, Bytes}
use anti_scrapling.Types.{Signal}
use anti_scrapling.Http.{RequestContext}

-- `collect` gives the signals, which are read also where there is an error.
pub record Collector : Type 0 where
  pub name : Bytes
  pub collect : RequestContext → List Signal

abbrev pub Slots : Type 0
Slots = List (List Signal)

unfoldable pub empty_slots : List Collector → Slots
empty_slots [] = []
empty_slots (c ∷ cs) = [] ∷ empty_slots cs

-- The goroutine of collector `i` ends: `slots[i].sigs = sigs`.
unfoldable pub write_slot : List Collector → RequestContext → ℕ → Slots → Slots
write_slot [] req i slots = slots
write_slot (c ∷ cs) req i [] = []
write_slot (c ∷ cs) req zero (slot ∷ slots) = c.collect req ∷ slots
write_slot (c ∷ cs) req (suc i) (slot ∷ slots) = slot ∷ write_slot cs req i slots

-- The goroutines end in the order of `schedule`.
unfoldable pub write_slots : List Collector → RequestContext → List ℕ → Slots → Slots
write_slots cs req [] slots = slots
write_slots cs req (i ∷ schedule) slots = write_slots cs req schedule (write_slot cs req i slots)

unfoldable pub concat_slots : Slots → List Signal
concat_slots [] = []
concat_slots (slot ∷ slots) = slot ++ concat_slots slots

unfoldable pub collect_parallel : List Collector → List ℕ → RequestContext → List Signal
collect_parallel cs schedule req = concat_slots (write_slots cs req schedule (empty_slots cs))
