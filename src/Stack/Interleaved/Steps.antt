-- ===== src/Stack/Interleaved/Steps.antt =====
-- lab3/Stack.c: every access of a thread keeps the invariant, and is a deed on the atomic stack.
use distibuted_sys.Base.{ℕ, ◌≡◌, ◌<◌, List}
use distibuted_sys.Stack.{Ptr}
use distibuted_sys.Stack.Hazard.{max_hazard_pointers}
use distibuted_sys.Stack.Interleaved.{
  Shared, Place, idle, allocates, loads_head, links, swaps_in, push_ends, loads_old, protects,
  checks, reads_next, swaps_out, clears, fails, copies, counts, resets, pop_ends, loads_reclaim,
  links_reclaim, swaps_reclaim, takes, cleans, scans, event, step, Input,
}
use distibuted_sys.Stack.Interleaved.Zones.{Zone}
use distibuted_sys.Stack.Interleaved.Knowledge.{Inv}
use distibuted_sys.Stack.Interleaved.Outcome.{Outcome}
use distibuted_sys.Stack.Interleaved.Pushes.{
  step-idle, step-allocates, step-loads_head, step-links, step-swaps_in, step-push_ends,
}
use distibuted_sys.Stack.Interleaved.Pops.{
  step-loads_old, step-protects, step-checks, step-reads_next, step-swaps_out, step-clears,
  step-fails, step-copies, step-counts, step-resets, step-pop_ends,
}
use distibuted_sys.Stack.Interleaved.Reclaims.{
  step-loads_reclaim, step-links_reclaim, step-swaps_reclaim,
}
use distibuted_sys.Stack.Interleaved.Cleans.{step-takes, step-cleans, step-scans}

pub step-Outcome :
    (input : Input) (i : ℕ) (s : Shared) (place : ℕ → Place) (zone : Ptr → Zone) (vs : List ℕ)
    → Inv s place zone vs
    → i < max_hazard_pointers
    → (P : Place) → place i ≡ P
    → Outcome i (event input i P) s place vs P (step input i s P)
step-Outcome input i s place zone vs inv bound idle at = step-idle input i s place zone vs inv at
step-Outcome input i s place zone vs inv bound (allocates v) at =
    step-allocates input i s place zone vs inv v at
step-Outcome input i s place zone vs inv bound (loads_head p c) at =
    step-loads_head input i s place zone vs inv p c at
step-Outcome input i s place zone vs inv bound (links p top c) at =
    step-links input i s place zone vs inv p top c at
step-Outcome input i s place zone vs inv bound (swaps_in p top c) at =
    step-swaps_in input i s place zone vs inv p top c at
step-Outcome input i s place zone vs inv bound (push_ends r) at =
    step-push_ends input i s place zone vs inv r at
step-Outcome input i s place zone vs inv bound loads_old at =
    step-loads_old input i s place zone vs inv at
step-Outcome input i s place zone vs inv bound (protects old) at =
    step-protects input i s place zone vs inv old at
step-Outcome input i s place zone vs inv bound (checks tmp) at =
    step-checks input i s place zone vs inv bound tmp at
step-Outcome input i s place zone vs inv bound (reads_next old) at =
    step-reads_next input i s place zone vs inv old at
step-Outcome input i s place zone vs inv bound (swaps_out old n) at =
    step-swaps_out input i s place zone vs inv old n at
step-Outcome input i s place zone vs inv bound (clears old) at =
    step-clears input i s place zone vs inv old at
step-Outcome input i s place zone vs inv bound fails at = step-fails input i s place zone vs inv at
step-Outcome input i s place zone vs inv bound (copies old) at =
    step-copies input i s place zone vs inv old at
step-Outcome input i s place zone vs inv bound (counts v) at =
    step-counts input i s place zone vs inv v at
step-Outcome input i s place zone vs inv bound (resets v) at =
    step-resets input i s place zone vs inv v at
step-Outcome input i s place zone vs inv bound (pop_ends o) at =
    step-pop_ends input i s place zone vs inv o at
step-Outcome input i s place zone vs inv bound (loads_reclaim p k) at =
    step-loads_reclaim input i s place zone vs inv p k at
step-Outcome input i s place zone vs inv bound (links_reclaim p r k) at =
    step-links_reclaim input i s place zone vs inv p r k at
step-Outcome input i s place zone vs inv bound (swaps_reclaim p k) at =
    step-swaps_reclaim input i s place zone vs inv p k at
step-Outcome input i s place zone vs inv bound (takes v) at =
    step-takes input i s place zone vs inv v at
step-Outcome input i s place zone vs inv bound (cleans current v) at =
    step-cleans input i s place zone vs inv current v at
step-Outcome input i s place zone vs inv bound (scans current n hp_i v) at =
    step-scans input i s place zone vs inv current n hp_i v at
