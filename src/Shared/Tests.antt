-- ===== src/Shared/Tests.antt =====
-- Lists and queues that meet the hypotheses of the theorems.
use libnode.Base.{ℕ, ◌≡◌, none, refl, true, [], ◌∷◌}
use libnode.Shared.FreeList.{
  FreeList, new_free_list, alloc, free, Uses, fresh, allocated, freed, dropped, IsKept, Uses-IsKept,
}
use libnode.Shared.MessageQueue.{MessageQueue, new_queue}

-- A list of one place: 7 is kept, 8 is dropped, and 7 is given again.
abbrev full : FreeList ℕ
full = record { max = 1; list = 7 ∷ [] }

full-Uses : Uses 1 full [] (7 ∷ [])
unfolding free
full-Uses = dropped 8 refl (freed 7 refl fresh)

Uses-IsKept_example :
    IsKept {A = ℕ} (new_free_list 1) (7 ∷ []) (7 ∷ [])
    × ((alloc {A = ℕ} (new_free_list 1)).0 ≡ none)
unfolding alloc
Uses-IsKept_example = Uses-IsKept (allocated 7 refl full-Uses)

abbrev open_one : MessageQueue ℕ
open_one = record new_queue { is_open = true; queue = 1 ∷ [] }
