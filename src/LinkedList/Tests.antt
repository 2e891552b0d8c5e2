-- ===== src/LinkedList/Tests.antt =====
-- Lists at concrete addresses.
use disastr_os_queues.Base.{◌≡◌, refl, List, [], ◌∷◌, ◌==◌, pos, some, if◌then◌else◌}
use disastr_os_queues.LinkedList.{Ptr, null, ListHead, Items, init, insert, detach, pop, find}
use disastr_os_queues.LinkedList.Chain.{IsList}
use disastr_os_queues.LinkedList.Detach.{Detached, detach-Detached}
use disastr_os_queues.LinkedList.Insert.{Inserted, insert-Inserted}

-- The items 10, 20 and 30 in a list; every other address holds an unlinked item.
abbrev sample_items : Items
sample_items p =
    if p == 10
    then record { prev = 0; next = 20 }
    else if p == 20
    then record { prev = 10; next = 30 }
    else if p == 30
    then record { prev = 20; next = 0 }
    else record { prev = 0; next = 0 }

abbrev sample_head : ListHead
sample_head = record { first = 10; last = 30; size = pos 3 }

abbrev sample : List Ptr
sample = 10 ∷ 20 ∷ 30 ∷ []

sample-IsList : IsList sample_items sample_head sample
sample-IsList = record {
  first = refl;
  last = refl;
  size = refl;
  linked = (refl, refl, (refl, refl, (refl, refl, tt)));
  non_null = refl;
  distinct = (refl, (refl, (refl, tt)));
}

insert-Inserted_example :
    Inserted sample_items 40 sample (10 ∷ 20 ∷ 40 ∷ 30 ∷ []) (insert sample_head sample_items 20 40)
insert-Inserted_example =
    insert-Inserted (10 ∷ 20 ∷ []) (30 ∷ []) 40 sample-IsList refl refl refl refl

detach-Detached_example :
    Detached sample_items 20 sample (10 ∷ 30 ∷ []) (detach sample_head sample_items 20)
detach-Detached_example = detach-Detached (10 ∷ []) (30 ∷ []) 20 sample-IsList

-- Runs on an empty list: two insertions at the end, and a pop.
two_inserted :
    (let (h, items, _) = insert init (λ _. record { prev = 0; next = 0 }) null 10 in
      let (h, items, _) = insert h items h.last 20 in (pop h items).2)
    ≡ 10
unfolding insert pop
two_inserted = refl

missing_found : find 4 sample_head sample_items 50 ≡ some null
unfolding find
missing_found = refl
