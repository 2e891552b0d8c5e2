-- ===== src/PoolAllocator/Tests.antt =====
-- A pool of three blocks of eight bytes, at address 1000.
use disastr_os_queues.Base.{
  ◌≡◌, ◌≢◌, refl, [], ◌∷◌, ◌+◌, ◌*◌, arith, pos, some, ◌==◌, if◌then◌else◌, map,
}
use disastr_os_queues.LinkedList.{null}
use disastr_os_queues.PoolAllocator.{
  PoolAllocator, success, double_free, unaligned_free, null_idx, detached_idx, init, get_block,
  release_block, strerror,
}
use disastr_os_queues.PoolAllocator.Free.{IsPool, IsPlaced, from, handed}
use disastr_os_queues.PoolAllocator.Release.{Released, release_block-Released}
use disastr_os_queues.PoolAllocator.Outside.{Refused, below, release_block_outside}
use disastr_os_queues.PoolAllocator.Stock.{get_blocks, init-get_blocks}

-- Block 0 was handed out; 1 and 2 are free.
abbrev sample : PoolAllocator
sample = record {
  buffer = 1000;
  free_list = λ i. if i == 0 then detached_idx else if i == 1 then pos 2 else null_idx;
  buffer_size = 24;
  size = pos 2;
  size_max = 3;
  item_size = 8;
  first_idx = pos 1;
}

sample-IsPool : IsPool sample (1 ∷ 2 ∷ [])
sample-IsPool = record {
  chain = (refl, omega arith, (refl, omega arith, refl));
  distinct = (refl, (refl, tt));
  size = refl;
  detached = λ i lt out. ground arith;
}

sample-IsPlaced : IsPlaced sample
sample-IsPlaced = record {
  item_pos = omega arith;
  buffer_pos = omega arith;
  small = omega arith;
  space = omega arith;
}

release_block-Released_example : Released sample (1 ∷ 2 ∷ []) 0
release_block-Released_example =
    release_block-Released sample (1 ∷ 2 ∷ []) sample-IsPlaced sample-IsPool 0 (omega arith)

release_block_outside_example : Refused sample 992
release_block_outside_example =
    release_block_outside sample sample-IsPlaced 992 (below 7 (omega arith) refl)

get_block-sample : get_block sample ≡ some (handed sample 1, 1008)
unfolding get_block
get_block-sample = refl

some_block : 1008 ≢ null
some_block e = ground arith

init-get_blocks_example :
    (full empty : PoolAllocator) × (init sample 8 3 2000 (λ _. pos 0) 36 ≡ some (full, success))
    × (get_blocks 3 full ≡ some (empty, map (λ i. 2000 + i * 8) (from 3 0)))
    × (get_block empty ≡ some (empty, null))
init-get_blocks_example =
    init-get_blocks sample 8 3 2000 (λ _. pos 0) 36 (omega arith) (omega arith) (omega arith)

double_free_refused : release_block sample 1008 ≡ some (sample, double_free)
unfolding release_block
double_free_refused = refl

unaligned_refused : release_block sample 1009 ≡ some (sample, unaligned_free)
unfolding release_block
unaligned_refused = refl

strerror-unaligned : strerror unaligned_free ≡ some "UnalignedFree"
unfolding strerror
strerror-unaligned = refl
