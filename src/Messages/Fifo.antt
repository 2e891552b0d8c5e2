-- ===== src/Messages/Fifo.antt =====
-- internal_sendMessage on a queue with room, and internal_recvMessage on a queue with a message.
use disastr_os_queues.Base.{
  ℕ, ℤ, ◌+◌, ◌≤◌, ◌<◌, ◌⊎◌, ==_iff, Bool-cases, inl, inr, ◌∙◌, pos, ◌≡◌, refl, true, false, List,
  [], ◌∷◌, ◌++◌, arith, ltb_ℤ, has, ap, ◌==◌, update, pos_part,
}
use disastr_os_queues.LinkedList
use disastr_os_queues.LinkedList.{Ptr, null, is_null}
use disastr_os_queues.LinkedList.Chain.{IsList, SameOutside}
use disastr_os_queues.PoolAllocator.{PoolAllocator}
use disastr_os_queues.PoolAllocator.Free.{IsPool, IsPlaced, block, handed}
use disastr_os_queues.PoolAllocator.Taken.{block-apart}
use disastr_os_queues.PoolAllocator.Outside.{IsOutside, below, behind}
use disastr_os_queues.Resource.QueueObject.Leak.{message_free_leaks}
use disastr_os_queues.Messages.{
  internal_recv_message, deliver, copy, enqueue, internal_send_message,
}
use disastr_os_queues.Messages.Copy.{copy_text_ok, copy-outside}
use disastr_os_queues.Files.Open.{IsOpen, queue_by_fd_ok, queue_entries_ok}
use disastr_os_queues.Schedule.Rotate.{IsUnlinked}
use disastr_os_queues.Resource.QueueObject.{message_offset, msg_string_alloc, message_alloc}
use disastr_os_queues.Kernel.{
  System, Message, messages, msg_strings_pool, message_pool, pointer, int, Ends,
}
use disastr_os_queues.Kernel.Lists.{after, list_append_ok, list_pop_ok}
use disastr_os_queues.Kernel.Blocks.{get_block_ok}

-- The queue after the message `m` with the string `str` was put behind the messages `xs`.
pub record Enqueued (s : System) (q m str msg : Ptr) (xs : List Ptr) (t : System) : Type 0 where
  pub list : IsList t.items (t.queues q).messages (xs ++ m ∷ [])
  pub text : t.bytes ≡ copy (pos_part (s.queues q).msg_size) str msg s.bytes
  pub elsewhere :
      (a : Ptr) → (a < str) ⊎ (str + pos_part (s.queues q).msg_size ≤ a) → t.bytes a ≡ s.bytes a
  pub texts :
      (n o : ℕ)
      → (block s.pools.msg_strings n == str) ≡ false
      → o < s.pools.msg_strings.item_size
      → t.bytes (block s.pools.msg_strings n + o) ≡ s.bytes (block s.pools.msg_strings n + o)
  pub message : t.message_items m ≡ record { message = str; len = (s.queues q).msg_size }
  pub others : (a : Ptr) → (m == a) ≡ false → t.message_items a ≡ s.message_items a
  pub result : (t.pcbs s.running).syscall_retvalue ≡ pos 0
  pub running : t.running ≡ s.running
  pub capacity : (t.queues q).max_messages ≡ (s.queues q).max_messages
  pub same : SameOutside (m ∷ xs) s.items t.items
  pub opened : (p : Ptr) → (t.pcbs p).descriptors ≡ (s.pcbs p).descriptors
  pub descriptors : t.descriptor_items ≡ s.descriptor_items
  pub resources : t.resources ≡ s.resources
  pub strings : IsPlaced s.pools.msg_strings → IsPlaced t.pools.msg_strings
  pub outside : (p : Ptr) → IsOutside s.pools.msg_strings p → IsOutside t.pools.msg_strings p

handed-IsOutside : (a : PoolAllocator) (i : ℕ) (p : Ptr) → IsOutside a p → IsOutside (handed a i) p
handed-IsOutside a i p (below t l e) = below t l e
handed-IsOutside a i p (behind t l e le) = behind t l e le

module _ (s : System) (q msg : Ptr) (xs : List Ptr) (i j : ℕ) (strings free : List ℕ)
    (some : is_null s.running ≡ false) (q_some : is_null q ≡ false)
    (buffer : (s.pcbs s.running).syscall_args 0 ≡ pointer msg)
    (l : IsList s.items (s.queues q).messages xs)
    (string_pool : IsPool s.pools.msg_strings (i ∷ strings))
    (string_placed : IsPlaced s.pools.msg_strings) (pool : IsPool s.pools.message (j ∷ free))
    (placed : IsPlaced s.pools.message) (alone : IsUnlinked s (block s.pools.message j))
    (fresh : has (block s.pools.message j) xs ≡ false) (msg_some : is_null msg ≡ false)
    (fits : pos_part (s.queues q).msg_size ≤ s.pools.msg_strings.item_size) where
  abbrev m : Ptr
  m = block s.pools.message j

  abbrev str : Ptr
  str = block s.pools.msg_strings i

  m_some : is_null m ≡ false
  m_some = let h = placed.buffer_pos in ground arith

  str_some : is_null str ≡ false
  str_some = let h = string_placed.buffer_pos in ground arith

  other_texts :
      (n o : ℕ)
      → (block s.pools.msg_strings n == str) ≡ false
      → o < s.pools.msg_strings.item_size
      → copy (pos_part (s.queues q).msg_size) str msg s.bytes (block s.pools.msg_strings n + o)
        ≡ s.bytes (block s.pools.msg_strings n + o)
  other_texts n o differ inside =
      let apart : (i == n) ≡ false = elim (Bool-cases (i == n)) [
        | inl same ↦
            let equal = ap (block s.pools.msg_strings) ((==_iff i n).0 same) in
            let no = ap (λ b. b == str) equal ∙ differ in let yes' = (==_iff str str).1 refl in cc
        | inr ne ↦ ne
      ] in
      let out = block-apart s.pools.msg_strings i n o apart inside in
      copy-outside (pos_part (s.queues q).msg_size) str msg s.bytes
        (block s.pools.msg_strings n + o) (ground arith)

  enqueue-Enqueued : Ends (λ _ t. Enqueued s q m str msg xs t) (enqueue q s)
  unfolding enqueue msg_string_alloc message_alloc
  enqueue-Enqueued =
      let s1 : System = record s {
        pools = record s.pools { msg_strings = handed s.pools.msg_strings i };
      } in
      let s2 : System = record s1 {
        pools = record s1.pools { message = handed s.pools.message j };
      } in
      let strings_ok = get_block_ok msg_strings_pool s i string_pool.chain.0 string_pool.chain.1 in
      let message_ok = get_block_ok message_pool s1 j pool.chain.0 pool.chain.1 in
      let kept : Message = record { message = str; len = (s.queues q).msg_size } in
      let stored = update s.message_items m kept in
      let here : stored m ≡ kept = ground arith in
      let s2' : System = record s2 { message_items = stored } in
      let s3 : System = record s2' {
        bytes = copy (pos_part (s.queues q).msg_size) str msg s.bytes;
      } in
      let copied = copy_text_ok (pos_part (s.queues q).msg_size) str msg s2' str_some msg_some in
      let (e, r) = list_append_ok (messages q) s3 q_some xs m l m_some alone.1 alone.0 fresh in
      let self : (q == q) ≡ true = ground arith in
      rw
        (
          q_some, some, buffer, strings_ok, message_ok, m_some, m_some, m_some, str_some, m_some,
          here, copied,
        )
        (rw (e, some)
          (record {
            list = rw self r.list;
            elsewhere =
                λ a out. copy-outside (pos_part (s.queues q).msg_size) str msg s.bytes a out;
            texts = other_texts;
            text = refl;
            message = here;
            others = λ a ne. rw ne;
            result = ground arith;
            running = refl;
            capacity = rw self refl;
            same = r.same;
            opened = λ p. ground arith;
            descriptors = refl;
            resources = refl;
            strings = λ k. record {
              item_pos = k.item_pos;
              buffer_pos = k.buffer_pos;
              small = k.small;
              space = k.space;
            };
            outside = λ p. handed-IsOutside s.pools.msg_strings i p;
          }))

  -- With room in the open queue, a text that is not null, a message size of at most a string block,
  -- and a free block each for a string and a message, the latter linked to nothing,
  -- `internal_sendMessage` puts a new message with a copy of the text at the end of the queue,
  -- behind the messages before it, in their order, and the answer is 0. The structures and the
  -- string blocks of other messages, and every byte outside of the message size at the new string
  -- stay as they are, and the same process runs.
  pub internal_send_message-Enqueued :
      (rounds : ℕ) (fd : ℤ) (ds : Ptr)
      → IsOpen s rounds fd ds q
      → (s.pcbs s.running).syscall_args 1 ≡ int fd
      → ltb_ℤ (s.queues q).messages.size (s.queues q).max_messages ≡ true
      → Ends (λ _ t. Enqueued s q m str msg xs t) (internal_send_message rounds s)
  unfolding internal_send_message
  internal_send_message-Enqueued rounds fd ds o number room =
      rw
        (
          some,
          number,
          queue_by_fd_ok s rounds fd ds q o,
          queue_entries_ok s rounds fd ds q o,
          q_some,
          room,
        )
        enqueue-Enqueued

-- The queue after its first message `x` was taken, with its text copied to `msg`.
pub record Received (s : System) (q x msg : Ptr) (xs : List Ptr) (t : System) : Type 0 where
  pub list : IsList t.items (t.queues q).messages xs
  pub text :
      t.bytes ≡ copy (pos_part (s.message_items x).len) msg (s.message_items x).message s.bytes
  pub result : (t.pcbs s.running).syscall_retvalue ≡ pos 0
  pub running : t.running ≡ s.running

-- With a message in the open queue and a buffer, `internal_recvMessage` takes the first message,
-- copies its text to the buffer, and answers 0; the messages behind it stay, in their order. The
-- message has a string that is not null, and lies itself outside the string buffer.
pub internal_recv_message-Received :
    (s : System) (rounds : ℕ) (fd : ℤ) (ds q x msg : Ptr) (xs : List Ptr)
    → IsOpen s rounds fd ds q
    → is_null q ≡ false
    → is_null msg ≡ false
    → (s.pcbs s.running).syscall_args 0 ≡ pointer msg
    → (s.pcbs s.running).syscall_args 1 ≡ int fd
    → IsList s.items (s.queues q).messages (x ∷ xs)
    → is_null (s.message_items x).message ≡ false
    → IsPlaced s.pools.msg_strings
    → IsOutside s.pools.msg_strings (x + message_offset)
    → Ends (λ _ t. Received s q x msg xs t) (internal_recv_message rounds s)
unfolding internal_recv_message deliver
internal_recv_message-Received s rounds fd ds q x msg xs o q_some msg_some buffer number l text_some
      placed out =
    let some = o.running_some in
    let x_some : is_null x ≡ false = let h = l.non_null in ground arith in
    let (e, d) = list_pop_ok (messages q) s q_some x xs l x_some in
    let self : (q == q) ≡ true = ground arith in
    let s1 = after (messages q) (LinkedList.pop (s.queues q).messages s.items) s in
    let copied =
      copy_text_ok (pos_part (s.message_items x).len) msg (s.message_items x).message s1 msg_some
        text_some in
    let s2 : System = record s1 {
      bytes = copy (pos_part (s.message_items x).len) msg (s.message_items x).message s.bytes;
    } in
    rw
      (
        some,
        number,
        queue_by_fd_ok s rounds fd ds q o,
        queue_entries_ok s rounds fd ds q o,
        some,
        buffer,
        msg_some,
      )
      (rw (e, x_some, x_some, copied, message_free_leaks s2 x placed out, some)
        (record { list = rw self d.list; text = refl; result = ground arith; running = refl }))
