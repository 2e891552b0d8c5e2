-- ===== src/Printing/Status.antt =====
-- The printing functions of disastrOS_resource.c, and disastrOS_printStatus of disastrOS.c.
use disastr_os_queues.Base.{
  ℕ, zero, suc, ℤ, pos, [], ◌∷◌, ◌++◌, Bool, eq_ℤ, if◌then◌else◌, pos_part,
}
use disastr_os_queues.LinkedList.{Ptr, is_null}
use disastr_os_queues.Printing.{
  Output, text, number, chars, print_items, pcb_print, pcb_list_print, timer_list_print,
  descriptor_ptr_list_print, print_queue_messages, print_queue_readers, print_queue_writers,
  print_queue_nonblock, print_queue_attributes,
}
use disastr_os_queues.Kernel.{
  Queue, Cmd, ListRef, pure, fault, ◌>>=◌, get, get_head, next_item, get_resource, get_queue,
  descriptors_ptrs, timer_list, resources_list, ready_list, waiting_list, zombie_list,
}

-- The loop over the messages, with the rounds that are left and the number of the message.
unfoldable print_messages : ℕ → ℕ → Ptr → Cmd Output
print_messages zero i aux = pure []
print_messages (suc rounds) i aux =
    if is_null aux then pure (text "\tINVALID MESSAGE\n" ∷ []) else do
      s ← get
      next ← next_item aux
      rest ← print_messages rounds (suc i) next
      pure (
          text "\tMessage "
          ∷ number (pos i)
          ∷ text ": "
          ∷ chars (s.message_items aux).message
          ∷ text "\n"
          ∷ rest)

-- The loops over the users, with the rounds that are left.
unfoldable print_users : ℕ → Ptr → Cmd Output
print_users zero aux = pure []
print_users (suc rounds) aux = if is_null aux then (λ _. fault) else do
  s ← get
  next ← next_item aux
  rest ← print_users rounds next
  pure (number (s.queue_users aux).pid ∷ ((if is_null next then [] else text ", " ∷ []) ++ rest))

-- `name` with the users of one list.
unfoldable user_list_print : Output → (Queue → Ptr) → (Queue → ℤ) → Ptr → Cmd Output
unfolding print_users
user_list_print name first size q = do
  c ← get_queue q
  users ← print_users (pos_part (size c)) (first c)
  pure (name ++ (users ++ text "]\n" ∷ []))

abbrev when : Bool → Cmd Output → Cmd Output
when b o = if b then o else pure []

unfoldable queue_print : Ptr → Cmd Output
unfolding print_messages user_list_print
queue_print q = do
  kept ← when print_queue_messages (do
    c ← get_queue q
    rest ← print_messages (pos_part c.messages.size) 0 c.messages.first
    pure (text "\tTotal messages: " ∷ number c.messages.size ∷ text "\n" ∷ rest))
  r ←
      when print_queue_readers (
        user_list_print (text "\t\tReaders: [" ∷ []) (λ c. c.readers.first) (λ c. c.readers.size) q)
  w ←
      when print_queue_writers (
        user_list_print (text "\t\tWriters: [" ∷ []) (λ c. c.writers.first) (λ c. c.writers.size) q)
  n ← when print_queue_nonblock (
      user_list_print (text "\t\tNon-Block: [" ∷ []) (λ c. c.non_block.first)
        (λ c. c.non_block.size) q)
  a ← when print_queue_attributes (do
    c ← get_queue q
    pure (
        text "\t\tAttributes: Max messages: "
        ∷ number c.max_messages
        ∷ text ", Message size: "
        ∷ number c.msg_size
        ∷ text ",Openings: "
        ∷ number c.openings
        ∷ text ", Messages count: "
        ∷ number c.messages.size
        ∷ []))
  pure (text "\n" ∷ (kept ++ (r ++ (w ++ (n ++ a)))))

unfoldable resource_print : ℕ → Ptr → Cmd Output
unfolding queue_print
resource_print rounds r = do
  c ← get_resource r
  rest ←
      (if eq_ℤ c.type (pos 2)
        then queue_print c.value
        else descriptor_ptr_list_print rounds (descriptors_ptrs r))
  pure (text "id: " ∷ number c.id ∷ text ", type:" ∷ number c.type ∷ text ", pids:" ∷ rest)

unfoldable resource_list_print : ℕ → ListRef → Cmd Output
unfolding resource_print
resource_list_print rounds l = do
  h ← get_head l
  items ←
      print_items rounds (λ r. do o ← resource_print rounds r; pure (text "\t" ∷ o)) (text "," ∷ [])
        (text "\n" ∷ []) h.first
  pure (text "{\n" ∷ (items ++ text "}\n" ∷ []))

unfoldable disastr_os_print_status : ℕ → Cmd Output
unfolding resource_list_print
disastr_os_print_status rounds = do
  s ← get
  runs ← (if is_null s.running then pure [] else pcb_print rounds s.running)
  timers ← timer_list_print rounds timer_list
  resources ← resource_list_print rounds resources_list
  ready ← pcb_list_print rounds ready_list
  waiting ← pcb_list_print rounds waiting_list
  zombies ← pcb_list_print rounds zombie_list
  pure (
      text "****************** DisastrOS ******************\n"
      ∷ text "Running: "
      ∷ (runs
          ++ text "\n"
            ∷ text "Timers: "
            ∷ (timers
                ++ text "\nResources: "
                  ∷ (resources
                      ++ text "\nReady: "
                        ∷ (ready
                            ++ text "\nWaiting: "
                              ∷ (waiting
                                  ++ text "\nZombie: "
                                    ∷ (zombies
                                        ++ text
                                            "\n***********************************************\n\n"
                                          ∷ [])))))))
