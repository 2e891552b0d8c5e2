-- ===== src/Trap/Numbers.antt =====
-- The numbers of system calls that reach no handler.
use disastr_os_queues.Base.{
  ℕ, ℤ, pos, ◌<◌, ◌≤◌, ◌≡◌, ◌⊎◌, true, false, ltb_ℤ, ltb, refl, update, ap, ◌||◌, ◌==◌, List, arith,
  none,
}
use disastr_os_queues.LinkedList.{is_null}
use disastr_os_queues.Trap.{
  syscall_vector, syscall_numarg, store_args, disastr_os_trap, disastr_os_syscall,
}
use disastr_os_queues.Kernel.{
  System, Pcb, Arg, Ends, retvalue, ok, fault, max_syscalls, esyscall_not_implemented,
  esyscall_out_of_range,
}

-- A system call with a negative number, or one above 32, is answered with the error, and the state
-- does not change.
pub syscall_out_of_range :
    (rounds : ℕ) (num : ℤ) (args : List Arg) (s : System)
    → is_null s.running ≡ false
    → (ltb_ℤ num (pos 0) ≡ true) ⊎ (ltb_ℤ (pos max_syscalls) num ≡ true)
    → disastr_os_syscall rounds num args s ≡ ok esyscall_out_of_range s
unfolding disastr_os_syscall
syscall_out_of_range rounds num args s some bad =
    let test : (ltb_ℤ num (pos 0) || ltb_ℤ (pos max_syscalls) num) ≡ true = ground arith in
    rw (some, test)

-- The number 32 passes the test of a system call and is looked up behind the end of the vectors: a
-- fault, whatever the arguments are.
pub syscall_behind_vector :
    (rounds : ℕ) (args : List Arg) (s : System)
    → is_null s.running ≡ false
    → disastr_os_syscall rounds (pos max_syscalls) args s ≡ fault
unfolding disastr_os_syscall
syscall_behind_vector rounds args s some = rw some

update-same : {A : Type 0} (f : ℕ → A) (p : ℕ) (v : A) → update f p v p ≡ v
update-same f p v = ground arith

no_handler : (rounds n : ℕ) → (n ≡ 0) ⊎ (15 ≤ n) → syscall_vector rounds n ≡ none
unfolding syscall_vector
no_handler rounds n h = ground arith

trap-no_handler :
    (rounds n : ℕ) (s : System)
    → is_null s.running ≡ false
    → (s.pcbs s.running).syscall_num ≡ pos n
    → n < 32
    → (n ≡ 0) ⊎ (15 ≤ n)
    → disastr_os_trap rounds s ≡ retvalue esyscall_not_implemented s
unfolding disastr_os_trap
trap-no_handler rounds n s some num lt h =
    let test : (ltb_ℤ (pos n) (pos 0) || ltb_ℤ (pos max_syscalls) (pos n)) ≡ false = ground arith in
    let low : ltb n 32 ≡ true = ground arith in
    rw (some, num, test, low, no_handler rounds n h, some, num)

-- 0 and the numbers from 15 to 31 have no handler: the caller gets the error and stays the running
-- process.
pub syscall_not_implemented :
    (rounds n : ℕ) (args : List Arg) (s : System)
    → is_null s.running ≡ false
    → n < 32
    → (n ≡ 0) ⊎ (15 ≤ n)
    → Ends
        (λ r t. (r ≡ esyscall_not_implemented) × (t.running ≡ s.running))
        (disastr_os_syscall rounds (pos n) args s)
unfolding disastr_os_syscall
syscall_not_implemented rounds n args s some lt h =
    let test : (ltb_ℤ (pos n) (pos 0) || ltb_ℤ (pos max_syscalls) (pos n)) ≡ false = ground arith in
    let low : ltb n 32 ≡ true = ground arith in
    let call : Pcb = record (s.pcbs s.running) {
      syscall_args = store_args (syscall_numarg n) 0 args (s.pcbs s.running).syscall_args;
      syscall_num = pos n;
    } in
    let s1 : System = record s { pcbs = update s.pcbs s.running call } in
    let me : s1.pcbs s.running ≡ call = update-same s.pcbs s.running call in
    let trap = trap-no_handler rounds n s1 some (ap (λ c. c.syscall_num) me) lt h in
    let same : (s.running == s.running) ≡ true = ground arith in
    rw (some, test, low, some, trap, some, same, some, same) (refl, refl)
