-- ===== src/Process/Exit/Kept.antt =====
-- Changes of process control blocks that internal_exit makes while it hands its children over.
use mathlib.Core.Path.{subst}
use disastr_os_queues.Base.{
  ℕ, ◌≡◌, refl, ap, sym, ◌∙◌, ◌==◌, ==_iff, update, update_self, Bool-cases, inl, inr,
}
use disastr_os_queues.LinkedList.{Ptr, ListHead}
use disastr_os_queues.Kernel.{Pcb}

-- No process changes but in its children and its signals.
abbrev pub Kept : (Ptr → Pcb) → (Ptr → Pcb) → Type 0
Kept f g = (q : Ptr) → g q ≡ record (f q) { children = (g q).children; signals = (g q).signals }

pub Kept-trans : (f g h : Ptr → Pcb) → Kept f g → Kept g h → Kept f h
Kept-trans f g h k l q =
    let with : Pcb → Pcb = λ c. record c { children = (h q).children; signals = (h q).signals } in
    l q ∙ ap with (k q)

pub Kept-update :
    (f : Ptr → Pcb) (p : Ptr) (c : Pcb)
    → c ≡ record (f p) { children = c.children; signals = c.signals }
    → Kept f (update f p c)
Kept-update f p c e q = elim (Bool-cases (p == q)) [
  | inl same ↦
      subst
        (λ r. update f p c r ≡ record (f r) {
          children = (update f p c r).children;
          signals = (update f p c r).signals;
        })
        ((==_iff p q).0 same)
        (subst (λ d. d ≡ record (f p) { children = d.children; signals = d.signals })
          (sym (update_self f p c)) e)
  | inr ne ↦ rw ne refl
]

abbrev pub signals_of : Pcb → ℕ × ℕ
signals_of c = (c.signals, c.signals_mask)

-- A field that a write leaves as it was is the same in every process.
pub field-same {ℓ} :
    {A : Type ℓ} (field : Pcb → A) (f : Ptr → Pcb) (p : Ptr) (c : Pcb) (q : Ptr)
    → field c ≡ field (f p)
    → field (update f p c q) ≡ field (f q)
field-same field f p c q e = elim (Bool-cases (p == q)) [
  | inl here ↦
      subst (λ r. field (update f p c r) ≡ field (f r)) ((==_iff p q).0 here)
        (ap field (update_self f p c) ∙ e)
  | inr ne ↦ rw ne refl
]

pub head-same :
    (f : Ptr → Pcb) (p : Ptr) (h : ListHead) (q : Ptr)
    → signals_of (update f p (record (f p) { children = h }) q) ≡ signals_of (f q)
head-same f p h q = field-same signals_of f p (record (f p) { children = h }) q refl
