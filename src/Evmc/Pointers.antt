-- ===== src/Evmc/Pointers.antt =====
-- src/evmc.rs: `HostContextPtr` and `HostContextWrapper`, over a heap of boxes that hold contexts of
-- one type. A raw pointer is an address.
pub mod Cells
use play_evmone.Base.{ℕ, ◌+◌, Option, none, some, List, ◌∷◌, ◌==◌, if◌then◌else◌}
use play_evmone.Base.Outcome.{Outcome, returns, panic, dangling, unwrap, ◌>>=◌}
use play_evmone.Evmc.Interface.{Action}

abbrev pub Ptr : Type 0
Ptr = ℕ

-- The boxes that are allocated; from `next` on there are none. `leaked` has the contents whose box
-- was given back while their destructor did not run.
pub record Heap (S : Type 0) : Type 0 where
  pub next : Ptr
  pub cell : Ptr → Option S
  pub leaked : List S

-- `HostContextWrapper`: the box that it has taken, if it has one.
pub record HostContextWrapper : Type 0 where
  pub inner : Option Ptr

-- `HostContextWrapper::from`: nothing is read through the pointer.
abbrev pub wrapper_from : Ptr → HostContextWrapper
wrapper_from p = record { inner = some p }

module _ {S : Type 0} where
  unfoldable pub write : Ptr → Option S → Heap S → Heap S
  write p c h = record h { cell = λ q. if p == q then c else h.cell q }

  abbrev checked : {A : Type 0} → Option S → (S → Outcome A) → Outcome A
  checked none next = panic dangling
  checked (some s) next = next s

  -- `HostContextPtr::from(Box::new(s))`: the box becomes a raw pointer.
  unfoldable pub host_context_ptr_from : S → Action (Heap S) Ptr
  unfolding write
  host_context_ptr_from s h =
      returns (h.next, write h.next (some s) (record h { next = h.next + 1 }))

  -- `HostContextPtr::drop`: the type behind the pointer is opaque, so that `drop_in_place` does
  -- nothing; `dealloc` gives the memory back.
  unfoldable pub drop_host_context_ptr : Ptr → Action (Heap S) (Unit {0})
  unfolding write
  drop_host_context_ptr p h =
      checked (h.cell p) λ s. returns (tt, write p none (record h { leaked = s ∷ h.leaked }))

  -- `deref`, and a write through `deref_mut`
  unfoldable pub deref : HostContextWrapper → Heap S → Outcome S
  deref w h = unwrap w.inner >>= λ p. checked (h.cell p) λ s. returns s

  unfoldable pub deref_mut : HostContextWrapper → S → Heap S → Outcome (Heap S)
  unfolding write
  deref_mut w s h = unwrap w.inner >>= λ p. checked (h.cell p) λ old. returns (write p (some s) h)

  -- `HostContextWrapper::drop`: the box is taken and forgotten, not given back.
  abbrev pub drop_wrapper : HostContextWrapper → Heap S → Outcome (Heap S)
  drop_wrapper w h = unwrap w.inner >>= λ p. returns h

  -- `HostContextWrapper::<T>::from(context).method(..)`, as every callback does it.
  unfoldable pub through : {A : Type 0} → Ptr → Action S A → Action (Heap S) A
  unfolding deref deref_mut
  through p method h = do
    let w = wrapper_from p
    s ← deref w h
    r ← method s
    h' ← deref_mut w r.1 h
    h'' ← drop_wrapper w h'
    returns (r.0, h'')
