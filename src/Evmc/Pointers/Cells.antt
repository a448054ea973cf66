-- ===== src/Evmc/Pointers/Cells.antt =====
-- What the boxes of a heap hold while one of them is at work.
use play_evmone.Base.{
  ◌+◌, ◌≤◌, ◌<◌, ◌≡◌, refl, sym, ◌∙◌, ap, Bool, true, false, none, some, ◌∷◌, length, ◌∷◌, arith,
  inl, inr, if◌then◌else◌, ◌==◌, leb, eq→==, Bool-cases, ==_iff,
}
use play_evmone.Base.Outcome.{Outcome, returns, panic, out_of_fuel, ◌>>=◌}
use play_evmone.Evmc.Interface.{Action}
use play_evmone.Evmc.Pointers.{
  Ptr, Heap, write, wrapper_from, deref, deref_mut, drop_wrapper, through, drop_host_context_ptr,
}
use play_evmone.Evmc.Simulates.{Rel, Simulates}

==_refl : (p : Ptr) → (p == p) ≡ true
==_refl p = eq→== p p refl

==_below : (p q : Ptr) → p < q → (p == q) ≡ false
==_below p q lt = ground arith

==_above : (p q : Ptr) → q < p → (p == q) ≡ false
==_above p q lt = ground arith

if_if :
    {A : Type 0} (b : Bool) (x y z : A)
    → (if b then x else if b then y else z) ≡ (if b then x else z)
if_if true x y z = refl
if_if false x y z = refl

module _ {S : Type 0} where
  -- There is no box from `next` on.
  abbrev pub WellFormed : Heap S → Type 0
  WellFormed h = (q : Ptr) → h.next ≤ q → h.cell q ≡ none

  -- At p h0 s h: the heap has what `h0` has, but for the box at `p`, which holds `s`.
  pub record At (p : Ptr) (h0 : Heap S) (s : S) (h : Heap S) : Type 0 where
    pub grows : h0.next ≤ h.next
    pub leaks : length h0.leaked ≤ length h.leaked
    pub cells : (q : Ptr) → h.cell q ≡ (if p == q then some s else h0.cell q)

  -- The same, and that contents have been lost since `h0`.
  abbrev pub Settled : Ptr → Heap S → S → Heap S → Type 0
  Settled p h0 s h = At p h0 s h × (length h0.leaked < length h.leaked)

  module _ (p : Ptr) (h : Heap S) {s : S} (e : h.cell p ≡ some s) where
    pub deref_lem : deref (wrapper_from p) h ≡ returns s
    unfolding deref
    deref_lem = rw e refl

    pub deref_mut_lem : (t : S) → deref_mut (wrapper_from p) t h ≡ returns (write p (some t) h)
    unfolding deref_mut
    deref_mut_lem t = rw e refl

    pub drop_host_context_ptr_lem :
        drop_host_context_ptr p h ≡ returns (tt, write p none (record h { leaked = s ∷ h.leaked }))
    unfolding drop_host_context_ptr
    drop_host_context_ptr_lem = rw e refl

  module _ (p : Ptr) (h0 : Heap S) where
    module _ {s : S} {h : Heap S} (at : At p h0 s h) where
      pub cell_of : h.cell p ≡ some s
      cell_of = at.cells p ∙ rw (==_refl p) refl

      pub At-write : (t : S) → At p h0 t (write p (some t) h)
      unfolding write
      At-write t = record {
        grows = at.grows;
        leaks = at.leaks;
        cells = λ q.
            elim (p == q)
                as (λ b.
                  (h.cell q ≡ (if b then some s else h0.cell q))
                  → (if b then some t else h.cell q) ≡ (if b then some t else h0.cell q)) [
                    | true ↦ λ e. refl
                    | false ↦ λ e. e
                  ]
              (at.cells q);
      }

    -- A method of the context, made to work behind the pointer to it, is still that method.
    pub through-Simulates :
        {A : Type 0} (method : Action S A) → Simulates (At p h0) (through p method) method
    unfolding through
    through-Simulates method h s at = rw (deref_lem p h (cell_of at)) (finish (method s))
      where
        finish :
            {A : Type 0} (o : Outcome (A × S))
            → Rel
                (At p h0)
                (o >>= λ r. deref_mut (wrapper_from p) r.1 h >>= λ h'.
                  drop_wrapper (wrapper_from p) h' >>= λ h''. returns (r.0, h''))
                o
        finish (returns r) = rw (deref_mut_lem p h (cell_of at) r.1) (refl, At-write at r.1)
        finish (panic x) = refl
        finish out_of_fuel = tt

  -- A heap from which one more box is taken.
  abbrev pub taken : Heap S → Heap S
  taken h = record h { next = h.next + 1 }

  pub WellFormed-taken : (h : Heap S) → WellFormed h → WellFormed (taken h)
  WellFormed-taken h wf q le = wf q (omega arith)

  pub At-start :
      {p : Ptr} {s : S} (h : Heap S) → WellFormed h → h.cell p ≡ some s → (p < h.next) × At p h s h
  At-start {p} {s} h wf e = (
    elim (Bool-cases (leb h.next p)) [ inl x ↦ cc (wf p (ground arith), e) | inr x ↦ ground arith ],
    record {
      grows = omega arith;
      leaks = omega arith;
      cells = λ q. elim (Bool-cases (p == q)) [
        | inl x ↦ rw x (ap h.cell (sym ((==_iff p q).0 x)) ∙ e)
        | inr x ↦ rw x refl
      ];
    },
  )

  pub At-box : (t : S) (h : Heap S) → At h.next (taken h) t (write h.next (some t) (taken h))
  unfolding write
  At-box t h = record { grows = omega arith; leaks = omega arith; cells = λ q. refl }

  module _ {p : Ptr} {h0 : Heap S} (wf : WellFormed h0) (lt : p < h0.next) {s : S} {h : Heap S}
      (at : At p h0 s h) where
    pub At-WellFormed : WellFormed h
    At-WellFormed q le =
        at.cells q ∙ rw (==_below p q (omega (arith, at.grows))) (wf q (omega (arith, at.grows)))

    module _ {t : S} {h' : Heap S} (at' : At h.next (taken h) t h') where
      -- The box at work, and the box taken after it.
      pub cell_before : h'.cell p ≡ some s
      cell_before = at'.cells p ∙ rw (==_above h.next p (omega (arith, at.grows))) (cell_of p h0 at)

      pub cell_after : (s' : S) → (write p (some s') h').cell h.next ≡ some t
      unfolding write
      cell_after s' =
          rw (==_below p h.next (omega (arith, at.grows))) (cell_of h.next (taken h) at')

    -- The box at work, `s'` in it, when the box taken after it has been given back.
    pub At-free :
        {t : S} {h' : Heap S} (s' : S)
        → At h.next (taken h) t h'
        → Settled p h0 s'
            (write h.next none (record (write p (some s') h') { leaked = t ∷ h'.leaked }))
    unfolding write
    At-free {t} {h'} s' at' = (
      record {
        grows = omega (arith, at.grows, at'.grows);
        leaks = omega (arith, at.leaks, at'.leaks);
        cells = λ q. elim (Bool-cases (h.next == q)) [
          | inl x ↦
              rw (x, ==_below p q (ground (arith, at.grows)))
                (sym (wf q (ground (arith, at.grows))))
          | inr x ↦ rw (x, at'.cells q, x, at.cells q) (if_if (p == q) _ _ _)
        ];
      },
      omega (arith, at.leaks, at'.leaks),
    )

  -- The boxes are those of `h0`.
  abbrev pub Released : Heap S → Heap S → Type 0
  Released h0 h = (q : Ptr) → h.cell q ≡ h0.cell q

  pub At-Released :
      {h0 : Heap S} {t : S} {h : Heap S}
      → WellFormed h0
      → At h0.next (taken h0) t h
      → Released h0 (write h0.next none (record h { leaked = t ∷ h.leaked }))
  unfolding write
  At-Released {h0} wf at q = elim (Bool-cases (h0.next == q)) [
    | inl x ↦ rw x (sym (wf q (ground arith)))
    | inr x ↦ rw (x, at.cells q, x) refl
  ]
