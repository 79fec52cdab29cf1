-- ===== src/Pkg/Event.antt =====
-- pkg/event/event.go: aggregates that keep the events they raised, and what follows for any of them
-- when every change is made by applying an event.
use seelf.Prelude.{◌≡◌, refl, List, [], ◌∷◌, ◌++◌, sym, ap, ◌∙◌, All, All-append}
use mathlib.Core.List.{append-nil, append_assoc}

-- `Emitter.storeEvents`; `pendingEvents` is the list itself.
abbrev pub store_event {ℓ} : {E : Type ℓ} → List E → E → List E
store_event events e = events ++ (e ∷ [])

-- An aggregate: how it applies an event, and where it keeps the pending ones.
pub record Source (S E : Type 0) : Type 0 where
  pub apply : S → E → S
  pub events : S → List E
  pub stores : (s : S) (e : E) → events (apply s e) ≡ store_event (events s) e

-- A sequence of calls.
unfoldable pub run : {S C : Type 0} → (S → C → S) → S → List C → S
run call s [] = s
run call s (c ∷ cs) = run call (call s c) cs

pub run-append :
    {S C : Type 0} (call : S → C → S) (s : S) (cs ds : List C)
    → run call s (cs ++ ds) ≡ run call (run call s cs) ds
unfolding run
run-append call s [] ds = refl
run-append call s (c ∷ cs) ds = run-append call (call s c) cs ds

module _ {S E : Type 0} (src : Source S E) where
  open src use {apply, events, stores}

  -- Apply the events in order.
  unfoldable pub replay : S → List E → S
  replay s [] = s
  replay s (e ∷ es) = replay (apply s e) es

  pub events-replay : (s : S) (es : List E) → events (replay s es) ≡ events s ++ es
  unfolding replay
  events-replay s [] = sym (append-nil (events s))
  events-replay s (e ∷ es) =
      events-replay (apply s e) es
      ∙ (ap (λ l. l ++ es) (stores s e) ∙ append_assoc (events s) (e ∷ []) es)

  replay-append : (s : S) (es more : List E) → replay s (es ++ more) ≡ replay (replay s es) more
  unfolding replay
  replay-append s [] more = refl
  replay-append s (e ∷ es) more = replay-append (apply s e) es more

  -- The aggregate is what its pending events make of the zero value.
  abbrev pub IsRebuilt : S → S → Type 0
  IsRebuilt zero s = replay zero (events s) ≡ s

  pub replay-IsRebuilt :
      (zero s : S) (es : List E) → IsRebuilt zero s → IsRebuilt zero (replay s es)
  replay-IsRebuilt zero s es h =
      ap (replay zero) (events-replay s es)
      ∙ (replay-append zero (events s) es ∙ ap (λ x. replay x es) h)

  -- Calls that keep an invariant, and under it do what their events say, keep the aggregate rebuilt.
  module _ {C : Type 0} (call : S → C → S) (emitted : S → C → List E) (Inv : S → Type 0)
      (keeps : (s : S) (c : C) → Inv s → Inv (call s c))
      (tells : (s : S) (c : C) → Inv s → call s c ≡ replay s (emitted s c)) where
    -- The events of a sequence of calls.
    unfoldable pub trace : S → List C → List E
    trace s [] = []
    trace s (c ∷ cs) = emitted s c ++ trace (call s c) cs

    pub run-replay : (s : S) (cs : List C) → Inv s → run call s cs ≡ replay s (trace s cs)
    unfolding run trace replay
    run-replay s [] v = refl
    run-replay s (c ∷ cs) v =
        run-replay (call s c) cs (keeps s c v)
        ∙ (ap (λ x. replay x (trace (call s c) cs)) (tells s c v)
            ∙ sym (replay-append s (emitted s c) (trace (call s c) cs)))

    pub run-IsRebuilt :
        (zero s : S) (cs : List C) → Inv s → IsRebuilt zero s → IsRebuilt zero (run call s cs)
    run-IsRebuilt zero s cs v h =
        let p = run-replay s cs v in
        ap (λ x. replay zero (events x)) p ∙ (replay-IsRebuilt zero s (trace s cs) h ∙ sym p)

    -- Calls on a fresh aggregate leave exactly their events pending.
    pub events-run :
        (s : S) (cs : List C) → Inv s → events s ≡ [] → events (run call s cs) ≡ trace s cs
    events-run s cs v h =
        ap events (run-replay s cs v) ∙ (events-replay s (trace s cs) ∙ ap (λ l. l ++ trace s cs) h)

    pub trace-All :
        (P : E → Type 0)
        → ((s' : S) (c : C) → Inv s' → All P (emitted s' c))
        → (s : S) (cs : List C) → Inv s
        → All P (trace s cs)
    unfolding trace
    trace-All P own s [] v = tt
    trace-All P own s (c ∷ cs) v =
        All-append P (emitted s c) (trace (call s c) cs) (own s c v)
          (trace-All P own (call s c) cs (keeps s c v))

-- An invariant of every call is an invariant of every sequence of calls.
pub run-Inv :
    {S C : Type 0} (call : S → C → S) (Inv : S → Type 0)
    → ((s : S) (c : C) → Inv s → Inv (call s c))
    → (s : S) (cs : List C) → Inv s
    → Inv (run call s cs)
unfolding run
run-Inv call Inv keeps s [] v = v
run-Inv call Inv keeps s (c ∷ cs) v = run-Inv call Inv keeps (call s c) cs (keeps s c v)
