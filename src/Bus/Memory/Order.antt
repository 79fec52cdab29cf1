-- ===== src/Bus/Memory/Order.antt =====
-- Which handlers the bus calls, and in which order, from the registrations alone.
use seelf.Prelude.{
  String, ◌≡◌, Bool, true, Option, none, some, List, [], ◌∷◌, ◌++◌, if◌then◌else◌, ◌==◌, string_eq,
  lookup, Error,
}
use seelf.Bus.Memory.{
  NextFunc, MiddlewareFunc, Registered, request, signals, Handlers, apply_middlewares, call_all,
}

module _ (S Msg Value : Type 0) (name : Msg → String) (is_signal : String → Bool)
    (middlewares : List (MiddlewareFunc S Msg Value name is_signal)) where
  abbrev Next : Type 0
  Next = NextFunc S Msg Value name is_signal

  abbrev Reg : Type 0
  Reg = Registered S Msg Value name is_signal

  abbrev wrapped : Next → Next
  wrapped = apply_middlewares S Msg Value name is_signal middlewares

  -- The handlers of a name, each within the middlewares, in the order of their registration.
  pub handlers_for : String → List (String × Next) → List Next
  handlers_for key [] = []
  handlers_for key ((k, h) ∷ rest) =
      let later = handlers_for key rest in if k == key then wrapped h ∷ later else later

  abbrev signals_of : Option Reg → List Next
  signals_of none = []
  signals_of (some (signals hs)) = hs
  signals_of (some (request h)) = []

  -- A signal's entry is never a request's.
  abbrev IsSignals : Option Reg → Type 0
  IsSignals none = Unit
  IsSignals (some (signals hs)) = Unit
  IsSignals (some (request h)) = ⊥

  abbrev Kinds : Handlers S Msg Value name is_signal → Type 0
  Kinds hs = (key : String) → is_signal key ≡ true → IsSignals (lookup key hs)

  abbrev Adds :
      Handlers S Msg Value name is_signal
      → Handlers S Msg Value name is_signal
      → String
      → String
      → Next
      → Type 0
  Adds hs hs' key other h =
      (IsSignals (lookup other hs) → IsSignals (lookup other hs'))
      × (signals_of (lookup other hs')
          ≡ signals_of (lookup other hs) ++ (if key == other then h ∷ [] else []))

  -- What the handlers of the messages do, one message after the other, up to the first error.
  pub run_all : List (String × Next) → List Msg → S → S × Option Error
  run_all regs [] s = (s, none)
  run_all regs (msg ∷ rest) s =
      let (s', e) = call_all S Msg Value name is_signal (handlers_for (name msg) regs) msg s in
      elim e [ none ↦ run_all regs rest s' | some x ↦ (s', some x) ]

  -- The messages are all signals.
  abbrev pub AllSignals : List Msg → Type 0
  AllSignals [] = Unit
  AllSignals (msg ∷ rest) = (is_signal (name msg) ≡ true) × AllSignals rest
