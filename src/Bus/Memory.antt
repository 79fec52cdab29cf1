-- ===== src/Bus/Memory.antt =====
-- pkg/bus/memory/dispatcher.go. A handler reads and changes the state `S` of the program. The kind of a
-- message follows from its name, which is unique. `none` is a panic.
pub mod Order
use seelf.Prelude.{
  String, Bool, true, false, Option, none, some, List, [], ◌∷◌, ◌++◌, if◌then◌else◌, Map, lookup,
  insert, Result, ok, err, Error, no_handler_registered,
}

module _ (S Msg Value : Type 0) (name : Msg → String) (is_signal : String → Bool) where
  -- `NextFunc`
  abbrev pub NextFunc : Type 0
  NextFunc = Msg → S → S × Result Value

  abbrev pub MiddlewareFunc : Type 0
  MiddlewareFunc = NextFunc → NextFunc

  -- What the map holds: a handler, or the slice of the handlers of a signal.
  pub data Registered : Type 0 where
    request : NextFunc → Registered
    signals : List NextFunc → Registered

  abbrev pub Handlers : Type 0
  Handlers = Map Registered

  -- The loop from the last middleware to the first.
  unfoldable pub apply_middlewares : List MiddlewareFunc → NextFunc → NextFunc
  apply_middlewares [] handler = handler
  apply_middlewares (m ∷ rest) handler = m (apply_middlewares rest handler)

  abbrev pub register_signal : Handlers → String → NextFunc → Option Registered → Option Handlers
  register_signal handlers key handler none = some (insert key (signals (handler ∷ [])) handlers)
  register_signal handlers key handler (some (signals known)) =
      some (insert key (signals (known ++ (handler ∷ []))) handlers)
  register_signal handlers key handler (some (request _)) = none

  abbrev pub register_request : Handlers → String → NextFunc → Option Registered → Option Handlers
  register_request handlers key handler none = some (insert key (request handler) handlers)
  register_request handlers key handler (some _) = none

  module _ (middlewares : List MiddlewareFunc) where
    -- `Register`
    unfoldable pub register : Handlers → String → NextFunc → Option Handlers
    unfolding apply_middlewares
    register handlers key handler =
        let wrapped = apply_middlewares middlewares handler in
        if is_signal key
        then register_signal handlers key wrapped (lookup key handlers)
        else register_request handlers key wrapped (lookup key handlers)

    -- The registrations that a program makes, in their order.
    unfoldable pub register_all : Handlers → List (String × NextFunc) → Option Handlers
    unfolding register
    register_all handlers [] = some handlers
    register_all handlers ((key, handler) ∷ rest) = elim (register handlers key handler) [
      | none ↦ none
      | some handlers' ↦ register_all handlers' rest
    ]

  -- `Send`
  unfoldable pub send : Handlers → Msg → S → Option (S × Result Value)
  send handlers msg s = elim (lookup (name msg) handlers) [
    | none ↦ some (s, err no_handler_registered)
    | some (request handler) ↦ some (handler msg s)
    | some (signals _) ↦ none
  ]

  abbrev pub error_of : Result Value → Option Error
  error_of (ok _) = none
  error_of (err e) = some e

  -- The inner loop of `Notify`: every handler of one signal, until one fails.
  unfoldable pub call_all : List NextFunc → Msg → S → S × Option Error
  call_all [] msg s = (s, none)
  call_all (h ∷ rest) msg s =
      let after = call_all rest msg (h msg s).0 in
      elim (error_of (h msg s).1) [ none ↦ after | some e ↦ ((h msg s).0, some e) ]

  -- `Notify`
  unfoldable pub notify : Handlers → List Msg → S → Option (S × Option Error)
  unfolding call_all
  notify handlers [] s = some (s, none)
  notify handlers (msg ∷ rest) s = elim (lookup (name msg) handlers) [
    | none ↦ notify handlers rest s
    | some (request _) ↦ none
    | some (signals hdls) ↦
        let (s', e) = call_all hdls msg s in
        elim e [ none ↦ notify handlers rest s' | some x ↦ some (s', some x) ]
  ]
