-- ===== src/EventLoop/Dispatcher.antt =====
-- The registry of handlers, from internal/controlplane/eventloop/dispatcher.go. A handler is a
-- function to the error that it returns; a nil handler is `none`.
use akoflow.Prelude.{
  String, Bool, true, false, List, ◌∷◌, Option, none, some, lookup, ◌==◌, string_eq, ◌||◌, ◌≡◌,
  refl, arith, if◌then◌else◌, Result, ok, err, beq_refl,
}
use akoflow.Queue.{Job}

pub data DispatchError : Type 0 where
  handler_required already_registered no_handler : DispatchError
  handler_failed : String → DispatchError

abbrev pub Handler : Type 0
Handler = Job → Option String

abbrev pub Dispatcher : Type 0
Dispatcher = List (String × Handler)

abbrev is_nil : Option Handler → Bool
is_nil none = true
is_nil (some h) = false

register_new :
    Dispatcher → String → Option Handler → Option Handler → Result DispatchError Dispatcher
register_new d event existing none = err handler_required
register_new d event (some old) (some h) = err already_registered
register_new d event none (some h) = ok ((event, h) ∷ d)

unfoldable pub register : Dispatcher → String → Option Handler → Result DispatchError Dispatcher
unfolding register_new
register d event h =
    if event == "" || is_nil h
    then err handler_required
    else register_new d event (lookup event d) h

abbrev pub run_handler : Option Handler → Job → Option DispatchError
run_handler none j = some no_handler
run_handler (some h) j = elim (h j) [ none ↦ none | some cause ↦ some (handler_failed cause) ]

unfoldable pub dispatch : Dispatcher → Job → Option DispatchError
dispatch d j = run_handler (lookup j.event_type d) j

-- What a registration that is accepted did.
register-ok :
    (d d' : Dispatcher) (event : String) (h : Handler)
    → register d event (some h) ≡ ok d'
    → ((event == "") ≡ false) × (d' ≡ (event, h) ∷ d)
unfolding register
register-ok d d' event h r = ground arith

-- A registration leaves the handlers of the other events, and is the one handler of its own: a second
-- registration for the event is refused.
pub register_lem :
    (d d' : Dispatcher) (event : String) (h g : Handler) (j : Job)
    → register d event (some h) ≡ ok d'
    → (j.event_type ≡ event → dispatch d' j ≡ run_handler (some h) j)
      × ((j.event_type == event) ≡ false → dispatch d' j ≡ dispatch d j)
      × (register d' event (some g) ≡ err already_registered)
unfolding register dispatch
register_lem d d' event h g j r =
    let (named, grown) = register-ok d d' event h r in
    (
      λ e. rw (grown, e, beq_refl event) refl,
      λ e. rw (grown, e) refl,
      rw (grown, named, beq_refl event) refl,
    )
