-- ===== src/Network/Agrees.antt =====
-- A listed state against that of the handler, over one step of the handler.
use opensmsc.Network.Views.{restate}
use opensmsc.Session.Bind.{is_open}
use opensmsc.Session.Invariant.{ended}
use opensmsc.Base.{
  Bool, Option, Text, ap, false, inl, inr, none, refl, some, sym, true, ◌∙◌, ◌≡◌, ◌⊎◌, text,
}
use opensmsc.Network.Reports.{Outcome, quiet, silent, tells}
use opensmsc.Session.State.{
  Session, SessionState, bound_rx, bound_trx, bound_tx, opened, state_name, unbound,
}
use mathlib.Core.Bool.{false≢true}

-- The listed state is that of the handler, unless its session has ended, or a call was lost and the
-- session is still listed as OPEN.
abbrev pub Agrees : Bool → Option Text → Option (Text × SessionState) → Type 0
Agrees lost none o = Unit {0}
Agrees lost (some st) none = Unit {0}
Agrees lost (some st) (some (uuid, state)) =
    (st ≡ state_name state) ⊎ (state ≡ unbound) ⊎ ((lost ≡ true) × (st ≡ text "OPEN"))

-- One uuid, after a step of its handler.
Agrees-quiet :
    (lost : Bool) (o : Option Text) (uuid uuid' : Text) (state state' : SessionState)
    → (state' ≡ state) ⊎ (state' ≡ unbound)
    → Agrees lost o (some (uuid, state))
    → Agrees lost o (some (uuid', state'))
Agrees-quiet lost none uuid uuid' state state' k a = tt
Agrees-quiet lost (some st) uuid uuid' state state' (inl same) (inl e) = inl (rw same e)
Agrees-quiet lost (some st) uuid uuid' state state' (inl same) (inr (inl e)) = inr (inl (same ∙ e))
Agrees-quiet lost (some st) uuid uuid' state state' (inl same) (inr (inr l)) = inr (inr l)
Agrees-quiet lost (some st) uuid uuid' state state' (inr ended) a = inr (inl ended)

Agrees-told :
    (lost : Bool) (o : Option Text) (uuid : Text) (state : SessionState)
    → Agrees lost (restate false (state_name state) o) (some (uuid, state))
Agrees-told lost none uuid state = tt
Agrees-told lost (some st) uuid state = inl refl

-- An OPEN session is listed as OPEN, and stays so where its report is lost.
open_listed :
    (lost : Bool) (st uuid : Text) (state : SessionState)
    → is_open state ≡ true
    → Agrees lost (some st) (some (uuid, state))
    → st ≡ text "OPEN"
unfolding state_name
open_listed lost st uuid opened o (inl e) = e
open_listed lost st uuid opened o (inr (inl e)) = absurd (false≢true (ap is_open (sym e)))
open_listed lost st uuid opened o (inr (inr (l, e))) = e
open_listed lost st uuid bound_tx o a = absurd (false≢true o)
open_listed lost st uuid bound_rx o a = absurd (false≢true o)
open_listed lost st uuid bound_trx o a = absurd (false≢true o)
open_listed lost st uuid unbound o a = absurd (false≢true o)

Agrees-lost :
    (o : Option Text) (uuid uuid' : Text) (state state' : SessionState)
    → is_open state ≡ true
    → Agrees true o (some (uuid, state))
    → Agrees true o (some (uuid', state'))
Agrees-lost none uuid uuid' state state' o a = tt
Agrees-lost (some st) uuid uuid' state state' o a =
    inr (inr (refl, open_listed true st uuid state o a))

pub Outcome-Agrees :
    (lost : Bool) (uuid : Text) (state : SessionState) (s' : Session) (o : Option Text)
    → Outcome uuid state s'
    → Agrees lost o (some (uuid, state))
    → Agrees lost (restate (silent s'.log) (state_name s'.state) o) (some (s'.uuid, s'.state))
Outcome-Agrees lost uuid state s' o (quiet q) a =
    rw q.nothing (Agrees-quiet lost o uuid s'.uuid state s'.state q.kept a)
Outcome-Agrees lost uuid state s' o (tells t) a =
    rw t.something (Agrees-told lost o s'.uuid s'.state)

pub Outcome-Agrees-lost :
    (uuid : Text) (state : SessionState) (s' : Session) (o : Option Text)
    → Outcome uuid state s'
    → Agrees true o (some (uuid, state))
    → Agrees true o (some (s'.uuid, s'.state))
Outcome-Agrees-lost uuid state s' o (quiet q) a =
    Agrees-quiet true o uuid s'.uuid state s'.state q.kept a
Outcome-Agrees-lost uuid state s' o (tells t) a =
    Agrees-lost o uuid s'.uuid state s'.state t.was_open a
