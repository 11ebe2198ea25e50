-- ===== src/Session/Frames.antt =====
-- What the methods of the event loop do not look at: the log, and the counter of DeliverSm.
use mathlib.Core.List.{append_assoc}
use opensmsc.Session.State.{
  Effect, Session, SessionState, bound_rx, bound_trx, bound_tx, disconnect_from, do_disconnect,
  emit, opened, unbound,
}
use opensmsc.Base.{
  Bool, List, Text, [], ap, false, if◌then◌else◌, refl, sym, true, ℕ, ◌++◌, ◌∙◌, ◌∷◌, ◌≡◌,
}

abbrev pub put : ℕ → List Effect → Session → Session
put d l s = record s { deliver_seq = d; log = l }

-- Whatever counter and log a session has, f leaves the counter, pushes the same on the log, and does the
-- same to all else.
abbrev pub Frames : (Session → Session) → Session → Type 0
Frames f s =
    (pushed : List Effect) × ((d : ℕ) (l : List Effect) → f (put d l s) ≡ put d (pushed ++ l) (f s))

pub keep-Frames : (s : Session) → Frames (λ s. s) s
keep-Frames s = ([], λ d l. refl)

pub emit-Frames : (e : Effect) (s : Session) → Frames (emit e) s
emit-Frames e s = (e ∷ [], λ d l. refl)

pub then-Frames :
    (f g : Session → Session) (s : Session) → Frames g s → Frames f (g s) → Frames (λ s. f (g s)) s
then-Frames f g s (first, by_g) (second, by_f) = (
  second ++ first,
  λ d l.
      ap f (by_g d l)
      ∙ by_f d (first ++ l)
      ∙ ap (λ log. put d log (f (g s))) (sym (append_assoc second first l)),
)

-- By a test that reads neither counter nor log.
pub if-Frames :
    (b : Bool) (f g : Session → Session) (s : Session)
    → Frames f s
    → Frames g s
    → Frames (λ t. if b then f t else g t) s
if-Frames true f g s by_f by_g = by_f
if-Frames false f g s by_f by_g = by_g

disconnect_from-Frames :
    (st : SessionState) (reason : Text) (s : Session) → Frames (disconnect_from st reason) s
disconnect_from-Frames opened reason s = (_ ∷ _ ∷ [], λ d l. refl)
disconnect_from-Frames bound_tx reason s = (_ ∷ _ ∷ [], λ d l. refl)
disconnect_from-Frames bound_rx reason s = (_ ∷ _ ∷ [], λ d l. refl)
disconnect_from-Frames bound_trx reason s = (_ ∷ _ ∷ [], λ d l. refl)
disconnect_from-Frames unbound reason s = ([], λ d l. refl)

pub do_disconnect-Frames : (reason : Text) (s : Session) → Frames (do_disconnect reason) s
unfolding do_disconnect
do_disconnect-Frames reason s = disconnect_from-Frames s.state reason s
