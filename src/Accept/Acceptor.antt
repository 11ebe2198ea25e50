-- ===== src/Accept/Acceptor.antt =====
-- `TcpServer`: its constructor behind the acceptor's, and the loop of `do_accept`.
use opensmsc.Accept.Connection.{Connection, Server, handle_connection}
use opensmsc.Accept.Admitted.{Event, accepted, happen}
use opensmsc.Base.{List, Option, Text, [], arith, none, refl, some, ℕ, ◌+◌, ◌-◌, ◌∷◌, ◌≡◌}

-- How an `async_accept` completes.
pub data Accepted : Type 0 where
  connected : Connection → Accepted
  aborted : Accepted
  failed : Text → Accepted

-- The server, the `async_accept` operations that asio has not completed, and the messages that were logged,
-- newest first.
pub record Acceptor : Type 0 where
  pub server : Server
  pub awaited : ℕ
  pub messages : List Text

unfoldable pub do_accept : Acceptor → Acceptor
do_accept a = record a { awaited = a.awaited + 1 }

-- The constructor, by the error of `set_option`.
unfoldable pub listen : Option Text → Server → Acceptor
listen none s = do_accept (record { server = s; awaited = 0; messages = [] })
listen (some ec) s = do_accept (record { server = s; awaited = 0; messages = ec ∷ [] })

module _ (inet_pton : Text → Option ℕ) where
  abbrev pub on_result : Accepted → Acceptor → Acceptor
  on_result (connected c) a = record a { server = handle_connection inet_pton c a.server }
  on_result aborted a = a
  on_result (failed message) a = record a { messages = message ∷ a.messages }

  -- The completion: asio has one operation less, and the next is begun.
  unfoldable pub on_accept : Accepted → Acceptor → Acceptor
  on_accept r a = do_accept (on_result r (record a { awaited = a.awaited - 1 }))

  unfoldable pub accept_all : List Accepted → Acceptor → Acceptor
  accept_all [] a = a
  accept_all (r ∷ results) a = accept_all results (on_accept r a)

  -- The connections among the results, as events of the server.
  abbrev pub connections : List Accepted → List Event
  connections [] = []
  connections (connected c ∷ results) = accepted c ∷ connections results
  connections (aborted ∷ results) = connections results
  connections (failed message ∷ results) = connections results

  accept_all-happen :
      (results : List Accepted) (a : Acceptor)
      → a.awaited ≡ 1
      → ((accept_all results a).server ≡ happen inet_pton (connections results) a.server)
        × ((accept_all results a).awaited ≡ 1)
  unfolding accept_all on_accept do_accept happen
  accept_all-happen [] a h = (refl, h)
  accept_all-happen (connected c ∷ results) a h =
      accept_all-happen results (on_accept (connected c) a) (omega arith)
  accept_all-happen (aborted ∷ results) a h =
      accept_all-happen results (on_accept aborted a) (omega arith)
  accept_all-happen (failed message ∷ results) a h =
      accept_all-happen results (on_accept (failed message) a) (omega arith)

  -- However its accepts complete, the server waits for exactly one next connection, and has handled the
  -- connections that it accepted, in their order and without a trace of the failures between them.
  pub accept_all_lem :
      (ec : Option Text) (s : Server) (results : List Accepted)
      → let a = accept_all results (listen ec s) in
        (a.server ≡ happen inet_pton (connections results) s) × (a.awaited ≡ 1)
  unfolding listen do_accept
  accept_all_lem none s results = accept_all-happen results (listen none s) refl
  accept_all_lem (some ec) s results = accept_all-happen results (listen (some ec) s) refl
