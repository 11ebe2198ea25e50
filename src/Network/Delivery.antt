-- ===== src/Network/Delivery.antt =====
-- A message on its way: submitted to one session, routed by the server, delivered by another.
use opensmsc.Network.State.{Network}
use opensmsc.Session.State.{Session}
