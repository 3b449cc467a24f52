-- ===== src/Session.antt =====
-- server/client_session.hpp: what the server keeps for a connection.
use the_socket_exchange.Common.{
  ℕ, List, [], ◌∷◌, Bool, true, false, not, if◌then◌else◌, ◌==◌, bytes_eq, Bytes, is_empty,
}
use the_socket_exchange.Framing
use the_socket_exchange.Framing.{LineBuffer}

pub data Role : Type 0 where
  unknown trader market_data : Role

pub record ClientSession : Type 0 where
  pub fd : ℕ
  pub session_seq : ℕ
  pub role : Role
  pub username : Bytes
  -- a `std::set`, of which the program asks membership only
  pub subscriptions : List Bytes
  pub inbuf : LineBuffer
  pub outbuf : List Bytes
  pub want_write : Bool

-- The default member values; the source's default `fd` is -1, and is overwritten at once.
abbrev pub default_session : ClientSession
default_session = record {
  fd = 0;
  session_seq = 0;
  role = unknown;
  username = [];
  subscriptions = [];
  inbuf = Framing.empty;
  outbuf = [];
  want_write = false;
}

abbrev pub logged_in : ClientSession → Bool
logged_in c = not (is_empty c.username)

-- `subscriptions.count(instrument)`
abbrev pub subscribed : Bytes → List Bytes → Bool
subscribed i [] = false
subscribed i (j ∷ js) = if j == i then true else subscribed i js

-- `subscriptions.insert(instrument)`
abbrev pub subscribe : Bytes → List Bytes → List Bytes
subscribe i js = if subscribed i js then js else i ∷ js

-- `subscriptions.erase(instrument)`
abbrev pub unsubscribe : Bytes → List Bytes → List Bytes
unsubscribe i [] = []
unsubscribe i (j ∷ js) = let rest = unsubscribe i js in if j == i then rest else j ∷ rest
