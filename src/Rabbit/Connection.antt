-- ===== src/Rabbit/Connection.antt =====
-- components/rabbitmq_integration/src/connection.cpp: the part that is not commented out. Opening
-- contacts no broker.
use udp_to_rabbitmq_gateway.Base.{Bool, true, false}

pub data ConnectionState : Type 0 where
  disconnected connecting connected disconnecting reconnecting error : ConnectionState

unfoldable pub is_connected : ConnectionState → Bool
is_connected connected = true
is_connected _ = false

-- The state that is left, and the answer.
unfoldable pub open_connection : ConnectionState → ConnectionState × Bool
open_connection _ = (connected, true)

unfoldable pub close_connection : ConnectionState → ConnectionState
close_connection _ = disconnected
