-- ===== src/Gate/Phase.antt =====
-- adapters/postgres/arxiv_request_gate.py: what happens on the connection of one use of the gate, and
-- in which order it may happen for the lock to be held during the request and never to be leaked.
use domain_specific_paper_ha.Prelude.{Option, none, some}

pub data Event : Type 0 where
  -- the connection is taken from the pool
  connected : Event
  configured : Event
  -- the statement that takes the lock is sent, and its transaction is committed
  lock_sent lock_committed : Event
  -- the pause before the request is over
  slept : Event
  request_sent request_done : Event
  -- the lock is given back, and the transaction is committed
  unlock_committed : Event
  -- the connection is thrown away with its session
  invalidated : Event
  -- what is left of the connection is returned to the pool
  closed : Event

pub data Phase : Type 0 where
  -- no connection
  idle : Phase
  -- a connection that cannot hold the lock
  open_connection : Phase
  -- one that may hold it
  uncertain : Phase
  -- one that holds it
  held paced serving finished : Phase
  -- one that was thrown away
  discarded : Phase

-- The phase after an event, if the event is in order.
unfoldable pub advance : Phase → Event → Option Phase
advance idle connected = some open_connection
advance open_connection configured = some open_connection
advance open_connection lock_sent = some uncertain
advance open_connection closed = some idle
advance uncertain lock_committed = some held
advance uncertain invalidated = some discarded
advance held slept = some paced
advance held unlock_committed = some open_connection
advance held invalidated = some discarded
advance paced request_sent = some serving
advance paced unlock_committed = some open_connection
advance paced invalidated = some discarded
advance serving request_done = some finished
advance finished unlock_committed = some open_connection
advance finished invalidated = some discarded
advance discarded closed = some idle
advance _ _ = none

unfoldable pub advance_option : Option Phase → Event → Option Phase
unfolding advance
advance_option none event = none
advance_option (some phase) event = advance phase event
