-- ===== src/Network/Run.antt =====
-- src/net/network.rs: the loop of `NetworkManager`. What `select!` finds ready, with the receivers
-- that are there at that time, is an argument. When the loop returns or panics, the senders that
-- wait in the tables are dropped with them; that is not logged.
use simb.Prelude.{ℕ, List, [], ◌∷◌, ◌⊎◌, inl, Option, none, some}
use simb.Prelude.Result.{ok}
use simb.Prelude.Exec.{Exec, pure, ◌>>=◌}
use simb.Interface.{Failures, RequestError, from_channel_error}
use simb.Manager.{GetBlockHeadersResponse, take_future}
use simb.Network.{Receivers, NetworkManager, Action, handle_command, handle_response_block_headers}
use simb.Network.Swarm.{Libp2p}
use simb.Network.Messages.{NetworkProviderMessage, SwarmEvent}
use simb.Network.Events.{handle_event}

-- Why the loop stops for now: the channel of commands is closed, or nothing is ready.
pub data Ended : Type 0 where
  returned waiting : Ended

module _ {F : Failures} (net : Libp2p F) where
  -- What the chain's manager sends on a one-shot channel, and what `rx.await` gives: nothing where
  -- the sender was dropped.
  abbrev pub HeadersReply : Type 0
  HeadersReply = RequestError F ⊎ GetBlockHeadersResponse net.ResponseChannel

  unfoldable pub poll_get_block_headers : Option HeadersReply → HeadersReply
  poll_get_block_headers none = inl (from_channel_error net.recv_error)
  poll_get_block_headers (some response) = response

  -- What is ready: an event of the swarm with the number of the next one-shot channel, a command
  -- or the end of the commands, the reply to one of the awaited requests, or the interval.
  pub data Ready : Type 0 where
    event : ℕ → SwarmEvent net → Ready
    command : Option (NetworkProviderMessage net) → Ready
    response : ℕ → Option HeadersReply → Ready
    bootstrap : Ready

  -- The reply to the request at a position, if so many are awaited.
  abbrev pub respond : Option (ℕ × List ℕ) → HeadersReply → Action net
  respond none reply m = (ok tt, m)
  respond (some (x, others)) reply m =
      handle_response_block_headers net reply (record m { incoming_peer_requests = others })

  abbrev pub handle_response : ℕ → HeadersReply → Action net
  handle_response i reply m = respond (take_future i m.incoming_peer_requests) reply m

  -- One round of the loop.
  unfoldable pub select : Receivers → Ready → Exec (NetworkManager net) ⊥ Ended
  unfolding handle_command handle_event handle_response_block_headers take_future
      poll_get_block_headers
  select r (event next e) = handle_event net r next e >>= λ done. pure waiting
  select r (command none) = pure returned
  select r (command (some c)) = handle_command net r c >>= λ done. pure waiting
  select r (response i reply) =
      handle_response i (poll_get_block_headers reply) >>= λ done. pure waiting
  select r bootstrap = λ m. (ok waiting, record m { swarm = net.bootstrap m.swarm })

  abbrev pub go_on : Exec (NetworkManager net) ⊥ Ended → Ended → Exec (NetworkManager net) ⊥ Ended
  go_on rest returned = pure returned
  go_on rest waiting = rest

  unfoldable pub run : List (Receivers × Ready) → Exec (NetworkManager net) ⊥ Ended
  unfolding select
  run [] = pure waiting
  run ((r, x) ∷ rest) = select r x >>= go_on (run rest)
