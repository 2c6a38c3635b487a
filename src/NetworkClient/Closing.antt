-- ===== src/NetworkClient/Closing.antt =====
-- src/network/NetworkClient.ts: a client that was closed.
use kafka_node_ts.Prelude.{ℕ, List, [], ◌∷◌, Option}
use kafka_node_ts.Prelude.Int.{ℤ}
use kafka_node_ts.Buffer.{Bytes}
use kafka_node_ts.NetworkClient.Defs.{Connections, NetworkClient}
use kafka_node_ts.NetworkClient.Lifecycle.{close_client}
use kafka_node_ts.NetworkClient.Requests.{send_request}
use kafka_node_ts.NetworkClient.Open.{IsCalm}
use kafka_node_ts.NetworkClient.Shut.{IsShut}
use kafka_node_ts.NetworkClient.Down.{Throws, send_request-shut}
use kafka_node_ts.NetworkClient.Invariant.{Call, step, step-IsShut, close_client-IsShut}

module _ ⦃k : Connections⦄ where
  -- One call after another, each run to its end.
  unfoldable pub steps : List Call → NetworkClient → NetworkClient
  steps [] c = c
  steps (call ∷ calls) c = steps calls (step call c)

  steps-IsShut : (calls : List Call) (c : NetworkClient) → IsShut c → IsShut (steps calls c)
  unfolding steps
  steps-IsShut [] c h = h
  steps-IsShut (call ∷ calls) c h = steps-IsShut calls (step call c) (step-IsShut c h call)

  -- A client that is not closed, with one connection for a node at most and no refresh running, is
  -- closed while no other call waits. After any calls, `connect` and rounds of the refresh timer among
  -- them, each run to its end before the next one, every request to a node throws.
  pub send_request-closed :
      (n key version : ℤ) (request_data : Bytes) (timeout : Option ℕ) (calls : List Call)
      (c : NetworkClient)
      → IsCalm c
      → Throws (send_request key version request_data timeout n (steps calls (close_client c))).0
  send_request-closed n key version request_data timeout calls c h =
      send_request-shut n key version request_data timeout (steps calls (close_client c))
        (steps-IsShut calls (close_client c) (close_client-IsShut c h))
