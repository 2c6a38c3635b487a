-- ===== src/Tests/Overlap.antt =====
-- src/network/NetworkClient.ts: a client that is closed while it refreshes its metadata.
use kafka_node_ts.Prelude.{◌≡◌, refl, true, false, some, []}
use kafka_node_ts.Prelude.Errors.{err, kafka_error}
use kafka_node_ts.ClusterMetadata.{new_metadata}
use kafka_node_ts.NetworkClient.Defs.{new_client}
use kafka_node_ts.NetworkClient.Action.{◌>>=◌}
use kafka_node_ts.NetworkClient.Refresh.{choose_broker, start_metadata_refresh_timer}
use kafka_node_ts.NetworkClient.Overlap.{
  Overlapping, timer_fires, response_arrives, closes, close_goes_on, connect_ends, happen,
  refresh_request, refresh_begins, new_overlapping, Reachable, new, after,
}
use kafka_node_ts.NetworkClient.Overlap.Restarting.{closes-restarts}
use kafka_node_ts.Tests.Client.{scripted}

abbrev connected : Overlapping
connected = happen connect_ends (new_overlapping true new_metadata [])

abbrev refreshing : Overlapping
refreshing = happen timer_fires connected

refreshing-Reachable : Reachable refreshing
refreshing-Reachable = after timer_fires (after connect_ends (new true new_metadata []))

abbrev closed_too_early : Overlapping
closed_too_early = happen response_arrives (happen close_goes_on (happen closes refreshing))

refreshing-waiting : refreshing.waiting ≡ some (true, err kafka_error)
unfolding happen refresh_begins refresh_request choose_broker ◌>>=◌ start_metadata_refresh_timer
    new_client
refreshing-waiting = refl

refreshing-auto : refreshing.client.auto_refresh_metadata ≡ true
unfolding happen refresh_begins refresh_request choose_broker ◌>>=◌ start_metadata_refresh_timer
    new_client
refreshing-auto = refl

refreshing-open : refreshing.client.is_closed ≡ false
unfolding happen refresh_begins refresh_request choose_broker ◌>>=◌ start_metadata_refresh_timer
    new_client
refreshing-open = refl

closes-restarts_example :
    (closed_too_early.client.is_closed ≡ true)
    × (closed_too_early.client.metadata_refresh_timer ≡ true)
closes-restarts_example =
    closes-restarts (err kafka_error) refreshing refreshing-Reachable refreshing-open
      refreshing-auto refreshing-waiting
