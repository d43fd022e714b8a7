-- ===== src/Client/Store.antt =====
-- puncture-client/src/db.rs and puncture-client-db/src/models.rs: the daemons that a client is
-- registered with. The key of a row is the id of the daemon.
use puncture.Common.{ℕ, String, List, filter, not, ◌==◌}
use puncture.Models.{insert_or_ignore}
use puncture.ClientCore.{RegisterResponse}

pub record DaemonRecord : Type 0 where
  pub node_id : String
  pub network : String
  pub name : String
  pub created_at : ℕ

abbrev pub daemon_row : ℕ → String → RegisterResponse → DaemonRecord
daemon_row now node_id config = record {
  node_id = node_id;
  network = config.network;
  name = config.name;
  created_at = now;
}

unfoldable pub save_daemon : ℕ → String → RegisterResponse → List DaemonRecord → List DaemonRecord
save_daemon now node_id config daemons =
    insert_or_ignore (λ d. d.node_id) (daemon_row now node_id config) daemons

unfoldable pub list_daemons : List DaemonRecord → List DaemonRecord
list_daemons daemons = daemons

unfoldable pub delete_daemon : String → List DaemonRecord → List DaemonRecord
delete_daemon node_id daemons = filter (λ d. not (d.node_id == node_id)) daemons
