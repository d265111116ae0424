-- ===== src/Subscribe/Server/Reload.antt =====
-- What a reload leaves.
use wing_binlog_go.Prelude.{◌≡◌, Bool, not, [], arith}
use wing_binlog_go.Subscribe.Groups.{Groups, close_all}
use wing_binlog_go.Subscribe.Groups
use wing_binlog_go.Subscribe.Server.{Server, reload, accept, connection}

-- After a reload the service is enabled as the new configuration says and no client is in the groups.
-- It is closed exactly if it is not enabled, so that it takes a connection exactly if it is.
pub reload-state :
    (enable listens : Bool) (s : Server)
    → ((reload enable listens s).enabled ≡ enable)
      × ((reload enable listens s).closed ≡ not enable)
      × ((reload enable listens s).groups.g.live ≡ [])
      × ((accept connection (reload enable listens s)).0 ≡ enable)
unfolding reload Groups.reload accept close_all
reload-state enable listens s = ground arith
