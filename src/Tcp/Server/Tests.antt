-- ===== src/Tcp/Server/Tests.antt =====
-- Theorems of TcpServer.h at inputs that meet their hypotheses.
use server_dev_lib.Base.{◌≡◌, refl, true, false, List, [], ◌∷◌, ◌++◌}
use server_dev_lib.Base.Int.{pos, negsuc}
use server_dev_lib.Tcp.Server.{Server, Call, close_client, shutdown}
use server_dev_lib.Tcp.Server.Once.{Op, serve_ops, is_open, closings, shutdown_closes}

abbrev working : Server
working = record {
  fd = pos 3;
  access = true;
  save_all_connection = true;
  addr = record { ip = []; port = 80; family = 2 };
  all_accepted = [];
  calls = [];
}

abbrev visits : List Op
visits =
    Op.accepts (pos 5)
    ∷ Op.accepts (negsuc 0)
    ∷ Op.accepts (pos 6)
    ∷ Op.closes_client (pos 5)
    ∷ Op.accepts (pos 5)
    ∷ []

-- Descriptor 5 is closed by `CloseCilent`, accepted again, and closed by `Shutdown`.
shutdown_closes_example :
    let s1 = serve_ops visits working in
    (cs : List Call) × ((shutdown s1).calls ≡ s1.calls ++ (Call.close (pos 3) ∷ cs))
    × (closings (pos 5) cs ≡ 1)
    × (close_client (pos 5) (shutdown s1) ≡ (false, shutdown s1))
unfolding is_open
shutdown_closes_example = shutdown_closes working visits (pos 5) refl refl refl
